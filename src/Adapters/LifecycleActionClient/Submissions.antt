-- ===== src/Adapters/LifecycleActionClient/Submissions.antt =====
-- Sequences of submissions to the in-memory client of lifecycle actions.
use formspec_web.Common.{String, ◌≡◌, Bool, true, some, List, Result, ok, lookup}
use formspec_web.Adapters.LifecycleActionClient.{
  correct, withdraw, dispute, LifecycleActionReceipt, Client,
}
use formspec_web.Adapters.LifecycleActionClient.Operations.{
  CorrectionRequest, WithdrawalRequest, DisputeRequest, correction_body, withdrawal_body,
  dispute_body, submit_correction, submit_withdrawal, submit_dispute,
}
use formspec_web.Adapters.LifecycleActionClient.History.{
  history, Extends, Grows, Grows-refl, Grows-trans, submit-Grows, submit-kept, submit-replayed,
}

module _ (is_uuid_v7 : String → Bool) (field_set signer_refs : List String) where
  -- One submission, of any of the three kinds.
  pub data Submission : Type 0 where
    of_correction : CorrectionRequest → Submission
    of_withdrawal : WithdrawalRequest → Submission
    of_dispute : DisputeRequest → Submission

  abbrev pub perform :
      Submission → Client → String → String → Client × Result String LifecycleActionReceipt
  perform (of_correction request) client key now =
      submit_correction is_uuid_v7 field_set client request key now
  perform (of_withdrawal request) client key now =
      submit_withdrawal is_uuid_v7 client request key now
  perform (of_dispute request) client key now =
      submit_dispute is_uuid_v7 signer_refs client request key now

  -- The states that submissions lead to from one.
  pub data Leads (from : Client) : Client → Type 0 where
    stays : Leads from from
    submitting :
        (client : Client) (submission : Submission) (key now : String)
        → Leads from client
        → Leads from (perform submission client key now).0

  perform-Grows :
      (submission : Submission) (client : Client) (key now : String)
      → Grows client (perform submission client key now).0
  unfolding submit_correction submit_withdrawal submit_dispute
  perform-Grows (of_correction request) client key now =
      submit-Grows is_uuid_v7 correct "correction" (correction_body field_set request) client
        request.case_urn key now
  perform-Grows (of_withdrawal request) client key now =
      submit-Grows is_uuid_v7 withdraw "withdrawal" (withdrawal_body request) client
        request.case_urn key now
  perform-Grows (of_dispute request) client key now =
      submit-Grows is_uuid_v7 dispute "dispute" (dispute_body signer_refs request) client
        request.case_urn key now

  Leads-Grows : (from to : Client) → Leads from to → Grows from to
  Leads-Grows from _ stays = Grows-refl from
  Leads-Grows from _ (submitting client submission key now h) =
      Grows-trans from client (perform submission client key now).0 (Leads-Grows from client h)
        (perform-Grows submission client key now)

  -- Whatever submissions come in whatever order, refused ones included: the history of every case begins
  -- with the events that it had before.
  pub Leads-Extends :
      (from to : Client) (case_urn : String)
      → Leads from to
      → Extends (history from case_urn) (history to case_urn)
  Leads-Extends from to case_urn h = (Leads-Grows from to h).events case_urn

  perform-kept :
      (submission : Submission) (client : Client) (key now : String)
      (receipt : LifecycleActionReceipt)
      → (perform submission client key now).1 ≡ ok receipt
      → (is_uuid_v7 key ≡ true)
        × (lookup (perform submission client key now).0.receipts_by_key key ≡ some receipt)
  unfolding submit_correction submit_withdrawal submit_dispute
  perform-kept (of_correction request) client key now receipt h =
      submit-kept is_uuid_v7 correct "correction" (correction_body field_set request) client
        request.case_urn key now receipt h
  perform-kept (of_withdrawal request) client key now receipt h =
      submit-kept is_uuid_v7 withdraw "withdrawal" (withdrawal_body request) client request.case_urn
        key now receipt h
  perform-kept (of_dispute request) client key now receipt h =
      submit-kept is_uuid_v7 dispute "dispute" (dispute_body signer_refs request) client
        request.case_urn key now receipt h

  perform-replayed :
      (submission : Submission) (client : Client) (key now : String)
      (receipt : LifecycleActionReceipt)
      → is_uuid_v7 key ≡ true
      → lookup client.receipts_by_key key ≡ some receipt
      → perform submission client key now ≡ (client, ok receipt)
  unfolding submit_correction submit_withdrawal submit_dispute
  perform-replayed (of_correction request) client key now receipt good kept =
      submit-replayed is_uuid_v7 correct "correction" (correction_body field_set request) client
        request.case_urn key now receipt good kept
  perform-replayed (of_withdrawal request) client key now receipt good kept =
      submit-replayed is_uuid_v7 withdraw "withdrawal" (withdrawal_body request) client
        request.case_urn key now receipt good kept
  perform-replayed (of_dispute request) client key now receipt good kept =
      submit-replayed is_uuid_v7 dispute "dispute" (dispute_body signer_refs request) client
        request.case_urn key now receipt good kept

  -- After a submission gave a receipt, and after any further submissions: every submission under the same
  -- key, of any kind, gives that receipt and changes nothing.
  pub perform_once :
      (client later : Client) (first again : Submission) (key now then_now : String)
      (receipt : LifecycleActionReceipt)
      → (perform first client key now).1 ≡ ok receipt
      → Leads (perform first client key now).0 later
      → perform again later key then_now ≡ (later, ok receipt)
  perform_once client later first again key now then_now receipt given h =
      let (good, kept) = perform-kept first client key now receipt given in
      perform-replayed again later key then_now receipt good
        ((Leads-Grows _ later h).receipts key receipt kept)
