-- ===== src/Tests/LifecycleActions.antt =====
-- Theorems on the client of lifecycle actions, at a dispute that is sent twice with a withdrawal between.
use formspec_web.Common.{String, ◌≡◌, refl, Bool, true, false, none, [], ok, err}
use formspec_web.Adapters.LifecycleActionClient.{
  LifecycleActionReceipt, Client, default_actions, assert_action_enabled, assert_reason_if_required,
  assert_signer_scope, is_blank,
}
use formspec_web.Adapters.LifecycleActionClient.Operations.{
  empty_client, snapshot_for, append_receipt, withdrawal_body, dispute_body, submit,
  submit_withdrawal, submit_dispute,
}
use formspec_web.Adapters.LifecycleActionClient.History.{history, Extends}
use formspec_web.Adapters.LifecycleActionClient.Submissions.{
  Submission, of_withdrawal, of_dispute, perform, Leads, stays, submitting, Leads-Extends,
  perform_once,
}

abbrev any_key : String → Bool
any_key key = true

abbrev complaint : Submission any_key [] []
complaint = of_dispute (record {
  case_urn = "case:1";
  party_ref = none;
  actor_ref = none;
  disputed_event_id = none;
  statement = "wrong";
})

abbrev without_reason : Submission any_key [] []
without_reason = of_withdrawal (record {
  case_urn = "case:1";
  party_ref = none;
  reason = none;
  party_scope = none;
  all_parties_approved = false;
  rescission_requested = false;
})

abbrev perform_here : Submission any_key [] [] → Client → String → Client
perform_here submission client key = (perform any_key [] [] submission client key "now").0

abbrev disputed_once : Client
disputed_once = perform_here complaint empty_client "k"

abbrev refused_after : Client
refused_after = perform_here without_reason disputed_once "j"

refused_after-Leads : Leads any_key [] [] disputed_once refused_after
refused_after-Leads = submitting disputed_once without_reason "j" "now" stays

Leads-Extends_example : Extends (history disputed_once "case:1") (history refused_after "case:1")
Leads-Extends_example =
    Leads-Extends any_key [] [] disputed_once refused_after "case:1" refused_after-Leads

complaint_receipt :
    (receipt : LifecycleActionReceipt) × ((perform any_key [] [] complaint empty_client "k" "now").1
      ≡ ok receipt)
unfolding submit_dispute submit dispute_body snapshot_for append_receipt default_actions
    assert_action_enabled assert_signer_scope is_blank
complaint_receipt = (_, refl)

perform_once_example :
    perform any_key [] [] without_reason refused_after "k" "later"
    ≡ (refused_after, ok complaint_receipt.0)
perform_once_example =
    perform_once any_key [] [] empty_client refused_after complaint without_reason "k" "now" "later"
      complaint_receipt.0 complaint_receipt.1 refused_after-Leads

withdrawal_refused :
    (perform any_key [] [] without_reason disputed_once "j" "now").1
    ≡ err "Withdrawal reason is required"
unfolding submit_dispute submit_withdrawal submit dispute_body withdrawal_body snapshot_for
    append_receipt default_actions assert_action_enabled assert_signer_scope
    assert_reason_if_required is_blank
withdrawal_refused = refl
