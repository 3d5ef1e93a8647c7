-- ===== src/Lib.antt =====
-- Formspec Web: the composition layer of the respondent shell.
--
-- The program decides, when a form loads, which runtime features are on. Three documents speak: the
-- instance's capability declarations, the organisation's runtime policy and the form's runtime policy.
-- The resolver validates them, decides each key of a closed taxonomy, merges the limits of the enabled
-- ones and resolves the three features that have a configuration of their own (parties, safe
-- addresses, record lifecycle). The shell reads the resolved profile from then on.
--
-- Common       Results with an error, Boolean tests, lists and options that all parts share.
-- Js           The runtime values of the documents: undefined, null, Booleans, numbers (NaN, integers,
--              and the others as one form), strings, arrays and objects with properties in order;
--              reading, writing and spreading of properties. No property is read off a prototype.
-- Policy       src/policy/, a file per part:
--   FeatureKeys            feature-keys.ts: the tuple of keys and the tests on it.
--   Shapes, Errors         policy-shapes.ts and errors.ts: the closed sets of modes with their guards,
--                          the documents, the resolved profile, the error classes.
--   Decide                 resolver.ts, decide and canSatisfy.
--   Checks                 resolver.ts, the small readers of strings and arrays.
--   MultiParty             resolver.ts, validateMultiPartyLimits and resolveMultiPartyPolicy.
--   SafeAddressLimits      resolver.ts, validateSafeAddressLimits.
--   SafeAddress            resolver.ts, resolveSafeAddressPolicy and the audiences of a field.
--   RecordLifecycleLimits  resolver.ts, validateRecordLifecyclePolicy.
--   RecordLifecycle        resolver.ts, the merge and the resolution of lifecycle policies.
--   Validate               resolver.ts, validateInput and validateEmbedLimits.
--   Resolver               resolver.ts, resolveRuntimeFeatures.
--   Sentinel               sentinel.ts: the provenance markers of adapters.
--   PortMap                feature-port-map.ts: the ports that back a feature.
--   Composition            composition-coherence.ts: compositions, their errors, shared slots.
--   Coherence              composition-coherence.ts: assertCompositionCoherence, freezeComposition.
--   ExtractLifecycle       extract-form-policy.ts, the walker of the record-lifecycle policy.
--   ExtractParties         extract-form-policy.ts, the walkers of the multi-party policy and of the opt-ins.
--   ExtractFields          extract-form-policy.ts, the walkers of the items: attachments, safe addresses.
-- Adapters     src/adapters/stub/:
--   PaymentRail            payment-rail-adapter.ts: authorize, capture, void and the injected errors, each
--                          from the state before to the state after and a result.
--   OfflineSubmitQueue     offline-submit-queue.ts: enqueue, replay and pending; the transport is a parameter
--                          from a world to a world and an answer, and no call interleaves a replay.
--   LifecycleActionClient  lifecycle-action-client.ts: its records, clients and checks, and in
--                          LifecycleActionClient/Operations the three submissions.
--   DraftBindingRegistry   src/adapters/http/draft-binding-registry.ts: the bindings of drafts, kept over a
--                          reload of the page; the resolver of form ids is a parameter.
-- Shared       src/shared/:
--   IdempotencyKey         idempotency-key.ts: the derivation of a key of a UUIDv7's form from a text.
-- Flow         src/app/respondent-flow.ts, a file per part:
--   Identity               the options to sign in, the assurance floor, the identity policy's gate.
--   Embed                  verifyEmbedOriginAllowed and matchesAllowedOrigin.
--   Payment                submitWithPayment and submitOrQueue over the ports of a rail, a transport and a
--                          queue. Payment/Charges states the contract of a rail as a record of laws, which
--                          Payment/Demo fills for the in-memory rail.
--   Signers                the slots of a multi-party form and the signatures, each operation from a state to a
--                          result; Signers/Drafts the state in a draft and the aggregate response.
-- Tests        Runs on concrete documents, and each theorem with hypotheses at such a run.
--
-- Fallible code returns a result; an error is the source's error class with its code, its key or
-- document and its text. `policy` errors are the source's typed ones, a type error is what JavaScript
-- throws where the code reads a property of null or undefined or iterates what is not iterable.
-- Modes and capabilities are strings in the input, read by the source's guards, and enumerations after
-- validation. The parts of a document that the resolver treats as unknown (the limits and the
-- lifecycle policies) are runtime values. The URL parser of the browser is a parameter from a text to
-- its origin; so are the uuid package's test of a key, SHA-256, which a browser may lack, and the
-- canonical bytes of a response, which another package gives or refuses. The clock's text is an
-- argument.
-- Freezing an object is the object itself; a Set or Map that only grows is a list in the order of
-- insertion. Every loop is recursion on the list it walks, so no fuel is used.
--
-- Not modelled: React components and effects, network and worker adapters, the generated API client,
-- drivers of external packages (the native package runtime, verifiers), configuration and demo data.
-- They render, perform I/O or hold constants.
pub mod Common
pub mod Js
pub mod Policy
pub mod Adapters
pub mod Shared
pub mod Flow
mod Tests
