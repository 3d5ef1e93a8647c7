-- ===== src/Tests.antt =====
-- Runs of the model on concrete inputs, and each theorem with a hypothesis at such an input.
mod Samples
mod Policy
mod Lifecycle
mod Compositions
mod Rail
mod Offline
mod Flow
mod Signers
mod Extraction
mod LifecycleActions
mod DraftBindings
