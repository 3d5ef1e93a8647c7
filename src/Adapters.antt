-- ===== src/Adapters.antt =====
-- Adapters of the demo composition (src/adapters/stub) and of the HTTP one (src/adapters/http).
pub mod PaymentRail
pub mod OfflineSubmitQueue
pub mod LifecycleActionClient
pub mod DraftBindingRegistry
