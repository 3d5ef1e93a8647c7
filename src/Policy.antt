-- ===== src/Policy.antt =====
-- The runtime feature policy (src/policy): which features a form runs with.
pub mod FeatureKeys
pub mod Shapes
pub mod Errors
pub mod Decide
pub mod Checks
pub mod MultiParty
pub mod SafeAddressLimits
pub mod SafeAddress
pub mod RecordLifecycleLimits
pub mod RecordLifecycle
pub mod Validate
pub mod Resolver
pub mod Sentinel
pub mod PortMap
pub mod Composition
pub mod Coherence
pub mod ExtractLifecycle
pub mod ExtractParties
pub mod ExtractFields
