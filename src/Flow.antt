-- ===== src/Flow.antt =====
-- The respondent's flow (src/app/respondent-flow.ts): who fills, who signs, and how a form is submitted.
pub mod Identity
pub mod Embed
pub mod Payment
pub mod Signers
