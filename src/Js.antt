-- ===== src/Js.antt =====
-- JavaScript values of type `unknown`: what the policy documents and form definitions hold before
-- the code has looked at them.
mod Int
mod Defs
mod Laws
pub use Int.*
unfoldable pub use Defs.*
pub use Laws.*
