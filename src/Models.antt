-- ===== src/Models.antt =====
-- The data that the REST API and the pages exchange: frontend/src/app/core/*.models.ts. A nullable
-- field is an `Option`, a number that is never negative a native ℕ, a timestamp its text.
mod Accounts
mod Mail
mod Mailserver
mod Health
pub use Accounts.*
pub use Mail.*
pub use Mailserver.*
pub use Health.*
