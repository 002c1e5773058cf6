-- ===== src/Mailboxes/Handlers.antt =====
-- The handlers of the page.
mod Aliases
mod Accounts
mod Sieve
unfoldable pub use Aliases.*
unfoldable pub use Sieve.*
unfoldable pub use Accounts.*
