-- ===== src/Users.antt =====
-- The accounts and groups page: frontend/src/app/features/users/users.ts. A handler is a `Task` over
-- the page's signals. `submit` of the forms library runs its action when the form is valid: the
-- handlers take that verdict as `valid`. The answer to a `confirm` dialog is an argument as well.
pub mod State
pub mod Groups
pub mod Accounts
pub mod Flags
pub mod Passwords
pub mod Reloads
pub mod Overlap
pub mod Requests
