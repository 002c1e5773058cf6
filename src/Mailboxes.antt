-- ===== src/Mailboxes.antt =====
-- The mailboxes page: frontend/src/app/features/mailboxes/mailboxes.ts. The verdict of the forms
-- library (`valid`) and the answer to a dialog (`confirmed`) are arguments, and so are `upper` and
-- `lower`, the engine's `toUpperCase` and `toLowerCase`.
pub mod State
pub mod Handlers
pub mod Quota
pub mod Flags
pub mod Outcomes
pub mod Overlap
pub mod Requests
