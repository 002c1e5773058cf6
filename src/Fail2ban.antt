-- ===== src/Fail2ban.antt =====
-- The fail2ban page: frontend/src/app/features/fail2ban/fail2ban.ts.
pub mod Scan
pub mod Log
pub mod State
pub mod Handlers
pub mod Flags
pub mod Requests
