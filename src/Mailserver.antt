-- ===== src/Mailserver.antt =====
-- The sections on the configuration of the mail server: frontend/src/app/features/mailserver/.
pub mod Texts
pub mod Rows
pub mod Relay
pub mod Postfix
pub mod Sieve
pub mod Ldap
pub mod Spam
pub mod Restrictions
pub mod Queue
pub mod Aliases
pub mod Rspamd
