-- ===== src/Tests.antt =====
-- Runs of the definitions and instances of the theorems, at concrete pages and a concrete server.
mod Data
mod Auth
mod Users
mod Mailboxes
mod Profile
mod Tables
mod Pages
mod Fail2ban
mod Mailserver
mod Theme
mod Dashboard
