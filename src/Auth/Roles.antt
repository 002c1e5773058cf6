-- ===== src/Auth/Roles.antt =====
-- The order of the roles.
use mailserver_ui.Common.{true, ◌≡◌, ◌↔◌, ◌≤◌, some, arith}
use mailserver_ui.Models.{Role}
use mailserver_ui.Auth.{rank, role_grants}

pub role_grants_iff :
    (r required : Role) → (role_grants (some r) required ≡ true) ↔ (rank required ≤ rank r)
unfolding role_grants
role_grants_iff r required = ground arith

pub role_grants_trans :
    (a b c : Role)
    → role_grants (some a) b ≡ true
    → role_grants (some b) c ≡ true
    → role_grants (some a) c ≡ true
unfolding role_grants
role_grants_trans a b c p q = ground arith
