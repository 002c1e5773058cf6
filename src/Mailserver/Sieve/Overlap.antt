-- ===== src/Mailserver/Sieve/Overlap.antt =====
-- The other script chosen while one is being loaded, and then saved.
use mailserver_ui.Common.{false, none, List, [], ◌∷◌, ◌≡◌, arith}
use mailserver_ui.Async.{Result, ok, Server}
use mailserver_ui.Async.Pool.{Event, start, answer, run_schedule}
use mailserver_ui.Async.Sent.{sent}
use mailserver_ui.Models.{SieveScope, SieveScript}
use mailserver_ui.Api.{Call, Reply, filtering, get_global_sieve, set_global_sieve}
use mailserver_ui.Mailserver.Sieve.{Page, load, set_scope, on_save, same_scope}

-- The section opens, the other script is chosen, and the answer for it arrives first.
abbrev pub late_script : SieveScope → List (Event Page Call Reply)
late_script scope = start load ∷ start (set_scope scope) ∷ answer 1 ∷ answer 0 ∷ []

-- An answer that arrives late is shown as the other script, and is saved as it: with the script `k`
-- chosen, no load pending and no error, saving sends the script that the section opened with for
-- `k`.
pub late_script_saved :
    (reply : (q : Call) → Result (Reply q)) (srv : Server Call Reply) (s : Page) (w : srv.World)
    (k : SieveScope) (old new : SieveScript)
    → same_scope s.scope k ≡ false
    → reply (filtering (get_global_sieve s.scope)) ≡ ok old
    → reply (filtering (get_global_sieve k)) ≡ ok new
    → let s' = (run_schedule reply (late_script k) [] s).0 in
      ((s'.loading ≡ false) × (s'.error ≡ none))
      × (sent srv on_save s' w ≡ filtering (set_global_sieve k old.content) ∷ [])
unfolding run_schedule load set_scope on_save sent
late_script_saved reply srv s w k old new differ p q = ground arith
