-- ===== src/Mailserver/Restrictions/Overlap.antt =====
-- The other kind of restrictions chosen while a list is being loaded.
use mailserver_ui.Common.{false, none, List, [], ◌∷◌, ◌≡◌, arith}
use mailserver_ui.Async.{Result, ok}
use mailserver_ui.Async.Pool.{Event, start, answer, run_schedule}
use mailserver_ui.Models.{Restriction, RestrictionKind}
use mailserver_ui.Api.{Call, Reply, filtering, list_restrictions}
use mailserver_ui.Mailserver.Restrictions.{Page, load, set_kind, same_kind}

-- The section opens, the other kind is chosen, and the answer for it arrives first.
abbrev pub late_restrictions : RestrictionKind → List (Event Page Call Reply)
late_restrictions kind = start load ∷ start (set_kind kind) ∷ answer 1 ∷ answer 0 ∷ []

-- An answer that arrives late is shown under the other kind: with the kind `k` chosen, the section
-- lists the restrictions of the kind it opened with, is not loading and shows no error.
pub late_restrictions_mix :
    (reply : (q : Call) → Result (Reply q)) (s : Page) (k : RestrictionKind)
    (old new : List Restriction)
    → same_kind s.kind k ≡ false
    → reply (filtering (list_restrictions s.kind)) ≡ ok old
    → reply (filtering (list_restrictions k)) ≡ ok new
    → let s' = (run_schedule reply (late_restrictions k) [] s).0 in
      ((s'.kind ≡ k) × (s'.restrictions ≡ old)) × ((s'.error ≡ none) × (s'.loading ≡ false))
unfolding run_schedule load set_kind
late_restrictions_mix reply s k old new differ p q = ground arith
