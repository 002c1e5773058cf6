-- ===== src/Dashboard/Views/Laws.antt =====
-- What the derived views say of the tiles.
use mailserver_ui.Common.{
  ◌+◌, ◌-◌, String, Bool, true, not, ◌&&◌, Option, none, some, List, [], ◌∷◌, map, filter, length,
  Ordering, ◌≡◌, refl, ap, ◌∙◌, arith, str_eq_refl, length-filter-le, ltb,
}
use mailserver_ui.Models.{Mailbox, DkimKey, Fail2banJail}
use mailserver_ui.TableSort.{sort, insert}
use mailserver_ui.TableSort.Order.{IsConsistent, IsSorted, sort-IsSorted}
use mailserver_ui.Dashboard.{Page}
use mailserver_ui.Dashboard.Views.{
  DkimCoverage, coverage, dkim_coverage, domains, distinct_from, has_text, unsigned, total_banned,
  jails_of, banned_ips_count, more_banned, active_jails,
}
use mailserver_ui.Dashboard.Views.Domains.{
  IsDistinct, has_text-filter, IsDistinct-filter, has_text-sort, IsDistinct-sort,
  has_text-distinct_from, IsDistinct-distinct_from,
}

-- The domains of the keys.
abbrev pub signing : List DkimKey → List String
signing keys = map (λ (k : DkimKey). k.domain) keys

-- The domains of the mailboxes.
abbrev pub hosting : List Mailbox → List String
hosting ms = map (λ (m : Mailbox). m.domain) ms

-- The coverage counts each domain that has a mailbox once, as signed or as missing; and a domain is
-- missing exactly if it has a mailbox and no key.
abbrev pub IsCount : List Mailbox → List DkimKey → DkimCoverage → Type 0
IsCount ms keys c =
    ((hosted : List String) × IsDistinct hosted
      × ((d : String) → has_text d hosted ≡ has_text d (hosting ms))
      × (c.total ≡ length hosted))
    × (c.signed + length c.missing ≡ c.total)
    × IsDistinct c.missing
    × ((d : String)
        → has_text d c.missing ≡ has_text d (hosting ms) && not (has_text d (signing keys)))

-- What the coverage is, by what has loaded.
abbrev pub IsCoverage : Option (List Mailbox) → Option (List DkimKey) → Option DkimCoverage → Type 0
IsCoverage (some (m ∷ ms)) (some keys) shown =
    (c : DkimCoverage) × (shown ≡ some c) × IsCount (m ∷ ms) keys c
IsCoverage ms keys shown = shown ≡ none

abbrev counted : List DkimKey → List String → DkimCoverage
counted keys ds = record {
  signed = length ds - length (unsigned keys ds);
  total = length ds;
  missing = unsigned keys ds;
}

module _ (order : String → String → Ordering) where
  abbrev hosted_from : List Mailbox → List String
  hosted_from ms = sort order (distinct_from [] (hosting ms))

  has_text-hosted :
      (d : String) (ms : List Mailbox) → has_text d (hosted_from ms) ≡ has_text d (hosting ms)
  has_text-hosted d ms = ground (
    arith,
    has_text-sort order d (distinct_from [] (hosting ms)),
    has_text-distinct_from d [] (hosting ms),
  )

  counted-IsCount :
      (ms : List Mailbox) (keys : List DkimKey) → IsCount ms keys (counted keys (hosted_from ms))
  counted-IsCount ms keys =
      let free : String → Bool = λ t. not (has_text t (signing keys)) in
      let ds : List String = hosted_from ms in
      let once : IsDistinct ds =
        IsDistinct-sort order _ (IsDistinct-distinct_from [] (hosting ms)) in
      (
        (ds, once, λ d. has_text-hosted d ms, refl),
        omega (arith, length-filter-le free ds),
        IsDistinct-filter free ds once,
        λ d. has_text-filter free d ds ∙ ap (λ b. b && free d) (has_text-hosted d ms),
      )

  coverage-counted :
      (m : Mailbox) (ms : List Mailbox) (keys : List DkimKey)
      → coverage (some keys) (hosted_from (m ∷ ms)) ≡ some (counted keys (hosted_from (m ∷ ms)))
  unfolding coverage
  coverage-counted m ms keys =
      go (hosted_from (m ∷ ms))
        (ground (arith, has_text-hosted m.domain (m ∷ ms), str_eq_refl m.domain))
    where
      go :
          (ds : List String)
          → has_text m.domain ds ≡ true
          → coverage (some keys) ds ≡ some (counted keys ds)
      go [] h = absurd (ground arith)
      go (d ∷ ds) h = refl

  covered :
      (ms : Option (List Mailbox)) (keys : Option (List DkimKey))
      → IsCoverage ms keys (coverage keys (elim ms [ none ↦ [] | some x ↦ hosted_from x ]))
  unfolding coverage distinct_from sort
  covered none none = refl
  covered none (some keys) = refl
  covered (some []) none = refl
  covered (some []) (some keys) = refl
  covered (some (m ∷ ms)) none = refl
  covered (some (m ∷ ms)) (some keys) = (
    counted keys (hosted_from (m ∷ ms)),
    coverage-counted m ms keys,
    counted-IsCount (m ∷ ms) keys,
  )

  -- The coverage is shown exactly where the mailboxes and the keys have loaded and there is a
  -- mailbox, with or without keys. It counts each domain that has a mailbox once, as signed or as
  -- missing, and the missing ones are listed once each: those with a mailbox and no key.
  pub dkim_coverage_lem :
      (s : Page) → IsCoverage s.mailboxes.data_of s.dkim.data_of (dkim_coverage order s)
  unfolding dkim_coverage domains
  dkim_coverage_lem s = covered s.mailboxes.data_of s.dkim.data_of

total-insert :
    (j : Fail2banJail) (js : List Fail2banJail)
    → total_banned (insert more_banned j js) ≡ j.currently_banned + total_banned js
unfolding insert
total-insert j [] = refl
total-insert j (k ∷ ks) = ground (arith, total-insert j ks)

total-sort : (js : List Fail2banJail) → total_banned (sort more_banned js) ≡ total_banned js
unfolding sort
total-sort [] = refl
total-sort (j ∷ js) =
    total-insert j (sort more_banned js) ∙ ap (λ n. j.currently_banned + n) (total-sort js)

total-filter :
    (js : List Fail2banJail)
    → total_banned (filter (λ j. ltb 0 j.currently_banned) js) ≡ total_banned js
total-filter [] = refl
total-filter (j ∷ js) = ground (arith, total-filter js)

more_banned-IsConsistent : IsConsistent more_banned
more_banned-IsConsistent = record { flip = λ a b. ground arith; trans = λ a b c p q. ground arith }

-- The jails that are listed as active hold all the banned addresses that are counted, and come with
-- the most populated first.
pub active_jails-total :
    (s : Page)
    → (total_banned (active_jails s) ≡ banned_ips_count s) × IsSorted more_banned (active_jails s)
unfolding active_jails banned_ips_count
active_jails-total s =
    (total-sort _ ∙ total-filter (jails_of s), sort-IsSorted more_banned more_banned-IsConsistent _)
