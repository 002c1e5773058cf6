-- ===== src/MultiSelect/Selection.antt =====
-- The chosen ids.
use mailserver_ui.Common.{
  ℕ, String, true, false, some, List, [], ◌∷◌, ◌++◌, ◌≡◌, refl, not, arith, if◌then◌else◌, ◌==◌,
  Bool-cases, inl, inr, is_empty,
}
use mailserver_ui.MultiSelect.{
  MultiSelect, has_id, without, last_id, toggle_ids, backspace, on_keydown,
}

-- No id is chosen twice.
abbrev pub IsDistinct : List ℕ → Type 0
IsDistinct [] = Unit
IsDistinct (i ∷ ids) = (has_id ids i ≡ false) × IsDistinct ids

pub has_id-without :
    (j i : ℕ) (ids : List ℕ) → has_id (without i ids) j ≡ (if i == j then false else has_id ids j)
has_id-without j i [] = ground arith
has_id-without j i (k ∷ ids) = ground (arith, has_id-without j i ids)

pub has_id-append :
    (j i : ℕ) (ids : List ℕ) → has_id (ids ++ i ∷ []) j ≡ (if i == j then true else has_id ids j)
has_id-append j i [] = ground arith
has_id-append j i (k ∷ ids) = ground (arith, has_id-append j i ids)

-- One more click on a user flips whether it is selected, and nobody else.
pub has_id-toggle_ids :
    (j i : ℕ) (ids : List ℕ)
    → has_id (toggle_ids ids i) j ≡ (if i == j then not (has_id ids j) else has_id ids j)
unfolding toggle_ids
has_id-toggle_ids j i ids = elim (Bool-cases (has_id ids i)) [
  | inl on ↦ ground (arith, has_id-without j i ids)
  | inr off ↦ ground (arith, has_id-append j i ids)
]

pub without-IsDistinct : (i : ℕ) (ids : List ℕ) → IsDistinct ids → IsDistinct (without i ids)
without-IsDistinct i [] h = tt
without-IsDistinct i (k ∷ ids) (p, h) =
    ground (arith, has_id-without k i ids, without-IsDistinct i ids h)

append-IsDistinct :
    (i : ℕ) (ids : List ℕ) → has_id ids i ≡ false → IsDistinct ids → IsDistinct (ids ++ i ∷ [])
append-IsDistinct i [] p h = (refl, tt)
append-IsDistinct i (k ∷ ids) p (q, h) =
    ground (arith, has_id-append k i ids, append-IsDistinct i ids)

pub toggle_ids-IsDistinct : (i : ℕ) (ids : List ℕ) → IsDistinct ids → IsDistinct (toggle_ids ids i)
unfolding toggle_ids
toggle_ids-IsDistinct i ids h = elim (Bool-cases (has_id ids i)) [
  | inl on ↦ rw on (without-IsDistinct i ids h)
  | inr off ↦ rw off (append-IsDistinct i ids off h)
]

without_absent : (i : ℕ) (ids : List ℕ) → has_id ids i ≡ false → without i ids ≡ ids
without_absent i [] h = refl
without_absent i (k ∷ ids) h = ground (arith, without_absent i ids)

last_id-append : (ids : List ℕ) (i : ℕ) → last_id (ids ++ i ∷ []) ≡ some i
last_id-append [] i = refl
last_id-append (j ∷ []) i = refl
last_id-append (j ∷ k ∷ ids) i = last_id-append (k ∷ ids) i

without-append_last :
    (ids : List ℕ) (i : ℕ) → IsDistinct (ids ++ i ∷ []) → without i (ids ++ i ∷ []) ≡ ids
without-append_last [] i h = ground arith
without-append_last (k ∷ ids) i (p, h) =
    ground (arith, has_id-append k i ids, without-append_last ids i h)

-- Backspace in an empty search field drops the last chip and keeps the others in order.
pub backspace_last :
    (lower : String → String) (s : MultiSelect) (ids : List ℕ) (i : ℕ)
    → s.query ≡ ""
    → s.selected_ids ≡ ids ++ i ∷ []
    → IsDistinct s.selected_ids
    → (on_keydown lower s backspace).selected_ids ≡ ids
unfolding on_keydown
backspace_last lower s ids i empty e h =
    let no_query : is_empty s.query ≡ true = rw empty in
    let last : last_id s.selected_ids ≡ some i = rw e (last_id-append ids i) in
    let left : without i s.selected_ids ≡ ids = rw e (without-append_last ids i (rw e at h)) in
    ground arith
