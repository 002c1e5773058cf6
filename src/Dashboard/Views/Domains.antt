-- ===== src/Dashboard/Views/Domains.antt =====
-- The hosted domains: those of the mailboxes, each once.
use mailserver_ui.Common.{
  String, Bool, false, not, ◌&&◌, ◌||◌, List, [], ◌∷◌, filter, Ordering, ◌≡◌, refl, ap, sym, ◌∙◌,
  arith, str_eq, str_eq_iff, str_eq_refl, Bool-cases, inl, inr,
}
use mailserver_ui.TableSort.{is_gt, sort, insert}
use mailserver_ui.Dashboard.Views.{has_text, distinct_from}

-- No text stands twice in the list.
abbrev pub IsDistinct : List String → Type 0
IsDistinct [] = Unit
IsDistinct (t ∷ ts) = (has_text t ts ≡ false) × IsDistinct ts

pub has_text-filter :
    (p : String → Bool) (d : String) (ts : List String)
    → has_text d (filter p ts) ≡ has_text d ts && p d
has_text-filter p d [] = refl
has_text-filter p d (t ∷ ts) = elim (Bool-cases (str_eq t d)) [
  | inl same ↦
      let e : t ≡ d = (str_eq_iff t d).0 same in ground (arith, has_text-filter p d ts, ap p e)
  | inr differ ↦ ground (arith, has_text-filter p d ts)
]

pub IsDistinct-filter :
    (p : String → Bool) (ts : List String) → IsDistinct ts → IsDistinct (filter p ts)
IsDistinct-filter p [] h = tt
IsDistinct-filter p (t ∷ ts) (h, k) = elim (Bool-cases (p t)) [
  | inl kept ↦ rw kept (ground (arith, has_text-filter p t ts), IsDistinct-filter p ts k)
  | inr free ↦ rw free (IsDistinct-filter p ts k)
]

str_eq-sym : (t u : String) → str_eq t u ≡ false → str_eq u t ≡ false
str_eq-sym t u h = elim (Bool-cases (str_eq u t)) [
  | inl same ↦ absurd (ground (arith, (str_eq_iff t u).1 (sym ((str_eq_iff u t).0 same))))
  | inr differ ↦ differ
]

module _ (order : String → String → Ordering) where
  has_text-insert :
      (d x : String) (ts : List String)
      → has_text d (insert order x ts) ≡ str_eq x d || has_text d ts
  unfolding insert
  has_text-insert d x [] = refl
  has_text-insert d x (t ∷ ts) = ground (arith, has_text-insert d x ts)

  pub has_text-sort : (d : String) (ts : List String) → has_text d (sort order ts) ≡ has_text d ts
  unfolding sort
  has_text-sort d [] = refl
  has_text-sort d (t ∷ ts) =
      has_text-insert d t (sort order ts) ∙ ap (λ b. str_eq t d || b) (has_text-sort d ts)

  IsDistinct-insert :
      (x : String) (ts : List String)
      → has_text x ts ≡ false
      → IsDistinct ts
      → IsDistinct (insert order x ts)
  unfolding insert
  IsDistinct-insert x [] h k = (refl, tt)
  IsDistinct-insert x (t ∷ ts) h (p, k) = elim (Bool-cases (is_gt (order x t))) [
    | inl after ↦ rw after (
      ground (arith, has_text-insert t x ts, str_eq-sym t x (ground arith)),
      IsDistinct-insert x ts (ground arith) k,
    )
    | inr before ↦ rw before (h, (p, k))
  ]

  pub IsDistinct-sort : (ts : List String) → IsDistinct ts → IsDistinct (sort order ts)
  unfolding sort
  IsDistinct-sort [] h = tt
  IsDistinct-sort (t ∷ ts) (h, k) =
      IsDistinct-insert t (sort order ts) (has_text-sort t ts ∙ h) (IsDistinct-sort ts k)

pub has_text-distinct_from :
    (d : String) (seen ts : List String)
    → has_text d (distinct_from seen ts) ≡ has_text d ts && not (has_text d seen)
unfolding distinct_from
has_text-distinct_from d seen [] = refl
has_text-distinct_from d seen (t ∷ ts) = elim (Bool-cases (str_eq t d)) [
  | inl same ↦
      let e : has_text t seen ≡ has_text d seen =
        ap (λ u. has_text u seen) ((str_eq_iff t d).0 same) in
      ground (arith, e, has_text-distinct_from d seen ts, has_text-distinct_from d (t ∷ seen) ts)
  | inr differ ↦
      ground (arith, has_text-distinct_from d seen ts, has_text-distinct_from d (t ∷ seen) ts)
]

pub IsDistinct-distinct_from : (seen ts : List String) → IsDistinct (distinct_from seen ts)
unfolding distinct_from
IsDistinct-distinct_from seen [] = tt
IsDistinct-distinct_from seen (t ∷ ts) = elim (Bool-cases (has_text t seen)) [
  | inl known ↦ rw known (IsDistinct-distinct_from seen ts)
  | inr fresh ↦ rw fresh (
    ground (arith, has_text-distinct_from t (t ∷ seen) ts, str_eq_refl t),
    IsDistinct-distinct_from (t ∷ seen) ts,
  )
]
