-- ===== src/TableSort/Order.antt =====
-- What `apply` does to the rows.
use mailserver_ui.Common.{
  Bool, true, false, none, some, List, [], ◌∷◌, Ordering, ◌≡◌, ◌≢◌, refl, ap, ◌∙◌, arith, filter,
  All, Bool-cases, Option-cases, inl, inr,
}
use mathlib.Core.Path.{subst, fun_ext}
use mathlib.Core.List.{Perm}
use mathlib.Core.List.Perm
use mailserver_ui.TableSort.{
  SortDirection, asc, desc, swap, signed, is_gt, insert, sort, TableSort, apply,
}

-- A comparator that is a total preorder: what `sort` asks of it.
pub record IsConsistent {ℓ} {T : Type ℓ} (cmp : T → T → Ordering) : Type ℓ where
  pub flip : (a b : T) → cmp b a ≡ swap (cmp a b)
  pub trans : (a b c : T) → cmp a b ≢ Ordering.gt → cmp b c ≢ Ordering.gt → cmp a c ≢ Ordering.gt

abbrev pub is_eq : Ordering → Bool
is_eq Ordering.eq = true
is_eq o = false

-- Every row comes before those that follow it, or is level with them.
abbrev pub IsSorted {ℓ} : {T : Type ℓ} → (T → T → Ordering) → List T → Type 0
IsSorted cmp [] = Unit
IsSorted cmp (x ∷ xs) = All (λ y. cmp x y ≢ Ordering.gt) xs × IsSorted cmp xs

module _ {ℓ} {T : Type ℓ} (cmp : T → T → Ordering) where
  insert-perm : (x : T) (xs : List T) → Perm (insert cmp x xs) (x ∷ xs)
  unfolding insert
  insert-perm x [] = Perm.refl _
  insert-perm x (y ∷ ys) = elim (Bool-cases (is_gt (cmp x y))) [
    | inl after ↦ rw after (Perm.trans (Perm.cons y (insert-perm x ys)) (Perm.swap x y ys))
    | inr before ↦ rw before (Perm.refl _)
  ]

  pub sort-perm : (xs : List T) → Perm (sort cmp xs) xs
  unfolding sort
  sort-perm [] = Perm.refl _
  sort-perm (x ∷ xs) = Perm.trans (insert-perm x (sort cmp xs)) (Perm.cons x (sort-perm xs))

  insert-kept {κ} :
      (P : T → Type κ) (x : T) (xs : List T) → P x → All P xs → All P (insert cmp x xs)
  unfolding insert
  insert-kept P x [] q h = (q, tt)
  insert-kept P x (y ∷ ys) q (r, h) = elim (Bool-cases (is_gt (cmp x y))) [
    | inl after ↦ rw after (r, insert-kept P x ys q h)
    | inr before ↦ rw before (q, (r, h))
  ]

  pub sort-kept {κ} : (P : T → Type κ) (xs : List T) → All P xs → All P (sort cmp xs)
  unfolding sort
  sort-kept P [] h = tt
  sort-kept P (x ∷ xs) (q, h) = insert-kept P x (sort cmp xs) q (sort-kept P xs h)

  module _ (good : IsConsistent cmp) where
    insert-All :
        (z x : T) (xs : List T)
        → cmp z x ≢ Ordering.gt
        → All (λ y. cmp z y ≢ Ordering.gt) xs
        → All (λ y. cmp z y ≢ Ordering.gt) (insert cmp x xs)
    unfolding insert
    insert-All z x [] p h = (p, tt)
    insert-All z x (y ∷ ys) p (q, h) = ground (arith, insert-All z x ys p h)

    lower-All :
        (z x : T) (xs : List T)
        → cmp z x ≢ Ordering.gt
        → All (λ y. cmp x y ≢ Ordering.gt) xs
        → All (λ y. cmp z y ≢ Ordering.gt) xs
    lower-All z x [] p h = tt
    lower-All z x (y ∷ ys) p (q, h) = (good.trans z x y p q, lower-All z x ys p h)

    insert-IsSorted : (x : T) (xs : List T) → IsSorted cmp xs → IsSorted cmp (insert cmp x xs)
    unfolding insert
    insert-IsSorted x [] h = (tt, tt)
    insert-IsSorted x (y ∷ ys) (h, k) = elim (Bool-cases (is_gt (cmp x y))) [
      | inl after ↦
          rw after (insert-All y x ys (ground (arith, good.flip x y)) h, insert-IsSorted x ys k)
      | inr before ↦
          let p : cmp x y ≢ Ordering.gt = ground arith in
          rw before ((p, lower-All x y ys p h), (h, k))
    ]

    pub sort-IsSorted : (xs : List T) → IsSorted cmp (sort cmp xs)
    unfolding sort
    sort-IsSorted [] = tt
    sort-IsSorted (x ∷ xs) = insert-IsSorted x (sort cmp xs) (sort-IsSorted xs)

    level : (z x y : T) → cmp z x ≡ Ordering.eq → cmp z y ≡ Ordering.eq → cmp x y ≢ Ordering.gt
    level z x y p q = good.trans x z y (ground (arith, good.flip z x)) (ground arith)

    -- Among the rows level with `z`, an inserted row comes first.
    insert-filter :
        (z x : T) (xs : List T)
        → filter (λ y. is_eq (cmp z y)) (insert cmp x xs) ≡ filter (λ y. is_eq (cmp z y)) (x ∷ xs)
    unfolding insert
    insert-filter z x [] = refl
    insert-filter z x (y ∷ ys) = ground (arith, insert-filter z x ys, level z x y)

    filter-sort :
        (z : T) (xs : List T)
        → filter (λ y. is_eq (cmp z y)) (sort cmp xs) ≡ filter (λ y. is_eq (cmp z y)) xs
    unfolding sort
    filter-sort z [] = refl
    filter-sort z (x ∷ xs) = insert-filter z x (sort cmp xs) ∙ rw (filter-sort z xs)

signed-IsConsistent {ℓ} :
    {T : Type ℓ} (d : SortDirection) (cmp : T → T → Ordering)
    → IsConsistent cmp
    → IsConsistent (λ a b. signed d (cmp a b))
signed-IsConsistent asc cmp good = good
signed-IsConsistent desc cmp good = record {
  flip = λ a b. ap swap (good.flip a b);
  trans = λ a b c p q. desc_trans a b c p q;
}
  where
    desc_trans :
        (a b c : _)
        → swap (cmp a b) ≢ Ordering.gt
        → swap (cmp b c) ≢ Ordering.gt
        → swap (cmp a c) ≢ Ordering.gt
    desc_trans a b c p q =
        ground (arith, good.flip a b, good.flip b c, good.flip a c, good.trans c b a)

is_eq-swap : (o : Ordering) → is_eq (swap o) ≡ is_eq o
is_eq-swap Ordering.lt = refl
is_eq-swap Ordering.eq = refl
is_eq-swap Ordering.gt = refl

sort-filter {ℓ} :
    {T : Type ℓ} (d : SortDirection) (cmp : T → T → Ordering)
    → IsConsistent cmp
    → (z : T) (xs : List T)
    → filter (λ y. is_eq (cmp z y)) (sort (λ a b. signed d (cmp a b)) xs)
      ≡ filter (λ y. is_eq (cmp z y)) xs
sort-filter asc cmp good z xs = filter-sort cmp good z xs
sort-filter desc cmp good z xs =
    let level : (λ y. is_eq (swap (cmp z y))) ≡ (λ y. is_eq (cmp z y)) =
      fun_ext (λ y. is_eq-swap (cmp z y)) in
    subst (λ p. filter p (sort (λ a b. swap (cmp a b)) xs) ≡ filter p xs) level
      (filter-sort (λ a b. swap (cmp a b)) (signed-IsConsistent desc cmp good) z xs)

module _ {C T : Type 0} (t : TableSort C) (compare : C → T → T → Ordering) where
  apply-none : (rows : List T) → t.column ≡ none → apply t rows compare ≡ rows
  unfolding apply
  apply-none rows e = rw (e, apply)

  apply-some :
      (rows : List T) {c : C}
      → t.column ≡ some c
      → apply t rows compare ≡ sort (λ a b. signed t.direction (compare c a b)) rows
  unfolding apply
  apply-some rows e = rw (e, apply)

  pub apply-perm : (rows : List T) → Perm (apply t rows compare) rows
  apply-perm rows = elim (Option-cases t.column) [
    | inl free ↦ rw (apply-none rows free) (Perm.refl rows)
    | inr (c, on) ↦ rw (apply-some rows on) (sort-perm _ rows)
  ]

  pub apply-All : (P : T → Type 0) (rows : List T) → All P rows → All P (apply t rows compare)
  apply-All P rows h = elim (Option-cases t.column) [
    | inl free ↦ rw (apply-none rows free) h
    | inr (c, on) ↦ rw (apply-some rows on) (sort-kept _ P rows h)
  ]

  -- Sorted on a column whose comparator is a total preorder, the rows ascend or descend on it as
  -- the direction says; and the rows level with any given row keep their original order, in both
  -- directions.
  pub apply-IsSorted :
      (rows : List T) (c : C)
      → t.column ≡ some c
      → IsConsistent (compare c)
      → IsSorted (λ a b. signed t.direction (compare c a b)) (apply t rows compare)
        × ((z : T)
            → filter (λ y. is_eq (compare c z y)) (apply t rows compare)
              ≡ filter (λ y. is_eq (compare c z y)) rows)
  apply-IsSorted rows c on good = rw (apply-some rows on) (
    sort-IsSorted _ (signed-IsConsistent t.direction (compare c) good) rows,
    λ z. sort-filter t.direction (compare c) good z rows,
  )
