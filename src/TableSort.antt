-- ===== src/TableSort.antt =====
-- Sortable tables: frontend/src/app/shared/table-sort.ts. Rows are ordered by `Array.prototype.sort`,
-- which is stable, modelled as an insertion sort; a comparator's number is kept as its sign.
pub mod Cycle
pub mod Order
use mailserver_ui.Common.{
  String, Bool, true, false, Option, none, some, List, [], ◌∷◌, Ordering, if◌then◌else◌, Eq, same,
}

pub data SortDirection : Type 0 where
  asc desc : SortDirection

-- `-1 * n`, on signs.
abbrev pub swap : Ordering → Ordering
swap Ordering.lt = Ordering.gt
swap Ordering.eq = Ordering.eq
swap Ordering.gt = Ordering.lt

abbrev pub signed : SortDirection → Ordering → Ordering
signed asc o = o
signed desc o = swap o

abbrev pub is_gt : Ordering → Bool
is_gt Ordering.gt = true
is_gt o = false

module _ {ℓ} {T : Type ℓ} where
  -- The row that stands earlier stays first among equals.
  unfoldable pub insert : (T → T → Ordering) → T → List T → List T
  insert cmp x [] = x ∷ []
  insert cmp x (y ∷ ys) = if is_gt (cmp x y) then y ∷ insert cmp x ys else x ∷ y ∷ ys

  unfoldable pub sort : (T → T → Ordering) → List T → List T
  sort cmp [] = []
  sort cmp (x ∷ xs) = insert cmp x (sort cmp xs)

-- The values of `aria-sort`; `not_sorted` is the text "none".
pub data AriaSort : Type 0 where
  ascending descending not_sorted : AriaSort

pub record TableSort (C : Type 0) : Type 0 where
  pub column : Option C
  pub direction : SortDirection

abbrev pub unsorted : {C : Type 0} → TableSort C
unsorted = record { column = none; direction = asc }

-- `this.column() === column`
abbrev pub is_column : {C : Type 0} ⦃e : Eq C⦄ → Option C → C → Bool
is_column none column = false
is_column (some c) column = same c column

abbrev pub is_asc : SortDirection → Bool
is_asc asc = true
is_asc desc = false

module _ {C : Type 0} where
  unfoldable pub toggle : ⦃e : Eq C⦄ → TableSort C → C → TableSort C
  toggle t column =
      if is_column t.column column
      then if is_asc t.direction then record t { direction = desc } else record t { column = none }
      else record { column = some column; direction = asc }

  unfoldable pub apply : {T : Type 0} → TableSort C → List T → (C → T → T → Ordering) → List T
  apply t rows compare = elim t.column [
    | none ↦ rows
    | some column ↦ sort (λ a b. signed t.direction (compare column a b)) rows
  ]

  unfoldable pub icon : ⦃e : Eq C⦄ → TableSort C → C → String
  icon t column =
      if is_column t.column column
      then if is_asc t.direction then "bi bi-sort-down-alt" else "bi bi-sort-up-alt"
      else "bi bi-arrow-down-up opacity-50"

  unfoldable pub aria : ⦃e : Eq C⦄ → TableSort C → C → AriaSort
  aria t column =
      if is_column t.column column
      then if is_asc t.direction then ascending else descending
      else not_sorted
