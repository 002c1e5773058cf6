-- ===== src/TableSort/Cycle.antt =====
-- The cycle of a column header: ascending, descending, unsorted.
use mailserver_ui.Common.{true, false, Option, none, some, List, Ordering, ◌≡◌, ap, arith, Eq, same}
use mailserver_ui.TableSort.{
  asc, desc, TableSort, AriaSort, ascending, descending, not_sorted, is_column, toggle, apply, aria,
}

-- What a click on the header makes of its `aria-sort`.
abbrev pub next_aria : AriaSort → AriaSort
next_aria not_sorted = ascending
next_aria ascending = descending
next_aria descending = not_sorted

module _ {C : Type 0} ⦃e : Eq C⦄ where
  is_column-eq : (o : Option C) (c : C) → is_column o c ≡ true → o ≡ some c
  is_column-eq none c h = cc
  is_column-eq (some d) c h = ap some ((e.beq_iff d c).0 h)

  -- A click on a column header advances its own `aria-sort` from none to ascending, descending and
  -- back to none, and every other header then shows none.
  pub aria-toggle :
      (t : TableSort C) (c d : C)
      → same c d ≡ false
      → (aria (toggle t c) c ≡ next_aria (aria t c)) × (aria (toggle t c) d ≡ not_sorted)
  unfolding aria toggle
  aria-toggle t c d h = (
    ground (arith, is_column-eq t.column c, e.beq_iff c c),
    ground (arith, is_column-eq t.column c),
  )

  -- Three clicks on a column by which the table was not sorted show the rows ascending, descending
  -- and finally in the order of the server.
  pub apply-toggle :
      {T : Type 0} (t : TableSort C) (c : C) (rows : List T) (compare : C → T → T → Ordering)
      → is_column t.column c ≡ false
      → let t₁ = toggle t c in
        let t₂ = toggle t₁ c in
        (t₁ ≡ record { column = some c; direction = asc })
        × (t₂ ≡ record { column = some c; direction = desc })
        × (apply (toggle t₂ c) rows compare ≡ rows)
  unfolding toggle apply
  apply-toggle t c rows compare h = ground (arith, e.beq_iff c c)
