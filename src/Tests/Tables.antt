-- ===== src/Tests/Tables.antt =====
-- Sorted tables and the dropdown of users.
use mailserver_ui.Common.{
  ℕ, String, true, false, some, [], ◌∷◌, ◌≡◌, refl, arith, Ordering, Eq, ==_iff, ◌==◌, filter,
  if◌then◌else◌,
}
use Prim.Native.Nat.{compare}
use mailserver_ui.TableSort.{desc, TableSort, signed, apply, sort, insert}
use mailserver_ui.TableSort.Order.{IsConsistent, is_eq, IsSorted, apply-IsSorted}
use mailserver_ui.MultiSelect.{MultiSelect}
use mailserver_ui.Tests.Data.{account}

instance abbrev column_eq : Eq ℕ
column_eq = record { beq = ◌==◌; beq_iff = ==_iff }

-- Column 0 compares the rows as numbers; any other finds all rows level.
abbrev by_column : ℕ → ℕ → ℕ → Ordering
by_column c a b = if c == 0 then compare a b else Ordering.eq

by_number-IsConsistent : IsConsistent (by_column 0)
by_number-IsConsistent = record { flip = λ a b. ground arith; trans = λ a b c p q. ground arith }

abbrev descending_0 : TableSort ℕ
descending_0 = record { column = some 0; direction = desc }

sort_test : apply descending_0 (3 ∷ 1 ∷ 2 ∷ []) by_column ≡ 3 ∷ 2 ∷ 1 ∷ []
unfolding apply sort insert
sort_test = refl

apply-IsSorted_example :
    IsSorted (λ a b. signed desc (by_column 0 a b)) (apply descending_0 (3 ∷ 1 ∷ 3 ∷ []) by_column)
    × ((z : ℕ)
        → filter (λ y. is_eq (by_column 0 z y)) (apply descending_0 (3 ∷ 1 ∷ 3 ∷ []) by_column)
          ≡ filter (λ y. is_eq (by_column 0 z y)) (3 ∷ 1 ∷ 3 ∷ []))
apply-IsSorted_example =
    apply-IsSorted descending_0 by_column (3 ∷ 1 ∷ 3 ∷ []) 0 refl by_number-IsConsistent

abbrev same_text : String → String
same_text t = t

abbrev control : MultiSelect
control = record {
  users = account 1 "bob" ∷ account 2 "eve" ∷ [];
  selected_ids = 2 ∷ 1 ∷ [];
  disabled = false;
  is_open = true;
  query = "";
  active_index = some 1;
}
