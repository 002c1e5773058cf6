-- ===== src/MultiSelect/Highlight.antt =====
-- The highlighted option, and what every event keeps.
use mailserver_ui.Common.{
  ℕ, zero, suc, ◌<◌, ◌+◌, ◌-◌, ◌%◌, String, false, Option, none, some, List, [], ◌∷◌, ◌≡◌, refl,
  ◌&&◌, arith, length, get_elem?,
}
use native.Mathlib.Decide.{dec_lt}
use native.Mathlib.Numerals.{add-one}
use mailserver_ui.Models.{User}
use mailserver_ui.MultiSelect.{
  MultiSelect, forward, backward, move_index, filtered, toggle, on_keydown, enter,
}
use mailserver_ui.MultiSelect.Selection.{IsDistinct}

abbrev pub Below : ℕ → Option ℕ → Type 0
Below n none = Unit
Below n (some i) = i < n

-- No id chosen twice, the highlight on an option that is shown, and no disabled control open.
pub record IsValid (lower : String → String) (s : MultiSelect) : Type 0 where
  pub distinct : IsDistinct s.selected_ids
  pub in_range : Below (length (filtered lower s.users s.query)) s.active_index
  pub shut : s.disabled && s.is_open ≡ false

next_mod : (n i : ℕ) → i + 1 < n → (i + 1 + n) % n ≡ i + 1
next_mod n i h = grind arith

last_mod : (n i : ℕ) → i + 1 ≡ n → (i + 1 + n) % n ≡ 0
last_mod n i h = grind arith

previous_mod : (n i : ℕ) → i + 1 < n → (i + 1 + n - 1) % n ≡ i
previous_mod n i h = grind arith

end_mod : (n i : ℕ) → i + 1 ≡ n → (0 + n - 1) % n ≡ i
end_mod n i h = grind arith

module _ (n i : ℕ) where
  forward_next : i + 1 < n → move_index forward n (some i) ≡ some (i + 1)
  unfolding move_index
  forward_next h = ground (arith, next_mod n i h)

  forward_wrap : i + 1 ≡ n → move_index forward n (some i) ≡ some 0
  unfolding move_index
  forward_wrap h = ground (arith, last_mod n i h)

  backward_previous : i + 1 < n → move_index backward n (some (i + 1)) ≡ some i
  unfolding move_index
  backward_previous h = ground (arith, previous_mod n i h)

  backward_wrap : i + 1 ≡ n → move_index backward n (some 0) ≡ some i
  unfolding move_index
  backward_wrap h = ground (arith, end_mod n i h)

-- The two arrow keys undo one another on a highlighted option, round both ends of the list.
pub move_index_inverse :
    (n i : ℕ)
    → i < n
    → (move_index backward n (move_index forward n (some i)) ≡ some i)
      × (move_index forward n (move_index backward n (some i)) ≡ some i)
move_index_inverse n i h = (there_and_back (dec_lt (i + 1) n), back_and_there i h)
  where
    there_and_back :
        Dec (i + 1 < n) → move_index backward n (move_index forward n (some i)) ≡ some i
    there_and_back (yes p) = rw (forward_next n i p) (backward_previous n i p)
    there_and_back (no p) =
        let e : i + 1 ≡ n = omega arith in rw (forward_wrap n i e) (backward_wrap n i e)

    back_and_there :
        (j : ℕ) → j < n → move_index forward n (move_index backward n (some j)) ≡ some j
    back_and_there zero q =
        let e : (n - 1) + 1 ≡ n = omega arith in
        rw (backward_wrap n (n - 1) e) (forward_wrap n (n - 1) e)
    back_and_there (suc j) q =
        let p : j + 1 < n = omega arith in
        rw (← add-one j) (rw (backward_previous n j p) (forward_next n j p))

get_elem?-some {ℓ} :
    {A : Type ℓ} (xs : List A) (i : ℕ) → i < length xs → (x : A) × (get_elem? xs i ≡ some x)
get_elem?-some [] i h = elim h [ ]
get_elem?-some (x ∷ xs) zero h = (x, refl)
get_elem?-some (x ∷ xs) (suc i) h = get_elem?-some xs i (omega arith)

module _ (lower : String → String) (s : MultiSelect) (v : IsValid lower s) where
  -- Enter toggles the highlighted user, who is always there, and moves nothing else.
  pub enter_toggles :
      (i : ℕ)
      → s.active_index ≡ some i
      → (u : User) × (get_elem? (filtered lower s.users s.query) i ≡ some u)
        × (on_keydown lower s enter ≡ toggle s u.id)
  unfolding on_keydown
  enter_toggles i e =
      let (u, found) = get_elem?-some (filtered lower s.users s.query) i (rw e at v.in_range) in
      (u, found, ground arith)
