-- ===== src/Mailserver/Rows.antt =====
-- Rows of a table that is edited in place.
use mailserver_ui.Common.{ℕ, zero, suc, List, [], ◌∷◌}

-- `list.filter((_, i) => i !== index)`
unfoldable pub remove_at : {A : Type 0} → ℕ → List A → List A
remove_at i [] = []
remove_at zero (x ∷ xs) = xs
remove_at (suc i) (x ∷ xs) = x ∷ remove_at i xs

-- `list.map((x, i) => (i === index ? f(x) : x))`
unfoldable pub change_at : {A : Type 0} → (A → A) → ℕ → List A → List A
change_at f i [] = []
change_at f zero (x ∷ xs) = f x ∷ xs
change_at f (suc i) (x ∷ xs) = x ∷ change_at f i xs
