-- ===== src/MultiSelect.antt =====
-- The searchable dropdown of users: frontend/src/app/shared/user-multi-select/user-multi-select.ts.
-- `activeIndex` is an `Option`: `none` is the source's -1. Focus, scrolling and `preventDefault` act on
-- the document and are left out. `lower` is `toLowerCase`, the engine's table of letter cases.
pub mod Selection
pub mod Highlight
use mailserver_ui.Common.{
  ℕ, ◌+◌, ◌-◌, ◌%◌, String, Bool, true, false, Option, none, some, List, [], ◌∷◌, ◌++◌, ◌||◌, not,
  if◌then◌else◌, ◌==◌, length, get_elem?, filter, any, trim, includes, is_empty,
}
use mailserver_ui.Models.{User}

pub record MultiSelect : Type 0 where
  pub users : List User
  pub selected_ids : List ℕ
  pub disabled : Bool
  pub is_open : Bool
  pub query : String
  pub active_index : Option ℕ

abbrev pub has_id : List ℕ → ℕ → Bool
has_id ids id = any (λ i. i == id) ids

abbrev pub without : ℕ → List ℕ → List ℕ
without id = filter (λ i. not (i == id))

-- `ids[ids.length - 1]`
abbrev pub last_id : List ℕ → Option ℕ
last_id [] = none
last_id (i ∷ []) = some i
last_id (i ∷ j ∷ ids) = last_id (j ∷ ids)

unfoldable pub selected_users : MultiSelect → List User
selected_users s = filter (λ u. has_id s.selected_ids u.id) s.users

unfoldable pub toggle_ids : List ℕ → ℕ → List ℕ
toggle_ids current id = if has_id current id then without id current else current ++ id ∷ []

unfoldable pub toggle : MultiSelect → ℕ → MultiSelect
toggle s id = record s { selected_ids = toggle_ids s.selected_ids id }

unfoldable pub remove : MultiSelect → ℕ → MultiSelect
remove s id = record s { selected_ids = without id s.selected_ids }

unfoldable pub clear : MultiSelect → MultiSelect
clear s = record s { selected_ids = [] }

unfoldable pub open_dropdown : MultiSelect → MultiSelect
open_dropdown s = if s.disabled then s else record s { is_open = true }

unfoldable pub focus_search : MultiSelect → MultiSelect
unfolding open_dropdown
focus_search s = if s.disabled then s else open_dropdown s

unfoldable pub close : MultiSelect → MultiSelect
close s = record s { is_open = false; active_index = none }

unfoldable pub on_query_input : MultiSelect → String → MultiSelect
unfolding open_dropdown
on_query_input s value = open_dropdown (record s { query = value; active_index = none })

unfoldable pub on_document_click : MultiSelect → Bool → MultiSelect
unfolding close
on_document_click s inside = if s.is_open then if inside then s else close s else s

pub data Delta : Type 0 where
  forward backward : Delta

-- `(current + delta + count) % count`, and the ends that an arrow key starts from.
unfoldable pub move_index : Delta → ℕ → Option ℕ → Option ℕ
move_index forward count none = if count == 0 then none else some 0
move_index backward count none = if count == 0 then none else some (count - 1)
move_index forward count (some i) = if count == 0 then none else some ((i + 1 + count) % count)
move_index backward count (some i) = if count == 0 then none else some ((i + count - 1) % count)

unfoldable pub move_active : MultiSelect → Delta → ℕ → MultiSelect
unfolding move_index
move_active s delta count = record s { active_index = move_index delta count s.active_index }

pub data Key : Type 0 where
  arrow_down arrow_up enter backspace another : Key

abbrev pub option_at : List User → Option ℕ → Option User
option_at options none = none
option_at options (some i) = get_elem? options i

module _ (lower : String → String) where
  unfoldable pub filtered : List User → String → List User
  filtered users query =
      let needle = lower (trim query) in
      if is_empty needle
      then users
      else filter
          (λ u. includes (lower u.username) needle || includes (lower u.display_name) needle) users

  unfoldable pub on_keydown : MultiSelect → Key → MultiSelect
  unfolding open_dropdown move_active toggle remove
  on_keydown s arrow_down =
      move_active (open_dropdown s) forward (length (filtered s.users s.query))
  on_keydown s arrow_up = move_active (open_dropdown s) backward (length (filtered s.users s.query))
  on_keydown s enter = elim (option_at (filtered s.users s.query) s.active_index) [
    | none ↦ s
    | some active ↦ toggle s active.id
  ]
  on_keydown s backspace =
      if is_empty s.query
      then elim (last_id s.selected_ids) [ none ↦ s | some id ↦ remove s id ]
      else s
  on_keydown s another = s

-- What the user does to the control, by the bindings of its template.
pub data Event : Type 0 where
  pick unpick : ℕ → Event
  unpick_all focus escape : Event
  type_query : String → Event
  key : Key → Event
  click : Bool → Event

unfoldable pub handle : (String → String) → MultiSelect → Event → MultiSelect
unfolding toggle remove clear focus_search close on_query_input on_keydown on_document_click
handle lower s (pick id) = toggle s id
handle lower s (unpick id) = remove s id
handle lower s unpick_all = clear s
handle lower s focus = focus_search s
handle lower s escape = close s
handle lower s (type_query value) = on_query_input s value
handle lower s (key k) = on_keydown lower s k
handle lower s (click inside) = on_document_click s inside
