-- ===== src/Mailserver/Postfix/Flags.antt =====
-- Every handler of the section on Postfix ends with its spinner off and traps its failures.
use mailserver_ui.Common.{ℕ, String, Bool, false, Option, none, some, List, ◌≡◌, arith, find, not}
use mailserver_ui.Async.{ok, Server, run}
use mailserver_ui.Models.{PostfixOverride, PostfixMasterOverride}
use mailserver_ui.Api.{Call, Reply}
use mailserver_ui.Mailserver.Postfix.{
  Page, PageTask, load, add_override, remove_override, on_override_key, on_override_value, cleaned,
  save_overrides, on_save, add_master_override, remove_master_override, on_master_override_key,
  on_master_override_value, cleaned_master, save_master_overrides, on_save_master, is_parameter,
  is_master_parameter,
}

-- What happens in the section: its start, and what the user does to the rows of main.cf and of
-- master.cf.
pub data Action : Type 0 where
  opens : Action
  adds adds_master : Action
  removes removes_master : ℕ → Action
  edits_key edits_value edits_master_key edits_master_value : ℕ → String → Action
  saves saves_master : Action

pub record Spinners : Type 0 where
  pub loading : Bool
  pub saving : Bool
  pub saving_master : Bool

-- No operation is in progress.
abbrev pub IsIdle : Page → Type 0
IsIdle s =
    ◌≡◌ {A = Spinners}
      (record { loading = s.loading; saving = s.saving; saving_master = s.saving_master })
      (record { loading = false; saving = false; saving_master = false })

unfoldable pub postfix_action : Action → PageTask
postfix_action opens = load
postfix_action adds = add_override
postfix_action adds_master = add_master_override
postfix_action (removes index) = remove_override index
postfix_action (removes_master index) = remove_master_override index
postfix_action (edits_key index key) = on_override_key index key
postfix_action (edits_value index value) = on_override_value index value
postfix_action (edits_master_key index key) = on_master_override_key index key
postfix_action (edits_master_value index value) = on_master_override_value index value
postfix_action saves = on_save
postfix_action saves_master = on_save_master

module _ (srv : Server Call Reply) where
  save_overrides-IsIdle :
      (s : Page) (w : srv.World)
      → IsIdle s
      → (invalid : Option PostfixOverride) (os : List PostfixOverride)
      → ((run srv (save_overrides invalid os) s w).0 ≡ ok tt)
        × IsIdle (run srv (save_overrides invalid os) s w).1
  unfolding run save_overrides
  save_overrides-IsIdle s w idle none os = ground arith
  save_overrides-IsIdle s w idle (some o) os = ground arith

  save_master_overrides-IsIdle :
      (s : Page) (w : srv.World)
      → IsIdle s
      → (invalid : Option PostfixMasterOverride) (os : List PostfixMasterOverride)
      → ((run srv (save_master_overrides invalid os) s w).0 ≡ ok tt)
        × IsIdle (run srv (save_master_overrides invalid os) s w).1
  unfolding run save_master_overrides
  save_master_overrides-IsIdle s w idle none os = ground arith
  save_master_overrides-IsIdle s w idle (some o) os = ground arith

  -- Whatever happens in the idle section and whatever the server answers, the handler runs to its
  -- end, lets no failure escape, and leaves every spinner off.
  pub postfix_action-IsIdle :
      (s : Page) (w : srv.World)
      → IsIdle s
      → (a : Action)
      → ((run srv (postfix_action a) s w).0 ≡ ok tt) × IsIdle (run srv (postfix_action a) s w).1
  unfolding run postfix_action load add_override remove_override on_override_key on_override_value
      on_save add_master_override remove_master_override on_master_override_key
      on_master_override_value on_save_master
  postfix_action-IsIdle s w idle saves =
      save_overrides-IsIdle (record s { error = none; success = none }) w idle
        (find (λ (o : PostfixOverride). not (is_parameter o.key)) (cleaned s.overrides))
        (cleaned s.overrides)
  postfix_action-IsIdle s w idle saves_master =
      save_master_overrides-IsIdle (record s { error = none; success = none }) w idle
        (find (λ (o : PostfixMasterOverride). not (is_master_parameter o.key))
          (cleaned_master s.master_overrides))
        (cleaned_master s.master_overrides)
  postfix_action-IsIdle s w idle a = ground arith
