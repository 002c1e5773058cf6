-- ===== src/Mailserver/Postfix/Requests.antt =====
-- The requests that the section on Postfix sends.
use mailserver_ui.Common.{
  Bool, true, Option, none, some, List, [], ◌∷◌, ◌≡◌, refl, arith, All, find, not,
}
use mailserver_ui.Async.{Server}
use mailserver_ui.Async.Sent.{sent, Asks, sent-Asks}
use mailserver_ui.Models.{PostfixOverride, PostfixMasterOverride}
use mailserver_ui.Api.{Call, Reply}
use mailserver_ui.Api.Sound.{IsSound}
use mailserver_ui.Mailserver.Postfix.{
  Page, load, add_override, remove_override, on_override_key, on_override_value, cleaned,
  save_overrides, on_save, add_master_override, remove_master_override, on_master_override_key,
  on_master_override_value, cleaned_master, save_master_overrides, on_save_master, is_parameter,
  is_master_parameter,
}
use mailserver_ui.Mailserver.Postfix.Flags.{Action, saves, saves_master, postfix_action}

find-none :
    {A : Type 0} (p : A → Bool) (xs : List A)
    → find (λ x. not (p x)) xs ≡ none
    → All (λ x. p x ≡ true) xs
find-none p [] h = tt
find-none p (x ∷ xs) h = ground (arith, find-none p xs)

save_overrides-Asks :
    (invalid : Option PostfixOverride) (os : List PostfixOverride)
    → (invalid ≡ none → All (λ (o : PostfixOverride). is_parameter o.key ≡ true) os)
    → Asks IsSound (save_overrides invalid os)
unfolding save_overrides
save_overrides-Asks none os h = ground (arith, h refl)
save_overrides-Asks (some o) os h = ground arith

save_master_overrides-Asks :
    (invalid : Option PostfixMasterOverride) (os : List PostfixMasterOverride)
    → (invalid ≡ none → All (λ (o : PostfixMasterOverride). is_master_parameter o.key ≡ true) os)
    → Asks IsSound (save_master_overrides invalid os)
unfolding save_master_overrides
save_master_overrides-Asks none os h = ground (arith, h refl)
save_master_overrides-Asks (some o) os h = ground arith

postfix_action-Asks : (a : Action) → Asks IsSound (postfix_action a)
unfolding postfix_action load add_override remove_override on_override_key on_override_value on_save
    add_master_override remove_master_override on_master_override_key on_master_override_value
    on_save_master
postfix_action-Asks saves = λ _ s.
    save_overrides-Asks _ (cleaned s.overrides)
      (find-none (λ (o : PostfixOverride). is_parameter o.key) (cleaned s.overrides))
postfix_action-Asks saves_master = λ _ s.
    save_master_overrides-Asks _ (cleaned_master s.master_overrides) (
      find-none (λ (o : PostfixMasterOverride). is_master_parameter o.key)
        (cleaned_master s.master_overrides))
postfix_action-Asks a = ground arith

-- Whatever the user does in the section and whatever the server answers, each row that is sent for
-- main.cf has a key of letters, digits and underscores, and each row for master.cf a key of a
-- service, a type and a parameter between slashes.
pub postfix_action-sent :
    (srv : Server Call Reply) (s : Page) (w : srv.World) (a : Action)
    → All IsSound (sent srv (postfix_action a) s w)
postfix_action-sent srv s w a = sent-Asks IsSound srv (postfix_action a) (postfix_action-Asks a) s w
