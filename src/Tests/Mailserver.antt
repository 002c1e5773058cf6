-- ===== src/Tests/Mailserver.antt =====
-- The sections on the mail server.
use mailserver_ui.Common.{
  String, true, false, none, [], ◌∷◌, ◌≡◌, ◌↔◌, refl, All, Ordering, ◌+++◌, is_empty, trim,
  trim_start, trim_end,
}
use mailserver_ui.Async.{ok}
use mailserver_ui.Async.Sent.{sent}
use mailserver_ui.Async.Pool.{run_schedule}
use mailserver_ui.Models.{Restriction, RestrictionKind, send, receive}
use mailserver_ui.Api.{Call, Reply, filtering, list_restrictions}
use mailserver_ui.Async.{Result, err, other}
use mailserver_ui.Api.Sound.{IsSound}
use mailserver_ui.Mailserver.Texts.{parse_targets, is_regex_alias}
use mailserver_ui.Mailserver.Texts.Patterns.{IsClosed, is_regex_alias_iff}
use mailserver_ui.Mailserver.Texts.Targets.{IsTarget, target_text, parse_targets-text}
use mailserver_ui.Mailserver.Relay.Flags as RelayFlags
use mailserver_ui.Mailserver.Relay.Requests.{relay_action-sent}
use mailserver_ui.Mailserver.Aliases.Flags as AliasesFlags
use mailserver_ui.Mailserver.Aliases.Requests.{aliases_action-sent}
use mailserver_ui.Mailserver.Restrictions.Overlap.{late_restrictions, late_restrictions_mix}
use mailserver_ui.Mailserver.Rspamd.{invalid_reason}
use mailserver_ui.Mailserver.Rspamd.Rules.{IsCommand, invalid_reason-none_iff}
use mailserver_ui.Mailserver.Rspamd.Flags as RspamdFlags
use mailserver_ui.Mailserver.Rspamd.Requests.{rspamd_action-sent}
use mailserver_ui.Mailserver.Sieve as SievePage
use mailserver_ui.Mailserver.Sieve.Overlap.{late_script, late_script_saved}
use mailserver_ui.Mailserver.Postfix as PostfixPage
use mailserver_ui.Mailserver.Postfix.Flags as PostfixFlags
use mailserver_ui.Mailserver.Postfix.Requests.{postfix_action-sent}
use mailserver_ui.Models.{SieveScope, SieveScript, before, after}
use mailserver_ui.Api.{get_global_sieve, set_global_sieve}
use mailserver_ui.Tests.Data.{server}
use mailserver_ui.Tests.Pages.{relay_page, restrictions_page, aliases_page, rspamd_page, greylist}

abbrev same_text : String → String
same_text t = t

abbrev level_texts : String → String → Ordering
level_texts a b = Ordering.eq

relay_action-sent_example :
    All IsSound
      (sent server (RelayFlags.relay_action same_text (RelayFlags.creates_relay true)) relay_page 0)
relay_action-sent_example =
    relay_action-sent same_text server relay_page 0 (RelayFlags.creates_relay true)

aliases_action-sent_example : All IsSound (
    sent server
      (AliasesFlags.aliases_action same_text (AliasesFlags.adds_regex true))
      aliases_page
      0)
aliases_action-sent_example =
    aliases_action-sent same_text server aliases_page 0 (AliasesFlags.adds_regex true)

is_regex_alias_iff_example : (is_regex_alias "/^info@.+$/i" ≡ true) ↔ (
    (body : String) × (flags : String) × IsClosed body flags
    × (is_empty body ≡ false)
    × ("/^info@.+$/i" ≡ "/" +++ body +++ "/" +++ flags))
is_regex_alias_iff_example = is_regex_alias_iff "/^info@.+$/i"

clean_targets : All IsTarget ("x@a.org" ∷ "y@a.org" ∷ [])
unfolding trim trim_start trim_end
clean_targets = ((refl, (refl, refl)), ((refl, (refl, refl)), tt))

parse_targets-text_example :
    All IsTarget (parse_targets " x@a.org ,, ")
    × (parse_targets (target_text "x@a.org" ("y@a.org" ∷ [])) ≡ "x@a.org" ∷ "y@a.org" ∷ [])
parse_targets-text_example =
    parse_targets-text " x@a.org ,, " "x@a.org" ("y@a.org" ∷ []) clean_targets

abbrev blocked : RestrictionKind → Restriction
blocked kind = record { kind = kind; address = "x@a.org" }

abbrev listed : (q : Call) → Result (Reply q)
listed (filtering (list_restrictions kind)) = ok (blocked kind ∷ [])
listed q = err other

late_restrictions_mix_example :
    let s' = (run_schedule listed (late_restrictions receive) [] restrictions_page).0 in
    ((s'.kind ≡ receive) × (s'.restrictions ≡ blocked send ∷ []))
    × ((s'.error ≡ none) × (s'.loading ≡ false))
late_restrictions_mix_example =
    late_restrictions_mix listed restrictions_page receive (blocked send ∷ [])
      (blocked receive ∷ []) refl refl refl

invalid_reason-none_iff_example : (invalid_reason same_text greylist ≡ none) ↔ IsCommand greylist
invalid_reason-none_iff_example = invalid_reason-none_iff same_text greylist

rspamd_action-sent_example :
    All IsSound (
      sent server (RspamdFlags.rspamd_action same_text level_texts RspamdFlags.saves) rspamd_page 0)
rspamd_action-sent_example =
    rspamd_action-sent same_text level_texts server rspamd_page 0 RspamdFlags.saves

abbrev script : SieveScope → SieveScript
script before = record { scope = before; content = "keep;"; restart_required = false }
script after = record { scope = after; content = "stop;"; restart_required = false }

abbrev scripts : (q : Call) → Result (Reply q)
scripts (filtering (get_global_sieve scope)) = ok (script scope)
scripts q = err other

abbrev sieve_page : SievePage.Page
sieve_page = record {
  scope = before;
  content = "";
  loading = false;
  error = none;
  success = none;
  saving = false;
}

late_script_saved_example :
    let s' = (run_schedule scripts (late_script after) [] sieve_page).0 in
    ((s'.loading ≡ false) × (s'.error ≡ none))
    × (sent server SievePage.on_save s' 0 ≡ filtering (set_global_sieve after "keep;") ∷ [])
late_script_saved_example =
    late_script_saved scripts server sieve_page 0 after (script before) (script after) refl refl
      refl

abbrev postfix_page : PostfixPage.Page
postfix_page = record {
  overrides = record { key = " inet_protocols "; value = "ipv4" } ∷ [];
  master_overrides = [];
  loading = false;
  error = none;
  success = none;
  saving = false;
  saving_master = false;
}

postfix_action-sent_example :
    All IsSound (sent server (PostfixFlags.postfix_action PostfixFlags.saves) postfix_page 0)
postfix_action-sent_example = postfix_action-sent server postfix_page 0 PostfixFlags.saves
