-- ===== src/Mailboxes/Outcomes.antt =====
-- What reaches the server and what the page shows afterwards.
use mailserver_ui.Common.{
  or_null, String, true, false, Option, none, some, List, ◌≡◌, arith, if◌then◌else◌, is_empty, trim,
}
use mailserver_ui.Async.{Result, ok, err, Server, run}
use mailserver_ui.Models.{Mailbox, Alias, MailboxSieveScript}
use mailserver_ui.Api.{Call, Reply, mailboxes, MailboxesCall, list_aliases, get_sieve_script}
use mailserver_ui.Mailboxes.State.{Page, CreateModel, empty_create_model, message_for}
use mailserver_ui.Mailboxes.Handlers.{
  create_problem, is_bad_quota, bad_quota, is_managed, on_create, on_save_quota, toggle_manage,
  on_delete,
}

-- The creation form and its error after the answer to a creation.
abbrev pub form_after : CreateModel → Result Mailbox → CreateModel × Option String
form_after form (ok m) = (empty_create_model, none)
form_after form (err e) = (form, some (message_for e))

-- The panel that is open after the answer to a deletion.
abbrev pub panel_after : Option String → String → Result (Unit {0}) → Option String
panel_after managed email (ok done) = if is_managed managed email then none else managed
panel_after managed email (err e) = managed

module _ (upper lower : String → String) (srv : Server Call Reply) (s : Page) (w : srv.World) where
  open srv use {World, reply, after}

  -- A new mailbox with a bad password or quota reaches no server: the reason is shown and what was
  -- typed is kept.
  pub on_create_refused :
      (reason : String)
      → create_problem s.create_model.password s.create_model.confirm
          (upper (trim s.create_model.quota))
        ≡ some reason
      → run srv (on_create upper lower true) s w
        ≡ (ok tt, record s { create_error = some reason; success_message = none }, w)
  unfolding run on_create
  on_create_refused reason h = ground arith

  -- The call that creates the mailbox of the form: its address trimmed and in small letters, and no
  -- quota if none was typed.
  abbrev pub creation : Call
  creation = mailboxes (
      MailboxesCall.create (lower (trim s.create_model.email)) s.create_model.password
        (or_null (upper (trim s.create_model.quota))))

  module _
      (fine : create_problem s.create_model.password s.create_model.confirm
          (upper (trim s.create_model.quota))
        ≡ none) where
    -- Once the server has created a mailbox, the form is emptied and no error shown; if the server
    -- refuses, the form is kept and the reason is shown.
    pub on_create_form :
        let s' = (run srv (on_create upper lower true) s w).1 in
        (s'.create_model, s'.create_error) ≡ form_after s.create_model (reply w creation)
    unfolding run on_create
    on_create_form = ground arith

    -- A mailbox created, the page shows the server's answer to the reload that follows.
    pub on_create_reloads :
        (m : Mailbox) (ms : List Mailbox)
        → reply w creation ≡ ok m
        → reply (after w creation) (mailboxes MailboxesCall.list) ≡ ok ms
        → (run srv (on_create upper lower true) s w).1.mailboxes ≡ ms
    unfolding run on_create
    on_create_reloads m ms p q = ground arith

  -- A quota that is neither empty nor of the format reaches no server.
  pub on_save_quota_refused :
      (email : String)
      → s.managing_email ≡ some email
      → is_empty email ≡ false
      → is_bad_quota (upper (trim s.quota_value)) ≡ true
      → run srv (on_save_quota upper) s w ≡ (ok tt, record s { quota_error = some bad_quota }, w)
  unfolding run on_save_quota
  on_save_quota_refused email managed named bad = ground arith

  -- Opening the panel of a mailbox shows its aliases and its Sieve filter, in whichever order the
  -- two answers arrive.
  pub toggle_manage_loads :
      (m : Mailbox) (found : List Alias) (script : MailboxSieveScript)
      → is_managed s.managing_email m.email ≡ false
      → ((v : World) → reply v (mailboxes (list_aliases m.email)) ≡ ok found)
      → ((v : World) → reply v (mailboxes (get_sieve_script m.email)) ≡ ok script)
      → let s' = (run srv (toggle_manage m) s w).1 in
        (s'.managing_email ≡ some m.email)
        × (s'.aliases ≡ found)
        × (s'.sieve_content ≡ script.content)
        × (s'.sieve_configured ≡ script.configured)
        × (s'.alias_error ≡ none)
        × (s'.sieve_error ≡ none)
  unfolding run toggle_manage
  toggle_manage_loads m found script other p q =
      let v₁ = srv.tick w in
      let v₂ = after v₁ (mailboxes (list_aliases m.email)) in
      let v₃ = after v₁ (mailboxes (get_sieve_script m.email)) in
      ground (arith, p v₁, q v₁, p v₂, q v₂, p v₃, q v₃)

  -- Deleting a mailbox closes its panel and leaves that of another open; a refused deletion changes
  -- no panel.
  pub on_delete_closes :
      (m : Mailbox)
      → (run srv (on_delete true m) s w).1.managing_email
        ≡ panel_after s.managing_email m.email (reply w (mailboxes (MailboxesCall.delete m.email)))
  unfolding run on_delete
  on_delete_closes m = ground arith
