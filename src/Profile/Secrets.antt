-- ===== src/Profile/Secrets.antt =====
-- The secret of a token: shown from its creation until the user moves on.
use mailserver_ui.Common.{
  String, Bool, true, false, Option, none, some, ◌≡◌, arith, if◌then◌else◌, is_empty, trim,
}
use mailserver_ui.Async.{Result, ok, err, Server, run}
use mailserver_ui.Models.{Pat, PatCreated}
use mailserver_ui.Api.{Call, Reply, pats, PatsCall, revoke}
use mailserver_ui.Profile.{Page, is_shown, api_error_for, create_pat, revoke_pat}

-- What the page shows of the new token and of the form, after the answer to its creation.
pub record Shown : Type 0 where
  pub new_pat : Option PatCreated
  pub copied_secret : Bool
  pub show_pat_form : Bool
  pub pat_name : String
  pub pat_form_error : Option String

abbrev pub shown : Page → Shown
shown s = record {
  new_pat = s.new_pat;
  copied_secret = s.copied_secret;
  show_pat_form = s.show_pat_form;
  pat_name = s.pat_name;
  pat_form_error = s.pat_form_error;
}

abbrev pub shown_after : Page → Result PatCreated → Shown
shown_after s (ok p) = record {
  new_pat = some p;
  copied_secret = false;
  show_pat_form = false;
  pat_name = "";
  pat_form_error = none;
}
shown_after s (err e) = record {
  new_pat = s.new_pat;
  copied_secret = s.copied_secret;
  show_pat_form = s.show_pat_form;
  pat_name = s.pat_name;
  pat_form_error = some (api_error_for e "Unable to create the token.");
}

-- The token that is still shown after the answer to a revocation.
abbrev pub still_shown : Option PatCreated → Pat → Result (Unit {0}) → Option PatCreated
still_shown shown pat (ok done) = if is_shown shown pat.id then none else shown
still_shown shown pat (err e) = shown

module _ (srv : Server Call Reply) (s : Page) (w : srv.World) where
  open srv use {reply}

  -- Creating a token asks for the trimmed name and the chosen lifetime. If the server issues it,
  -- its secret is shown, not marked as copied, and the form is closed and emptied; if not, the
  -- token shown before and the form stay as they were, with the reason.
  pub create_pat_outcome :
      is_empty (trim s.pat_name) ≡ false
      → shown (run srv (create_pat true) s w).1
        ≡ shown_after s (reply w (pats (PatsCall.create (trim s.pat_name) s.expires_in_days)))
  unfolding run create_pat
  create_pat_outcome named = ground arith

  -- Revoking a token hides its secret if that is the one shown, and only once the server has
  -- revoked it.
  pub revoke_pat_hides :
      (pat : Pat)
      → (run srv (revoke_pat true pat) s w).1.new_pat
        ≡ still_shown s.new_pat pat (reply w (pats (revoke pat.id)))
  unfolding run revoke_pat
  revoke_pat_hides pat = ground arith
