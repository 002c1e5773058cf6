-- ===== src/Tests/Dashboard.antt =====
-- The dashboard of an administrator.
use mailserver_ui.TableSort.{sort, insert}
use mailserver_ui.Common.{String, none, Ordering, ◌+++◌, false, true, some, [], ◌∷◌, ◌≡◌, refl, All}
use mailserver_ui.Async.{ok, run}
use mailserver_ui.Async.Sent.{sent}
use mailserver_ui.Models.{DkimKey, Mailbox}
use mailserver_ui.Auth.{is_admin, role_grants, rank}
use mailserver_ui.Dashboard.{Tile, Page, load_all}
use mailserver_ui.Dashboard.Settled.{AllSettled}
use mailserver_ui.Dashboard.Isolation.{load_all-AllSettled}
use mailserver_ui.Dashboard.Requests.{IsPermitted, load_all-sent}
use mailserver_ui.Dashboard.Views.{coverage, dkim_coverage, domains, distinct_from}
use mailserver_ui.Dashboard.Views.Laws.{IsCoverage, dkim_coverage_lem}
use mailserver_ui.Tests.Data.{server}
use mailserver_ui.Tests.Pages.{dashboard_page}

admin_page : is_admin dashboard_page.session ≡ true
unfolding is_admin role_grants rank
admin_page = refl

load_all-AllSettled_example :
    ((run server load_all dashboard_page 0).0 ≡ ok tt)
    × AllSettled server (run server load_all dashboard_page 0).1
load_all-AllSettled_example = load_all-AllSettled server dashboard_page 0 admin_page

load_all-sent_example :
    All (IsPermitted dashboard_page.session) (sent server load_all dashboard_page 0)
load_all-sent_example = load_all-sent server dashboard_page 0

abbrev key : DkimKey
key = record {
  domain = "a.org";
  selector = "mail";
  record_name = "mail._domainkey.a.org";
  public_key = "";
  txt_value = "";
}

abbrev mailbox_of : String → Mailbox
mailbox_of d = record { email = "ann@" +++ d; domain = d; quota = none }

abbrev loaded : {T : Type 0} → T → Tile T
loaded x = record { data_of = some x; error = none; loading = false }

abbrev half_page : Page
half_page = record dashboard_page {
  mailboxes = loaded (mailbox_of "b.org" ∷ mailbox_of "a.org" ∷ mailbox_of "b.org" ∷ []);
  dkim = loaded (key ∷ []);
}

abbrev level_with : String → String → Ordering
level_with a b = Ordering.eq

half_signed :
    dkim_coverage level_with half_page
    ≡ some (record { signed = 1; total = 2; missing = "b.org" ∷ [] })
unfolding dkim_coverage domains coverage distinct_from sort insert
half_signed = refl

dkim_coverage_lem_example :
    IsCoverage half_page.mailboxes.data_of half_page.dkim.data_of
      (dkim_coverage level_with half_page)
dkim_coverage_lem_example = dkim_coverage_lem level_with half_page
