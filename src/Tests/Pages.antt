-- ===== src/Tests/Pages.antt =====
-- The pages of the mail server's configuration, as they start.
use mailserver_ui.Common.{true, false, none, some, [], ◌∷◌}
use mailserver_ui.Models.{send, RspamdCommand, set_option_for_module}
use mailserver_ui.TableSort.{unsorted}
use mailserver_ui.Fail2ban.State as Fail2banPage
use mailserver_ui.Mailserver.Relay as RelayPage
use mailserver_ui.Mailserver.Restrictions as RestrictionsPage
use mailserver_ui.Mailserver.Queue as QueuePage
use mailserver_ui.Mailserver.Aliases as AliasesPage
use mailserver_ui.Mailserver.Rspamd as RspamdPage
use mailserver_ui.Dashboard as DashboardPage
use mailserver_ui.Tests.Data.{fresh, ann}

abbrev pub fail2ban_page : Fail2banPage.Page
fail2ban_page = record {
  session = fresh;
  logging_out = false;
  active_tab = Fail2banPage.policy;
  jails = [];
  fail2ban_enabled = true;
  status_loading = false;
  status_error = none;
  action_success = none;
  action_error = none;
  banning = false;
  unbanning_ip = none;
  ban_ip = " 203.0.113.42 ";
  policy_loading = false;
  policy_loaded = false;
  policy_error = none;
  policy_success = none;
  saving_policy = false;
  policy_configured = false;
  policy_model = record { bantime = some 600; findtime = some 60; maxretry = some 6 };
  daemon_config = "";
  saving_config = false;
  log_lines = [];
  log_loading = false;
  log_loaded = false;
  log_error = none;
  log_filter = "";
  log_sort = unsorted;
}

abbrev pub relay_page : RelayPage.Page
relay_page = record {
  relays = [];
  exclusions = [];
  loading = false;
  error = none;
  success = none;
  creating_relay = false;
  create_relay_error = none;
  deleting_sender = none;
  relay_model = record {
    sender = "@a.org";
    host = "smtp.b.org";
    port = some 587;
    username = "";
    password = "";
  };
  adding_exclusion = false;
  deleting_exclusion = none;
  exclusion_model = "";
}

abbrev pub restrictions_page : RestrictionsPage.Page
restrictions_page = record {
  kind = send;
  restrictions = [];
  loading = false;
  error = none;
  success = none;
  adding = false;
  deleting = none;
  restriction_model = "";
}

abbrev pub queue_page : QueuePage.Page
queue_page = record {
  queue = [];
  counts = [];
  loading = false;
  error = none;
  success = none;
  flushing = false;
  deleting_queue_id = none;
}

abbrev pub aliases_page : AliasesPage.Page
aliases_page = record {
  system_aliases = [];
  regex_aliases = [];
  loading = false;
  error = none;
  success = none;
  adding_system_alias = false;
  adding_regex_alias = false;
  deleting_alias = none;
  system_alias_model = record { name = "root"; targets = "x@a.org, y@a.org" };
  regex_alias_model = record { pattern = "/^info@.+$/"; targets = "x@a.org" };
}

abbrev pub greylist : RspamdCommand
greylist = record {
  kind = set_option_for_module;
  target = "greylisting";
  option = "whitelisted_ip";
  value = "127.0.0.0/8";
}

abbrev pub rspamd_page : RspamdPage.Page
rspamd_page = record {
  commands = greylist ∷ [];
  override_files = [];
  rspamd_enabled = true;
  loading = false;
  saving = false;
  error = none;
  success = none;
  saving_file = none;
  deleting_file = none;
  new_file_name = "logging.inc";
  new_file_content = "";
  creating_file = false;
}

abbrev pub dashboard_page : DashboardPage.Page
dashboard_page = record {
  session = record fresh { user = some ann };
  refreshing = false;
  mailboxes = DashboardPage.pending_tile;
  usage = DashboardPage.pending_tile;
  queue = DashboardPage.pending_tile;
  fail2ban = DashboardPage.pending_tile;
  tls = DashboardPage.pending_tile;
  dkim = DashboardPage.pending_tile;
  services = DashboardPage.pending_tile;
  stats = DashboardPage.pending_tile;
  environment = DashboardPage.pending_tile;
  accounts = DashboardPage.pending_tile;
}
