-- ===== src/Fail2ban/Log.antt =====
-- The log of the fail2ban page: how a line is split, compared and filtered.
pub mod Lines
pub mod Filter
use Prim.Native.Nat.{compare}
use mailserver_ui.Common.{
  ℕ, String, Bool, true, false, Option, none, some, List, map, Ordering, if◌then◌else◌, or_else, ℤ,
  pos, negsuc, compare_ℤ, is_empty, is_space, trim, includes, filter, str_eq, is_inherited,
}
use mailserver_ui.TableSort.{TableSort, apply}
use mailserver_ui.Fail2ban.Scan.{
  Scan, ◌>>=◌, ◌>>◌, is_digit, is_solid, run_of, shape, literal, line_rest,
}

-- The groups of `LOG_LINE`.
pub record LogFields : Type 0 where
  pub timestamp : String
  pub logger : String
  pub pid : String
  pub level : String
  pub message : String

-- \d{4}-\d{2}-\d{2} \d{2}:\d{2}:\d{2},\d{3}
abbrev pub timestamp_shape : String
timestamp_shape = "0000-00-00 00:00:00,000"

-- `LOG_LINE.exec(raw)`. The kinds of characters on both sides of each gap differ, so the expression
-- never backtracks to another match.
unfoldable pub split_line : Scan LogFields
split_line = do
  timestamp ← shape timestamp_shape
  _ ← run_of is_space
  logger ← run_of is_solid
  _ ← run_of is_space
  literal "["
  pid ← run_of is_digit
  literal "]:"
  _ ← run_of is_space
  level ← run_of is_solid
  _ ← run_of is_space
  message ← line_rest
  λ rest. some (
    record { timestamp = timestamp; logger = logger; pid = pid; level = level; message = message },
    rest,
  )

-- `date` is the time of the entry in milliseconds, or none.
pub record Fail2banLogEntry : Type 0 where
  pub date : Option ℤ
  pub timestamp : String
  pub logger : String
  pub pid : String
  pub level : String
  pub message : String
  pub raw : String

-- `s.startsWith(front) ? s.slice(front.length) : s`
unfoldable pub without_prefix : String → String → String
unfolding literal
without_prefix front s = elim (literal front s) [ none ↦ s | some (_, rest) ↦ rest ]

abbrev pub unparsed : String → Fail2banLogEntry
unparsed raw = record {
  date = none;
  timestamp = "";
  logger = "";
  pid = "";
  level = "";
  message = raw;
  raw = raw;
}

-- `LEVEL_RANK[level] ?? -1` as a number: a name that the table inherits finds no number, and none is
-- NaN.
unfoldable pub level_rank : String → Option ℤ
level_rank level =
    if str_eq level "DEBUG"
    then some (pos 0)
    else if str_eq level "INFO"
    then some (pos 1)
    else if str_eq level "NOTICE"
    then some (pos 2)
    else if str_eq level "WARNING"
    then some (pos 3)
    else if str_eq level "ERROR"
    then some (pos 4)
    else if str_eq level "CRITICAL"
    then some (pos 5)
    else if is_inherited level
    then none
    else some (negsuc 0)

-- The sign of a difference, where `sort` reads NaN as 0.
abbrev pub compare_ranks : Option ℤ → Option ℤ → Ordering
compare_ranks (some m) (some n) = compare_ℤ m n
compare_ranks m n = Ordering.eq

pub data LogColumn : Type 0 where
  date logger pid level : LogColumn

-- `time` reads a timestamp as a local time, `number` is `Number`, `locale` is `localeCompare` and
-- `lower` is `toLowerCase`.
module _ (time : String → Option ℤ) (number : String → ℕ) (locale : String → String → Ordering)
    (lower : String → String) where
  unfoldable pub parse_log_line : String → Fail2banLogEntry
  unfolding split_line without_prefix
  parse_log_line raw = elim (split_line raw) [
    | none ↦ unparsed raw
    | some (f, _) ↦ record {
      date = time f.timestamp;
      timestamp = f.timestamp;
      logger = without_prefix "fail2ban." f.logger;
      pid = f.pid;
      level = f.level;
      message = f.message;
      raw = raw;
    }
  ]

  abbrev pub pid_number : String → ℕ
  pid_number text = if is_empty text then 0 else number text

  unfoldable pub compare_on : LogColumn → Fail2banLogEntry → Fail2banLogEntry → Ordering
  unfolding level_rank
  compare_on date a b = compare_ℤ (or_else a.date (pos 0)) (or_else b.date (pos 0))
  compare_on pid a b = compare (pid_number a.pid) (pid_number b.pid)
  compare_on level a b = compare_ranks (level_rank a.level) (level_rank b.level)
  compare_on logger a b = locale a.logger b.logger

  unfoldable pub filter_log : String → List Fail2banLogEntry → List Fail2banLogEntry
  filter_log query entries =
      let needle = lower (trim query) in
      if is_empty needle
      then entries
      else filter (λ entry. includes (lower entry.raw) needle) entries

  -- The rows that the table shows.
  unfoldable pub visible_log : List String → String → TableSort LogColumn → List Fail2banLogEntry
  unfolding parse_log_line compare_on filter_log
  visible_log lines query sort = apply sort (filter_log query (map parse_log_line lines)) compare_on
