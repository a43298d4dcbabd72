-- ===== src/AuditLog/Retention.antt =====
-- internal/auditlog/service.go: CleanLogsAt, its removal of old sealed segments and the journal of gaps.
-- Both logs lie in one directory, as NewServiceForLogDir has it.
pub mod Safe
pub mod Journaled
use remnaplus_alpine_node.Prelude.{
  ℕ, ◌+◌, Bool, true, false, not, ◌&&◌, ◌||◌, List, [], ◌∷◌, ◌++◌, if◌then◌else◌, ltb, nat_beq, Str,
  str_eq, ◌==◌, lit, length, take, drop, Option, some, none,
}
use remnaplus_alpine_node.Prelude.Int.{ℤ, ltb_ℤ}
use remnaplus_alpine_node.Prelude.Text.{has_prefix, has_suffix, byte_at}
use remnaplus_alpine_node.AuditLog.Files.{
  file_problem, Checked, good, bad, ◌>>=◌, FileInfo, missing, broken, found, Files, Source,
  access_source, error_source, other_source, Service,
}

pub record Gap : Type 0 where
  pub source : Source
  pub segment_id : Str
  pub start_offset : ℕ
  pub end_offset : ℕ
  pub occurred_at : Str
  pub reason : Str

-- A line of the journal: a gap, one that is not JSON, or what a write that was cut short left, with no newline.
pub data JournalLine : Type 0 where
  whole : Gap → JournalLine
  invalid partial : JournalLine

pub record Entry : Type 0 where
  pub name : Str
  pub is_regular : Bool

-- The directory of the logs. The journal is `none` where there is no file.
pub record Directory : Type 0 where
  pub entries : List Entry
  pub journal : Option (List JournalLine)

-- The fields kept_lines and removed_lines, which stay 0, are left out.
pub record CleanResult : Type 0 where
  pub files : ℕ
  pub reclaimed_bytes : ℕ
  pub gaps : List Gap

abbrev pub empty_result : CleanResult
empty_result = record { files = 0; reclaimed_bytes = 0; gaps = [] }

-- How an append to the journal ends: written and synced, written but not synced, cut short, or not begun.
pub data Append : Type 0 where
  synced unsynced cut_short refused : Append

-- What the calls to the file system answer.
pub record Answers : Type 0 where
  pub read_dir : FileInfo
  pub opens_journal : Bool
  pub stat : Str → FileInfo
  pub append : Str → Append
  pub removes : Str → Bool
  pub syncs_directory : Bool
  pub reads_journal : Bool
  -- `time.Now()` as RFC 3339, where a segment's gap is noted
  pub now : Str → Str

-- What decides whether a segment goes.
pub record Rules : Type 0 where
  pub active_base : Str
  pub cutoff : ℤ
  pub allowed : Str → Bool
  pub parse_time : Str → Str → Option ℤ

abbrev pub day_length : ℕ
day_length = 8

abbrev pub minus_sign : ℕ
minus_sign = 45

abbrev day_before : Option ℤ → ℤ → Bool
day_before none cutoff = false
day_before (some day) cutoff = ltb_ℤ day cutoff

-- The name between the prefix and `.sealed` begins with a day before the cutoff and a `-`.
unfoldable pub is_old : Rules → Str → Bool
is_old rules name =
    not (ltb (length name) 9)
    && nat_beq (byte_at 8 name) minus_sign
    && day_before (rules.parse_time (lit "20060102") (take day_length name)) rules.cutoff

abbrev pub prefix_of : Rules → Str
prefix_of rules = rules.active_base ++ lit ".segment-"

-- strings.TrimSuffix
unfoldable pub trim_suffix : Str → Str → Str
trim_suffix suffix [] = []
trim_suffix suffix (c ∷ s) =
    let rest = trim_suffix suffix s in if (c ∷ s) == suffix then [] else c ∷ rest

unfoldable pub is_removable : Rules → Entry → Bool
is_removable rules e =
    (e.is_regular && has_prefix e.name (prefix_of rules) && has_suffix e.name (lit ".sealed"))
    && rules.allowed e.name
    && is_old rules (trim_suffix (lit ".sealed") (drop (length (prefix_of rules)) e.name))

unfoldable pub source_of : Str → Source
source_of active_base = if active_base == lit "access.log" then access_source else error_source

abbrev pub gap_of : Answers → Rules → Str → ℕ → Gap
gap_of answers rules name size = record {
  source = source_of rules.active_base;
  segment_id = name;
  start_offset = 0;
  end_offset = size;
  occurred_at = answers.now name;
  reason = lit "retention";
}

abbrev pub lines_in : Option (List JournalLine) → List JournalLine
lines_in none = []
lines_in (some lines) = lines

-- A line that is appended to one cut short goes on with it.
unfoldable pub append_line : JournalLine → List JournalLine → List JournalLine
append_line line [] = line ∷ []
append_line partial (partial ∷ []) = partial ∷ []
append_line line (partial ∷ []) = invalid ∷ []
append_line line (old ∷ lines) = old ∷ append_line line lines

unfoldable pub without : Str → List Entry → List Entry
without name [] = []
without name (e ∷ entries) =
    let rest = without name entries in if e.name == name then rest else e ∷ rest

abbrev pub add_line : JournalLine → Directory → Directory
add_line line d = record d { journal = some (append_line line (lines_in d.journal)) }

-- appendGap, from the directory to the directory and whether it succeeded.
unfoldable pub append_to : Append → Gap → Directory → Directory × Bool
append_to synced gap d = (add_line (whole gap) d, true)
append_to unsynced gap d = (add_line (whole gap) d, false)
append_to cut_short gap d = (add_line partial d, false)
append_to refused gap d = (record d { journal = some (lines_in d.journal) }, false)

abbrev pub append_opened : Bool → Append → Gap → Directory → Directory × Bool
append_opened true answer gap d = append_to answer gap d
append_opened false answer gap d = (d, false)

unfoldable pub append_gap : Answers → Gap → Directory → Directory × Bool
append_gap answers gap d = append_opened answers.opens_journal (answers.append gap.segment_id) gap d

-- os.Remove, where the gap was noted.
unfoldable pub remove_segment : Bool → Bool → Str → Directory → Directory × Bool
remove_segment true true name d = (record d { entries = without name d.entries }, true)
remove_segment true false name d = (d, false)
remove_segment false removes name d = (d, false)

abbrev pub count_removed : CleanResult → ℕ → Gap → CleanResult
count_removed r size gap = record {
  files = r.files + 1;
  reclaimed_bytes = r.reclaimed_bytes + size;
  gaps = r.gaps ++ gap ∷ [];
}

-- A segment that is to go: its gap is noted, then it is removed. On `good` it is gone.
unfoldable pub take_segment : Answers → Str → ℕ → Gap → Directory → Directory × Bool
take_segment answers name size gap d =
    let (noted, is_noted) = append_gap answers gap d in
    remove_segment is_noted (answers.removes name) name noted

abbrev pub Cleaned : Type 0
Cleaned = Directory × Checked CleanResult

abbrev pub go_on : (Directory → CleanResult → Cleaned) → CleanResult → Directory × Bool → Cleaned
go_on next r (d, true) = next d r
go_on next r (d, false) = (d, bad file_problem)

unfoldable pub clean_found :
    Answers
    → Rules
    → Str
    → FileInfo
    → (Directory → CleanResult → Cleaned)
    → Directory
    → CleanResult
    → Cleaned
clean_found answers rules name missing next d r = next d r
clean_found answers rules name broken next d r = (d, bad file_problem)
clean_found answers rules name (found inode size) next d r =
    let gap = gap_of answers rules name size in
    go_on next (count_removed r size gap) (take_segment answers name size gap d)

-- The loop over the entries that were listed.
unfoldable pub clean_each : Answers → Rules → List Entry → Directory → CleanResult → Cleaned
clean_each answers rules [] d r = (d, good r)
clean_each answers rules (e ∷ entries) d r =
    let next = clean_each answers rules entries in
    if is_removable rules e
    then clean_found answers rules e.name (answers.stat e.name) next d r
    else next d r

-- readGapJournal: a line that is not JSON is an error.
unfoldable pub read_lines : List JournalLine → Checked (List Gap)
read_lines [] = good []
read_lines (whole gap ∷ lines) = read_lines lines >>= λ gaps. good (gap ∷ gaps)
read_lines (_ ∷ lines) = bad file_problem

unfoldable pub read_gap_journal : Answers → Directory → Checked (List Gap)
read_gap_journal answers d = read_journal answers.reads_journal d.journal
  where
    read_journal : Bool → Option (List JournalLine) → Checked (List Gap)
    read_journal reads none = good []
    read_journal true (some lines) = read_lines lines
    read_journal false (some lines) = bad file_problem

abbrev same_source : Source → Source → Bool
same_source access_source access_source = true
same_source error_source error_source = true
same_source (other_source a) (other_source b) = a == b
same_source _ _ = false

unfoldable pub gaps_of : Source → List Gap → List Gap
gaps_of source [] = []
gaps_of source (gap ∷ gaps) =
    let rest = gaps_of source gaps in if same_source gap.source source then gap ∷ rest else rest

-- The gaps of the result are read back from the journal.
unfoldable pub report : Answers → Rules → Cleaned → Cleaned
report answers rules (d, bad p) = (d, bad p)
report answers rules (d, good r) =
    if ltb 0 r.files && not answers.syncs_directory then (d, bad file_problem) else (
      d,
      read_gap_journal answers d >>= λ gaps.
          good (record r { gaps = gaps_of (source_of rules.active_base) gaps }),
    )

unfoldable pub clean_listed : Answers → Rules → FileInfo → Directory → Cleaned
clean_listed answers rules missing d = (d, good empty_result)
clean_listed answers rules broken d = (d, bad file_problem)
clean_listed answers rules (found inode size) d =
    report answers rules (clean_each answers rules d.entries d empty_result)

unfoldable pub clean_sealed_segments : Answers → Rules → Directory → Cleaned
clean_sealed_segments answers rules d = clean_listed answers rules answers.read_dir d

abbrev add_results : CleanResult → CleanResult → CleanResult
add_results a b = record {
  files = a.files + b.files;
  reclaimed_bytes = a.reclaimed_bytes + b.reclaimed_bytes;
  gaps = a.gaps ++ b.gaps;
}

abbrev pub clean_next : (Directory → CleanResult → Cleaned) → CleanResult → Cleaned → Cleaned
clean_next next r (d, bad p) = (d, bad p)
clean_next next r (d, good item) = next d (add_results r item)

-- The loop of CleanLogsAt over the two logs.
unfoldable pub clean_logs : Answers → List Rules → Directory → CleanResult → Cleaned
clean_logs answers [] d r = (d, good r)
clean_logs answers (rules ∷ others) d r =
    clean_next (clean_logs answers others) r (clean_sealed_segments answers rules d)

abbrev pub rules_for : Files → ℤ → (Str → Bool) → Str → Rules
rules_for files cutoff allowed path = record {
  active_base = files.base path;
  cutoff = cutoff;
  allowed = allowed;
  parse_time = files.parse_time;
}

unfoldable pub clean_logs_at : Files → Answers → Service → ℤ → (Str → Bool) → Directory → Cleaned
clean_logs_at files answers s cutoff allowed d =
    clean_logs answers
      (rules_for files cutoff allowed s.access_path
        ∷ rules_for files cutoff allowed s.error_path
        ∷ [])
      d empty_result
