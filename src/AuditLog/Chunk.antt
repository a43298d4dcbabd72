-- ===== src/AuditLog/Chunk.antt =====
-- internal/auditlog/service.go: ReadChunk. The fields that end in `Text`, the decimal texts of others,
-- are left out.
pub mod Resume
pub mod Poll
use remnaplus_alpine_node.Prelude.{
  ℕ, suc, ◌+◌, ◌-◌, ◌^◌, Bool, true, false, not, ◌&&◌, ◌||◌, List, [], ◌∷◌, if◌then◌else◌, ltb, leb,
  Str, str_eq, ◌==◌, lit, length, take, drop, Option, some, none,
}
use remnaplus_alpine_node.Prelude.Int.{ℤ, pos, negsuc, ltb_ℤ}
use remnaplus_alpine_node.AuditLog.Lines.{split_complete_lines, drop_partial_first_line}
use remnaplus_alpine_node.AuditLog.Files.{
  Problem, file_problem, inode_changed, Checked, good, bad, ◌>>=◌, FileInfo, missing, broken, found,
  Files, Source, Service, path_for, path_for_segment,
}

pub record ChunkRequest : Type 0 where
  pub end_offset : Option ℤ
  pub expected_inode : Str
  pub from_timestamp : Option ℤ
  pub initial_tail_bytes : ℤ
  pub max_read_bytes : ℤ
  pub offset : Option ℤ
  pub source : Source
  pub segment_id : Str

pub record Chunk : Type 0 where
  pub file_inode : Option Str
  -- the lines, with their offsets
  pub lines : List (ℕ × Str)
  pub next_offset : ℕ
  pub read_start : ℕ
  pub source : Source
  pub total_size : ℕ

abbrev pub default_initial_tail_bytes : ℕ
default_initial_tail_bytes = 1000000

abbrev pub default_max_read_bytes : ℕ
default_max_read_bytes = 5000000

abbrev pub positive_or : ℕ → ℤ → ℕ
positive_or default (pos (suc n)) = suc n
positive_or default _ = default

-- A negative number counts as 0.
abbrev pub clamped : ℤ → ℕ
clamped (pos n) = n
clamped (negsuc n) = 0

-- Whether the request starts at the tail, and where it starts.
unfoldable pub start_of : Option ℤ → ℕ → ℕ → Bool × ℕ
start_of none tail size = (true, size - tail)
start_of (some offset) tail size =
    if ltb_ℤ (pos size) offset then (true, size - tail) else (false, clamped offset)

unfoldable pub snapshot_end : Option ℤ → ℕ → ℕ
snapshot_end none size = size
snapshot_end (some e) size = if ltb_ℤ e (pos size) then clamped e else size

-- The smaller of the end and of `readStart + maxReadBytes`. That sum is an int64: where it wraps around
-- it is negative, and the end lies before the start as it does at 0.
unfoldable pub read_end : ℕ → ℕ → ℕ → ℕ
read_end start max last =
    let candidate = start + max in
    if ltb candidate (2 ^ 63) then (if ltb candidate last then candidate else last) else 0

-- The layouts of parseTimestamp, each with the length of the text it is tried on.
abbrev first_time : Files → Str → List (Str × ℕ) → Option ℤ
first_time files line [] = none
first_time files line ((layout, size) ∷ layouts) =
    let rest = first_time files line layouts in
    if leb size (length line)
    then elim (files.parse_time layout (take size line)) [ some t ↦ some t | none ↦ rest ]
    else rest

unfoldable pub parse_timestamp : Files → Str → Option ℤ
parse_timestamp files line = first_time files line (
    (lit "2006/01/02 15:04:05", 19)
    ∷ (lit "2006-01-02T15:04:05.000Z", 24)
    ∷ (lit "2006-01-02T15:04:05Z07:00", 25)
    ∷ [])

abbrev not_before : Option ℤ → ℤ → Bool
not_before none from = true
not_before (some t) from = not (ltb_ℤ t from)

unfoldable pub from_time : Files → ℤ → List (ℕ × Str) → List (ℕ × Str)
from_time files from [] = []
from_time files from ((offset, line) ∷ lines) =
    let rest = from_time files from lines in
    if not_before (parse_timestamp files line) from then (offset, line) ∷ rest else rest

unfoldable pub filtered : Files → Option ℤ → List (ℕ × Str) → List (ℕ × Str)
filtered files none lines = lines
filtered files (some from) lines = from_time files from lines

-- What was read from `start` on, cut into lines.
unfoldable pub cut_window : Files → ChunkRequest → Str → ℕ → Bool → ℕ → Str → Chunk
cut_window files request inode last is_tail start window =
    let (text, begin) =
      if is_tail && ltb 0 start then drop_partial_first_line window start else (window, start) in
    let (lines, next) = split_complete_lines text begin in
    record {
      file_inode = some inode;
      lines = filtered files request.from_timestamp lines;
      next_offset = next;
      read_start = begin;
      source = request.source;
      total_size = last;
    }

abbrev pub empty_window : ChunkRequest → Str → ℕ → ℕ → Chunk
empty_window request inode last start = record {
  file_inode = some inode;
  lines = [];
  next_offset = last;
  read_start = start;
  source = request.source;
  total_size = last;
}

abbrev pub read_bytes : Option Str → ℕ → ℕ → Checked Str
read_bytes none start stop = bad file_problem
read_bytes (some text) start stop = good (take (stop - start) (drop start text))

-- What is read between `start` and `stop`.
unfoldable pub read_between : Files → ChunkRequest → Str → Str → ℕ → Bool → ℕ → ℕ → Checked Chunk
read_between files request path inode last is_tail start stop =
    if leb stop start
    then good (empty_window request inode last start)
    else read_bytes (files.text path) start stop >>= λ window.
        good (cut_window files request inode last is_tail start window)

unfoldable pub read_from : Files → ChunkRequest → Str → Str → ℕ → Bool × ℕ → Checked Chunk
read_from files request path inode last (is_tail, start) =
    read_between files request path inode last is_tail start
      (read_end start (positive_or default_max_read_bytes request.max_read_bytes) last)

unfoldable pub read_file : Files → ChunkRequest → Str → Str → ℕ → Checked Chunk
read_file files request path inode size =
    read_from files request path inode (snapshot_end request.end_offset size) (
      start_of request.offset (positive_or default_initial_tail_bytes request.initial_tail_bytes)
        size)

unfoldable pub read_info : Files → ChunkRequest → Str → FileInfo → Checked Chunk
read_info files request path missing = good (record {
  file_inode = none;
  lines = [];
  next_offset = 0;
  read_start = 0;
  source = request.source;
  total_size = 0;
})
read_info files request path broken = bad file_problem
read_info files request path (found inode size) =
    if not (request.expected_inode == []) && not (request.expected_inode == inode)
    then bad inode_changed
    else read_file files request path inode size

unfoldable pub chunk_path : Files → Service → ChunkRequest → Checked Str
chunk_path files s request = path_for s request.source >>= λ path.
    if not (request.segment_id == [])
    then path_for_segment files s request.source request.segment_id
    else good path

unfoldable pub read_chunk : Files → Service → ChunkRequest → Checked Chunk
read_chunk files s request =
    chunk_path files s request >>= λ path. read_info files request path (files.stat path)
