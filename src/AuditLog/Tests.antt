-- ===== src/AuditLog/Tests.antt =====
-- The modules of internal/auditlog at concrete inputs.
use remnaplus_alpine_node.Prelude.{
  ℕ, ◌≤◌, ◌*◌, ◌≡◌, refl, lit, [], ◌∷◌, ◌++◌, Str, str_eq, str_beq, none, some, true, false, ◌+◌,
  ◌||◌, ◌&&◌, arith,
}
use remnaplus_alpine_node.Prelude.Int.{ltb_ℤ, ◌+ℤ◌, pos}
use remnaplus_alpine_node.AuditLog.Cutoff.{
  day_nanoseconds, retention_cutoff, retention_cutoff-wraps,
}
use remnaplus_alpine_node.AuditLog.Requests.{decode_clean, invalid}
use remnaplus_alpine_node.Prelude.Text.{has_prefix, has_suffix, split, byte_at}
use remnaplus_alpine_node.AuditLog.Lines.{
  newline, last_index_byte, later, split_complete_lines, split_at, number_lines, trim_cr,
}
use remnaplus_alpine_node.AuditLog.Lines.Scan.{scan, complete_length, split_complete_lines-scan}
use remnaplus_alpine_node.AuditLog.Lines.Fit.{lines_fit}
use remnaplus_alpine_node.AuditLog.Files.{good, found, Files, Service, access_source, path_for}
use remnaplus_alpine_node.AuditLog.Chunk.{ChunkRequest, chunk_path}
use remnaplus_alpine_node.AuditLog.Chunk.Poll.{
  poll, lines_from, with_rest, lines_of, poll-with_rest, poll_stuck, poll_complete,
}
use remnaplus_alpine_node.AuditLog.Retention.{
  Directory, Answers, synced, rules_for, lines_in, clean_logs_at, clean_logs, clean_sealed_segments,
  clean_listed, report, clean_each, is_removable, is_old, trim_suffix, clean_found, take_segment,
  remove_segment, append_gap, append_line, append_to, gaps_of, read_gap_journal, read_lines,
  source_of, without,
}
use remnaplus_alpine_node.AuditLog.Retention.Safe.{listed, noted, is_terminated}
use remnaplus_alpine_node.AuditLog.Retention.Journaled.{has_removable, clean_logs_at-Journaled}

-- Two lines, and the beginning of a third.
abbrev log : Str
log = lit "ab" ++ newline ∷ lit "cde" ++ newline ∷ lit "f"

split_complete_lines-scan_example :
    split_complete_lines log 100
    ≡ (scan 100 [] log, 100 + complete_length (last_index_byte newline log))
split_complete_lines-scan_example = split_complete_lines-scan log 100

split_lines : split_complete_lines log 100 ≡ ((100, lit "ab") ∷ (103, lit "cde") ∷ [], 107)
unfolding split_complete_lines split_at last_index_byte later number_lines split str_beq trim_cr
split_lines = refl

abbrev files : Files
files = record {
  stat = λ path. found (lit "7") 8;
  is_regular = λ path. some true;
  text = λ path. some log;
  glob = λ path. some [];
  base = λ path. path;
  dir = λ path. [];
  join = λ a b. a ++ b;
  parse_time = λ layout text. some (pos 4);
}

abbrev service : Service
service = record { access_path = lit "access.log"; error_path = lit "error.log" }

abbrev request : ℕ → ChunkRequest
request max = record {
  end_offset = none;
  expected_inode = lit "7";
  from_timestamp = none;
  initial_tail_bytes = pos 0;
  max_read_bytes = pos max;
  offset = none;
  source = access_source;
  segment_id = [];
}

poll-with_rest_example :
    with_rest log (poll 1 files service (request 4) 0) ≡ good (lines_from log 0)
unfolding chunk_path path_for str_beq
poll-with_rest_example =
    poll-with_rest files service (request 4) (lit "access.log") (lit "7") log refl refl refl refl
      (omega arith) 1 0 (omega arith)

poll_stuck_example : poll 3 files service (request 2) 3 ≡ good ([], 3)
unfolding chunk_path path_for str_beq last_index_byte later
poll_stuck_example =
    poll_stuck files service (request 2) (lit "access.log") (lit "7") log refl refl refl refl
      (omega arith) 3 3 (omega arith) refl

poll_complete_example : lines_of (poll 8 files service (request 4) 0) ≡ good (lines_from log 0)
unfolding chunk_path path_for str_beq lines_fit
poll_complete_example =
    poll_complete files service (request 4) (lit "access.log") (lit "7") log refl refl refl refl
      (omega arith) 8 0 refl (omega arith) (omega arith)

abbrev old_segment : Str
old_segment = lit "access.log.segment-20240101-1.sealed"

abbrev directory : Directory
directory = record {
  entries =
      record { name = lit "access.log"; is_regular = true }
      ∷ record { name = old_segment; is_regular = true }
      ∷ [];
  journal = none;
}

abbrev answers : Answers
answers = record {
  read_dir = found [] 0;
  opens_journal = true;
  stat = λ name. found (lit "8") 20;
  append = λ name. synced;
  removes = λ name. true;
  syncs_directory = true;
  reads_journal = true;
  now = λ name. lit "2024-02-01T00:00:00Z";
}

clean_logs_at-Journaled_example :
    (let after = (clean_logs_at files answers service (pos 9) (λ name. true) directory).0 in
      let rules =
        rules_for files (pos 9) (λ name. true) (lit "access.log")
        ∷ rules_for files (pos 9) (λ name. true) (lit "error.log")
        ∷ [] in
      (listed old_segment after.entries
        || (noted old_segment (lines_in after.journal)
            && has_removable rules directory.entries old_segment))
      ≡ true)
unfolding is_terminated listed str_beq
clean_logs_at-Journaled_example =
    clean_logs_at-Journaled files answers service (pos 9) (λ name. true) directory old_segment refl
      refl

-- The run of the last example removes the segment.
removed :
    listed old_segment
      (clean_logs_at files answers service (pos 9) (λ name. true) directory).0.entries
    ≡ false
unfolding listed clean_logs_at clean_logs clean_sealed_segments clean_listed report clean_each
    is_removable has_prefix has_suffix str_beq is_old trim_suffix byte_at clean_found take_segment
    remove_segment append_gap append_line append_to gaps_of read_gap_journal read_lines source_of
    without
removed = refl

retention_cutoff-wraps_example :
    (106752 ≤ 106751 → retention_cutoff (pos 5) 106752 +ℤ pos (106752 * day_nanoseconds) ≡ pos 5)
    × (106752 ≤ 106752 → 106752 ≤ 213503 → ltb_ℤ (pos 5) (retention_cutoff (pos 5) 106752) ≡ true)
retention_cutoff-wraps_example = retention_cutoff-wraps (pos 5) 106752

-- The body of a request to clean.
no_days : decode_clean (some (pos 0, [])) ≡ invalid (lit "retentionDays must be a positive integer")
unfolding decode_clean
no_days = refl
