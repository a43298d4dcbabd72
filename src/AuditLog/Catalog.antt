-- ===== src/AuditLog/Catalog.antt =====
-- internal/auditlog/service.go: SourceMetadata and Catalog.
use remnaplus_alpine_node.Prelude.{
  ℕ, ◌-◌, Bool, not, List, [], ◌∷◌, ◌++◌, if◌then◌else◌, ltb, nat_beq, Str, str_eq, ◌==◌, lit, take,
  drop, Option, some, none,
}
use remnaplus_alpine_node.Prelude.Int.{ℤ}
use remnaplus_alpine_node.Prelude.Text.{split}
use remnaplus_alpine_node.AuditLog.Lines.{newline, trim_cr}
use remnaplus_alpine_node.AuditLog.Files.{
  file_problem, Checked, good, bad, ◌>>=◌, FileInfo, missing, broken, found, Files, Source, Service,
  path_for,
}
use remnaplus_alpine_node.AuditLog.Chunk.{parse_timestamp}

pub record SourceMetadata : Type 0 where
  pub earliest : Option ℤ
  pub inode : Str
  pub latest : Option ℤ
  pub source : Source
  pub total_size : ℕ

pub record Segment : Type 0 where
  pub id : Str
  pub inode : Str
  pub size : ℕ
  pub is_sealed : Bool
  pub source : Source

first_of : Files → List Str → Option ℤ
first_of files [] = none
first_of files (line ∷ lines) =
    let rest = first_of files lines in
    elim (parse_timestamp files (trim_cr line)) [ some t ↦ some t | none ↦ rest ]

unfoldable pub first_timestamp : Files → Str → Option ℤ
unfolding first_of
first_timestamp files text = first_of files (split text (newline ∷ []))

last_of : Files → Option ℤ → List Str → Option ℤ
last_of files result [] = result
last_of files result (line ∷ lines) =
    last_of files (elim (parse_timestamp files (trim_cr line)) [ some t ↦ some t | none ↦ result ])
      lines

unfoldable pub last_timestamp : Files → Str → Option ℤ
unfolding last_of
last_timestamp files text = last_of files none (split text (newline ∷ []))

abbrev pub metadata_window_bytes : ℕ
metadata_window_bytes = 1000000

-- readWindow
abbrev read_window : Option Str → ℕ → ℕ → Checked Str
read_window none offset size = bad file_problem
read_window (some text) offset size = good (take size (drop offset text))

unfoldable pub metadata_of : Files → Source → Str → FileInfo → Checked SourceMetadata
metadata_of files source path missing =
    good (record { earliest = none; inode = []; latest = none; source = source; total_size = 0 })
metadata_of files source path broken = bad file_problem
metadata_of files source path (found inode size) =
    let window = if ltb metadata_window_bytes size then metadata_window_bytes else size in
    if nat_beq window 0
    then good (record {
      earliest = none;
      inode = inode;
      latest = none;
      source = source;
      total_size = size;
    })
    else read_window (files.text path) 0 window >>= λ head.
        read_window (files.text path) (size - window) window >>= λ tail. good (record {
          earliest = first_timestamp files head;
          inode = inode;
          latest = last_timestamp files tail;
          source = source;
          total_size = size;
        })

unfoldable pub source_metadata : Files → Service → Source → Checked SourceMetadata
source_metadata files s source =
    path_for s source >>= λ path. metadata_of files source path (files.stat path)

-- The segments of the files that are there; `none` is an error of one of them.
unfoldable pub segments_of : Files → Source → Str → List Str → Checked (List Segment)
segments_of files source path [] = good []
segments_of files source path (candidate ∷ candidates) =
    let rest = segments_of files source path candidates in
    elim (files.stat candidate) [
      | missing ↦ rest
      | broken ↦ bad file_problem
      | found inode size ↦ rest >>= λ segments. good (
          record {
            id = files.base candidate;
            inode = inode;
            size = size;
            is_sealed = not (candidate == path);
            source = source;
          }
          ∷ segments)
    ]

abbrev globbed : Option (List Str) → Checked (List Str)
globbed none = bad file_problem
globbed (some paths) = good paths

unfoldable pub catalog : Files → Service → Source → Checked (List Segment)
catalog files s source = path_for s source >>= λ path.
    globbed (files.glob (path ++ lit ".segment-*.sealed")) >>= λ paths.
    segments_of files source path (paths ++ path ∷ [])
