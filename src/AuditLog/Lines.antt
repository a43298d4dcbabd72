-- ===== src/AuditLog/Lines.antt =====
-- internal/auditlog/service.go: the lines of a piece of a log, with the offset of each. The two slices
-- of lines and of offsets, which run in parallel, are one list of pairs.
pub mod Scan
pub mod Cut
pub mod Fit
use remnaplus_alpine_node.Prelude.{
  ℕ, suc, ◌+◌, List, [], ◌∷◌, if◌then◌else◌, Bool, true, false, nat_beq, Str, str_eq, ◌==◌, length,
  take, drop, Option, some, none, lit,
}
use remnaplus_alpine_node.Prelude.Text.{split, has_prefix}

abbrev pub newline : ℕ
newline = 10

abbrev pub carriage_return : ℕ
carriage_return = 13

-- `strings.TrimSuffix(raw, "\r")`
unfoldable pub trim_cr : Str → Str
trim_cr [] = []
trim_cr (c ∷ []) = if nat_beq c carriage_return then [] else c ∷ []
trim_cr (c ∷ d ∷ s) = c ∷ trim_cr (d ∷ s)

-- A line that is not empty, at its offset.
abbrev pub kept : ℕ → Str → List (ℕ × Str) → List (ℕ × Str)
kept position raw rest = if trim_cr raw == [] then rest else (position, trim_cr raw) ∷ rest

-- The loop over the parts.
unfoldable pub number_lines : ℕ → List Str → List (ℕ × Str)
number_lines position [] = []
number_lines position (raw ∷ parts) =
    kept position raw (number_lines (position + (length raw + 1)) parts)

unfoldable pub later : Option ℕ → Bool → Option ℕ
later (some i) here = some (suc i)
later none true = some 0
later none false = none

-- strings.LastIndexByte
unfoldable pub last_index_byte : ℕ → Str → Option ℕ
last_index_byte b [] = none
last_index_byte b (c ∷ s) = later (last_index_byte b s) (nat_beq c b)

-- strings.IndexByte
unfoldable pub index_byte : ℕ → Str → Option ℕ
index_byte b [] = none
index_byte b (c ∷ s) = let rest = index_byte b s in if nat_beq c b then some 0 else later rest false

-- The lines up to the last newline, from where it was found, and the offset behind it.
unfoldable pub split_at : Str → ℕ → Option ℕ → List (ℕ × Str) × ℕ
split_at text read_start none = ([], read_start)
split_at text read_start (some last) =
    let complete = take (suc last) text in
    (number_lines read_start (split complete (newline ∷ [])), read_start + length complete)

unfoldable pub split_complete_lines : Str → ℕ → List (ℕ × Str) × ℕ
split_complete_lines text read_start = split_at text read_start (last_index_byte newline text)

abbrev drop_to : Str → ℕ → Option ℕ → Str × ℕ
drop_to text read_start none = ([], read_start)
drop_to text read_start (some index) = (drop (suc index) text, read_start + suc index)

unfoldable pub drop_partial_first_line : Str → ℕ → Str × ℕ
drop_partial_first_line text read_start =
    if has_prefix text (newline ∷ [])
    then (text, read_start)
    else if has_prefix text (carriage_return ∷ newline ∷ [])
    then (text, read_start)
    else drop_to text read_start (index_byte newline text)
