-- ===== src/AuditLog/Lines/Scan.antt =====
-- The lines of a piece against a reference that reads it byte by byte.
use remnaplus_alpine_node.Prelude.{
  str_beq, ℕ, suc, ◌+◌, ◌<◌, List, [], ◌∷◌, ◌++◌, if◌then◌else◌, nat_beq, Str, str_eq, length,
  length-append, take, drop, take-append-drop, Option, some, none, ◌≡◌, refl, sym, ap, ◌∙◌, arith,
  inl, inr, Option-cases,
}
use remnaplus_alpine_node.Prelude.{length-take}
use remnaplus_alpine_node.Prelude.Text.{has_prefix, split, split_loop}
use remnaplus_alpine_node.AuditLog.Lines.{
  newline, trim_cr, kept, number_lines, later, last_index_byte, split_at, split_complete_lines,
}

-- The bytes one by one: `line` began at `start` and has not ended yet.
unfoldable pub scan : ℕ → Str → Str → List (ℕ × Str)
scan start line [] = []
scan start line (c ∷ s) =
    let ended = kept start line (scan (start + (length line + 1)) [] s) in
    let more = scan start (line ++ c ∷ []) s in if nat_beq c newline then ended else more

-- Where the last line that has not ended begins, and what there is of it.
unfoldable pub unended : ℕ → Str → Str → ℕ × Str
unended start line [] = (start, line)
unended start line (c ∷ s) =
    let ended = unended (start + (length line + 1)) [] s in
    let more = unended start (line ++ c ∷ []) s in if nat_beq c newline then ended else more

abbrev parts : Str → Str → List Str
parts line s = split_loop (newline ∷ []) 0 line s

number_lines-scan :
    (start : ℕ) (line s : Str)
    → number_lines start (parts line s)
      ≡ scan start line s ++ kept (unended start line s).0 (unended start line s).1 []
unfolding number_lines scan unended split_loop has_prefix
number_lines-scan start line [] = refl
number_lines-scan start line (c ∷ s) = ground (
  arith,
  number_lines-scan (start + (length line + 1)) [] s,
  number_lines-scan start (line ++ c ∷ []) s,
)

-- What the reference makes of two pieces.
pub scan-append :
    (start : ℕ) (line s t : Str)
    → scan start line (s ++ t)
      ≡ scan start line s ++ scan (unended start line s).0 (unended start line s).1 t
unfolding scan unended
scan-append start line [] t = refl
scan-append start line (c ∷ s) t =
    ground (
      arith,
      scan-append (start + (length line + 1)) [] s t,
      scan-append start (line ++ c ∷ []) s t,
    )

-- A piece with no newline ends no line.
pub scan_unbroken :
    (start : ℕ) (line s : Str) → last_index_byte newline s ≡ none → scan start line s ≡ []
unfolding scan last_index_byte later
scan_unbroken start line [] h = refl
scan_unbroken start line (c ∷ s) h = elim (Option-cases (last_index_byte newline s)) [
  | inl none_later ↦ ground (arith, scan_unbroken start (line ++ c ∷ []) s none_later)
  | inr (i, found) ↦ ground arith
]

-- A piece that ends at its last newline leaves no line unended.
pub unended_complete :
    (start : ℕ) (line s : Str) (i : ℕ)
    → last_index_byte newline s ≡ some i
    → unended start line (take (suc i) s) ≡ (start + (length line + (i + 1)), [])
unfolding unended last_index_byte later
unended_complete start line [] i h = cc
unended_complete start line (c ∷ s) i h = elim (Option-cases (last_index_byte newline s)) [
  | inl none_later ↦ ground arith
  | inr (j, found) ↦ ground (
    arith,
    unended_complete (start + (length line + 1)) [] s j found,
    unended_complete start (line ++ c ∷ []) s j found,
    length-append line (c ∷ []),
  )
]

pub unbroken_after :
    (s : Str) (i : ℕ)
    → last_index_byte newline s ≡ some i
    → last_index_byte newline (drop (suc i) s) ≡ none
unfolding last_index_byte later
unbroken_after [] i h = cc
unbroken_after (c ∷ s) i h = elim (Option-cases (last_index_byte newline s)) [
  | inl none_later ↦ ground arith
  | inr (j, found) ↦ ground (arith, unbroken_after s j found)
]

pub last_index_byte-bound : (s : Str) (i : ℕ) → last_index_byte newline s ≡ some i → i < length s
unfolding last_index_byte later
last_index_byte-bound [] i h = cc
last_index_byte-bound (c ∷ s) i h = elim (Option-cases (last_index_byte newline s)) [
  | inl none_later ↦ ground arith
  | inr (j, found) ↦ ground (arith, last_index_byte-bound s j found)
]

-- The end of the last line of a piece.
abbrev pub complete_length : Option ℕ → ℕ
complete_length none = 0
complete_length (some i) = suc i

kept_left : (o : ℕ × Str) (position : ℕ) → o ≡ (position, []) → kept o.0 o.1 [] ≡ []
unfolding trim_cr str_beq
kept_left o position h = rw h refl

pub scan_after :
    (o : ℕ × Str) (position : ℕ) (s : Str)
    → o ≡ (position, [])
    → last_index_byte newline s ≡ none
    → scan o.0 o.1 s ≡ []
scan_after o position s h unbroken = rw h (scan_unbroken position [] s unbroken)

number_lines_complete :
    (s : Str) (start i : ℕ)
    → last_index_byte newline s ≡ some i
    → number_lines start (parts [] (take (suc i) s)) ≡ scan start [] s
number_lines_complete s start i h =
    let ended = unended_complete start [] s i h in
    number_lines-scan start [] (take (suc i) s)
    ∙ ap (λ l. scan start [] (take (suc i) s) ++ l)
        (kept_left (unended start [] (take (suc i) s)) _ ended
          ∙ sym (
              scan_after (unended start [] (take (suc i) s)) _ (drop (suc i) s) ended
                (unbroken_after s i h)))
    ∙ sym (scan-append start [] (take (suc i) s) (drop (suc i) s))
    ∙ ap (scan start []) (take-append-drop (suc i) s)

split_at-scan :
    (s : Str) (start : ℕ) (last : Option ℕ)
    → last_index_byte newline s ≡ last
    → split_at s start last ≡ (scan start [] s, start + complete_length last)
unfolding split_at split
split_at-scan s start none h = ground (arith, scan_unbroken start [] s h)
split_at-scan s start (some i) h =
    ground
      (arith, number_lines_complete s start i h, length-take (suc i) s, last_index_byte-bound s i h)

-- The lines of a piece, with their offsets, are those that the reference finds, and the offset behind
-- them is that of the byte after the last newline.
pub split_complete_lines-scan :
    (s : Str) (start : ℕ)
    → split_complete_lines s start
      ≡ (scan start [] s, start + complete_length (last_index_byte newline s))
unfolding split_complete_lines
split_complete_lines-scan s start = split_at-scan s start (last_index_byte newline s) refl
