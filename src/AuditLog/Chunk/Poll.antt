-- ===== src/AuditLog/Chunk/Poll.antt =====
-- A reader that asks for chunk after chunk, each from the offset where the last one ended.
use remnaplus_alpine_node.AuditLog.Lines.Fit.{
  lines_fit-drop, last_index_byte-take-none, newline_within, lines_fit,
}
use remnaplus_alpine_node.Prelude.{
  ℕ, zero, suc, ◌+◌, ◌≤◌, ◌<◌, ◌^◌, List, [], ◌++◌, true, ◌||◌, Str, str_eq, ◌==◌, length, take,
  drop, length-take, length-drop, some, none, ◌≡◌, refl, sym, ap, ◌∙◌, arith, inl, inr,
  Option-cases,
}
use mathlib.Core.List.{append_assoc}
use remnaplus_alpine_node.AuditLog.Lines.{newline, last_index_byte}
use remnaplus_alpine_node.AuditLog.Lines.Scan.{
  scan, scan_unbroken, last_index_byte-bound, complete_length,
}
use remnaplus_alpine_node.AuditLog.Lines.Cut.{scan_cut, drop-drop}
use remnaplus_alpine_node.AuditLog.Files.{Checked, good, bad, Files, found, Service}
use remnaplus_alpine_node.AuditLog.Chunk.{ChunkRequest, Chunk, chunk_path, read_chunk}
use remnaplus_alpine_node.AuditLog.Chunk.Resume.{drop_all, follow, max_bytes, read_chunk_lem}

-- The lines before those of a run of requests.
abbrev prepend : List (ℕ × Str) → Checked (List (ℕ × Str) × ℕ) → Checked (List (ℕ × Str) × ℕ)
prepend lines (good (rest, o)) = good (lines ++ rest, o)
prepend lines (bad p) = bad p

abbrev then_poll : (ℕ → Checked (List (ℕ × Str) × ℕ)) → Checked Chunk → Checked (List (ℕ × Str) × ℕ)
then_poll next (good c) = prepend c.lines (next c.next_offset)
then_poll next (bad p) = bad p

-- The lines of `n` chunks from an offset on, and the offset they reach.
unfoldable pub poll : ℕ → Files → Service → ChunkRequest → ℕ → Checked (List (ℕ × Str) × ℕ)
poll zero files s r o = good ([], o)
poll (suc n) files s r o = then_poll (poll n files s r) (read_chunk files s (follow r o))

-- The lines of the text from an offset on.
abbrev pub lines_from : Str → ℕ → List (ℕ × Str)
lines_from text o = scan o [] (drop o text)

-- The lines of a run and those of the text from where it ended.
abbrev pub with_rest : Str → Checked (List (ℕ × Str) × ℕ) → Checked (List (ℕ × Str))
with_rest text (good (lines, o)) = good (lines ++ lines_from text o)
with_rest text (bad p) = bad p

abbrev pub lines_of : Checked (List (ℕ × Str) × ℕ) → Checked (List (ℕ × Str))
lines_of (good (lines, o)) = good lines
lines_of (bad p) = bad p

with_rest-prepend :
    (text : Str) (lines rest : List (ℕ × Str)) (run : Checked (List (ℕ × Str) × ℕ))
    → with_rest text run ≡ good rest
    → with_rest text (prepend lines run) ≡ good (lines ++ rest)
with_rest-prepend text lines rest (good (l, o)) h =
    let e : l ++ lines_from text o ≡ rest = cc in
    ap good (append_assoc lines l (lines_from text o) ∙ ap (λ t. lines ++ t) e)
with_rest-prepend text lines rest (bad p) h = cc

lines_of-prepend :
    (lines rest : List (ℕ × Str)) (run : Checked (List (ℕ × Str) × ℕ))
    → lines_of run ≡ good rest
    → lines_of (prepend lines run) ≡ good (lines ++ rest)
lines_of-prepend lines rest (good (l, o)) h = ground arith
lines_of-prepend lines rest (bad p) h = cc

-- How far a window reaches behind an offset.
advance : ℕ → Str → ℕ → ℕ
advance m text o = complete_length (last_index_byte newline (take m (drop o text)))

advance-bound : (m : ℕ) (text : Str) (o : ℕ) → o ≤ length text → o + advance m text o ≤ length text
unfolding advance
advance-bound m text o inside =
    elim (Option-cases (last_index_byte newline (take m (drop o text)))) [
      | inl nothing ↦ ground arith
      | inr (i, found_it) ↦ ground (
        arith,
        last_index_byte-bound (take m (drop o text)) i found_it,
        length-take m (drop o text),
        length-drop o text,
      )
    ]

lines_from-cut :
    (m : ℕ) (text : Str) (o : ℕ)
    → scan o [] (take m (drop o text)) ++ lines_from text (o + advance m text o) ≡ lines_from text o
unfolding advance
lines_from-cut m text o =
    let k = complete_length (last_index_byte newline (take m (drop o text))) in
    ap (λ rest. scan o [] (take m (drop o text)) ++ scan (o + k) [] rest) (sym (drop-drop k o text))
    ∙ scan_cut o m (drop o text)

advance-none :
    (m : ℕ) (text : Str) (o : ℕ)
    → last_index_byte newline (take m (drop o text)) ≡ none
    → o + advance m text o ≡ o
unfolding advance
advance-none m text o missed = rw missed (omega arith)

lines_from-end : (text : Str) (o : ℕ) → length text ≤ o → [] ≡ lines_from text o
unfolding scan
lines_from-end text o past = rw (drop_all o text past) refl

advance-positive :
    (m i : ℕ) (text : Str) (o : ℕ)
    → lines_fit m 0 (drop o text) ≡ true
    → last_index_byte newline (drop o text) ≡ some i
    → 1 ≤ advance m text o
unfolding advance
advance-positive m i text o fit found_it =
    elim (Option-cases (last_index_byte newline (take m (drop o text)))) [
      | inl missed ↦
          elim (newline_within m 0 i m (drop o text) fit found_it (omega arith) missed) [ ]
      | inr (j, taken) ↦ ground arith
    ]

lines_fit-advance :
    (m i : ℕ) (text : Str) (o : ℕ)
    → lines_fit m 0 (drop o text) ≡ true
    → last_index_byte newline (drop o text) ≡ some i
    → lines_fit m 0 (drop (o + advance m text o) text) ≡ true
unfolding advance
lines_fit-advance m i text o fit found_it =
    elim (Option-cases (last_index_byte newline (take m (drop o text)))) [
      | inl missed ↦
          elim (newline_within m 0 i m (drop o text) fit found_it (omega arith) missed) [ ]
      | inr (j, taken) ↦
          rw taken
            (rw (sym (drop-drop (suc j) o text)) (lines_fit-drop m 0 m j (drop o text) fit taken))
    ]

module _ (files : Files) (s : Service) (r : ChunkRequest) (path inode text : Str)
    (at : chunk_path files s r ≡ good path) (info : files.stat path ≡ found inode (length text))
    (content : files.text path ≡ some text)
    (expected : (r.expected_inode == [] || r.expected_inode == inode) ≡ true)
    (small : length text + max_bytes r < 2 ^ 63) where
  poll-suc :
      (n o : ℕ)
      → o ≤ length text
      → poll (suc n) files s r o
        ≡ prepend
            (scan o [] (take (max_bytes r) (drop o text)))
            (poll n files s r (o + advance (max_bytes r) text o))
  unfolding poll advance
  poll-suc n o inside =
      rw (read_chunk_lem files s r path inode text o at info content expected small inside) refl

  -- A log whose file does not change, read in any number of chunks, each from the offset where the
  -- last one ended: the lines of the chunks, followed by those from the last offset on, are exactly the
  -- lines from the first offset on, each with its offset. None is lost, cut, or read twice, and no
  -- chunk fails. The size and the bound on a chunk add up to less than 2^63.
  pub poll-with_rest :
      (n o : ℕ) → o ≤ length text → with_rest text (poll n files s r o) ≡ good (lines_from text o)
  unfolding poll
  poll-with_rest zero o inside = refl
  poll-with_rest (suc n) o inside =
      let next = o + advance (max_bytes r) text o in
      rw (poll-suc n o inside) (
        with_rest-prepend text (scan o [] (take (max_bytes r) (drop o text))) (lines_from text next)
          (poll n files s r next)
          (poll-with_rest n next (advance-bound (max_bytes r) text o inside))
        ∙ ap good (lines_from-cut (max_bytes r) text o))

  -- Where a window on the log has no newline, every later chunk is empty and the offset stays where it
  -- is, however often the reader asks: a line as long as the bound on a chunk is never passed.
  pub poll_stuck :
      (n o : ℕ)
      → o ≤ length text
      → last_index_byte newline (take (max_bytes r) (drop o text)) ≡ none
      → poll n files s r o ≡ good ([], o)
  unfolding poll
  poll_stuck zero o inside missed = refl
  poll_stuck (suc n) o inside missed = rw (poll-suc n o inside) (
      rw (scan_unbroken o [] (take (max_bytes r) (drop o text)) missed)
        (rw (advance-none (max_bytes r) text o missed) (rw (poll_stuck n o inside missed) refl)))

  -- Where no line, with its newline, is longer than the bound on a chunk, as many chunks as there are
  -- bytes left have all the lines from the offset on.
  pub poll_complete :
      (n o : ℕ)
      → lines_fit (max_bytes r) 0 (drop o text) ≡ true
      → length text ≤ o + n
      → o ≤ length text
      → lines_of (poll n files s r o) ≡ good (lines_from text o)
  unfolding poll
  poll_complete zero o fit enough inside = ap good (lines_from-end text o (omega arith))
  poll_complete (suc n) o fit enough inside =
      elim (Option-cases (last_index_byte newline (drop o text))) [
        | inl none_left ↦
            ap lines_of (
              poll_stuck (suc n) o inside
                (last_index_byte-take-none (max_bytes r) (drop o text) none_left))
            ∙ ap good (sym (scan_unbroken o [] (drop o text) none_left))
        | inr (i, found_it) ↦
            let next = o + advance (max_bytes r) text o in
            let moved : o + 1 ≤ next =
              omega (arith, advance-positive (max_bytes r) i text o fit found_it) in
            rw (poll-suc n o inside) (
              lines_of-prepend (scan o [] (take (max_bytes r) (drop o text))) (lines_from text next)
                (poll n files s r next)
                (poll_complete n next (lines_fit-advance (max_bytes r) i text o fit found_it)
                  (omega arith) (advance-bound (max_bytes r) text o inside))
              ∙ ap good (lines_from-cut (max_bytes r) text o))
      ]
