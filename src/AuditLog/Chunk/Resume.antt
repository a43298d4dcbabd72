-- ===== src/AuditLog/Chunk/Resume.antt =====
-- A reader that asks for chunk after chunk, each from the offset where the last one ended.
use remnaplus_alpine_node.Prelude.{
  Bool-cases, ℕ, zero, suc, ◌+◌, ◌-◌, ◌≤◌, ◌<◌, ◌^◌, [], Bool, true, false, not, ◌&&◌, ◌||◌, Str,
  str_eq, ◌==◌, length, take, drop, length-drop, some, none, ◌≡◌, refl, sym, ap, ◌∙◌, arith, inl,
  inr, ltb, leb,
}
use remnaplus_alpine_node.Prelude.Int.{negsuc, ℤ, pos}
use remnaplus_alpine_node.AuditLog.Lines.{newline, last_index_byte}
use remnaplus_alpine_node.AuditLog.Lines.Scan.{scan, complete_length, split_complete_lines-scan}
use remnaplus_alpine_node.AuditLog.Files.{good, Files, found, Service}
use remnaplus_alpine_node.AuditLog.Chunk.{
  ◌∷◌, ChunkRequest, Chunk, positive_or, default_max_read_bytes, default_initial_tail_bytes,
  start_of, snapshot_end, read_end, filtered, cut_window, read_between, read_from, read_file,
  read_info, chunk_path, read_chunk, empty_window,
}

-- A request for all that follows an offset.
abbrev pub follow : ChunkRequest → ℕ → ChunkRequest
follow r o = record {
  end_offset = none;
  expected_inode = r.expected_inode;
  from_timestamp = none;
  initial_tail_bytes = r.initial_tail_bytes;
  max_read_bytes = r.max_read_bytes;
  offset = some (pos o);
  source = r.source;
  segment_id = r.segment_id;
}

abbrev pub max_bytes : ChunkRequest → ℕ
max_bytes r = positive_or default_max_read_bytes r.max_read_bytes

-- The chunk of a window that begins at an offset.
abbrev pub window_chunk : ChunkRequest → Str → ℕ → ℕ → Str → Chunk
window_chunk r inode size o window = record {
  file_inode = some inode;
  lines = scan o [] window;
  next_offset = o + complete_length (last_index_byte newline window);
  read_start = o;
  source = r.source;
  total_size = size;
}

cut_window_lem :
    (files : Files) (r : ChunkRequest) (inode : Str) (size o : ℕ) (window : Str)
    → cut_window files (follow r o) inode size false o window ≡ window_chunk r inode size o window
unfolding cut_window filtered
cut_window_lem files r inode size o window = rw (split_complete_lines-scan window o) refl

start_of_lem : (o tail size : ℕ) → o ≤ size → start_of (some (pos o)) tail size ≡ (false, o)
unfolding start_of
start_of_lem o tail size inside = ground arith

take_most : (m n : ℕ) (s : Str) → length s ≤ m → length s ≤ n → take m s ≡ take n s
take_most zero zero s h k = refl
take_most zero (suc n) [] h k = refl
take_most (suc m) zero [] h k = refl
take_most (suc m) (suc n) [] h k = refl
take_most zero (suc n) (c ∷ s) h k = ground arith
take_most (suc m) zero (c ∷ s) h k = ground arith
take_most (suc m) (suc n) (c ∷ s) h k = ap (◌∷◌ c) (take_most m n s (omega arith) (omega arith))

pub positive_or-positive : (d : ℕ) (z : ℤ) → 1 ≤ d → 1 ≤ positive_or d z
positive_or-positive d (pos zero) h = h
positive_or-positive d (pos (suc n)) h = omega arith
positive_or-positive d (negsuc n) h = h

-- The bytes between the start and the end of the read.
take-read_end :
    (o m : ℕ) (text : Str)
    → o ≤ length text
    → length text + m < 2 ^ 63
    → take (read_end o m (length text) - o) (drop o text) ≡ take m (drop o text)
unfolding read_end
take-read_end o m text inside small = elim (Bool-cases (ltb (o + m) (length text))) [
  | inl less ↦
      let kept : read_end o m (length text) - o ≡ m = ground arith in
      ap (λ n. take n (drop o text)) kept
  | inr least ↦
      let last : read_end o m (length text) ≡ length text = ground arith in
      rw last (
        take_most (length text - o) m (drop o text) (omega (arith, length-drop o text))
          (ground (arith, length-drop o text)))
]

read_end-end :
    (o m size : ℕ) → 1 ≤ m → size + m < 2 ^ 63 → o ≤ size → leb (read_end o m size) o ≡ leb size o
unfolding read_end
read_end-end o m size positive small inside = ground arith

pub drop_all : (n : ℕ) (s : Str) → length s ≤ n → drop n s ≡ []
drop_all zero [] h = refl
drop_all (suc n) [] h = refl
drop_all zero (c ∷ s) h = ground arith
drop_all (suc n) (c ∷ s) h = drop_all n s (omega arith)

take_nil : (n : ℕ) → take {A = ℕ} n [] ≡ []
take_nil zero = refl
take_nil (suc n) = refl

-- The chunk at the end of the file.
window_chunk_nil :
    (r : ChunkRequest) (inode text : Str) (o : ℕ)
    → o ≡ length text
    → empty_window (follow r o) inode (length text) o ≡ window_chunk r inode (length text) o []
unfolding scan last_index_byte
window_chunk_nil r inode text o h =
    ap
      (λ n. record {
        file_inode = some inode;
        lines = [];
        next_offset = n;
        read_start = o;
        source = r.source;
        total_size = length text;
      })
      (end_of_file h)
  where
    end_of_file : o ≡ length text → length text ≡ o + 0
    end_of_file e = omega arith

read_between-none :
    (files : Files) (r : ChunkRequest) (path inode text : Str) (o stop : ℕ)
    → leb stop o ≡ true
    → leb (length text) o ≡ true
    → o ≤ length text
    → read_between files (follow r o) path inode (length text) false o stop
      ≡ good (window_chunk r inode (length text) o (take (max_bytes r) (drop o text)))
unfolding read_between
read_between-none files r path inode text o stop h last inside =
    let ended : take (max_bytes r) (drop o text) ≡ [] =
      rw (drop_all o text (ground arith)) (take_nil (max_bytes r)) in
    rw h (rw ended (ap good (window_chunk_nil r inode text o (ground arith))))

read_between-some :
    (files : Files) (r : ChunkRequest) (path inode text : Str) (o stop : ℕ)
    → files.text path ≡ some text
    → leb stop o ≡ false
    → take (stop - o) (drop o text) ≡ take (max_bytes r) (drop o text)
    → read_between files (follow r o) path inode (length text) false o stop
      ≡ good (window_chunk r inode (length text) o (take (max_bytes r) (drop o text)))
unfolding read_between
read_between-some files r path inode text o stop content h same = rw h (
    rw content (
      rw same (
        ap good (cut_window_lem files r inode (length text) o (take (max_bytes r) (drop o text))))))

read_file_lem :
    (files : Files) (r : ChunkRequest) (path inode text : Str) (o : ℕ)
    → files.text path ≡ some text
    → o ≤ length text
    → length text + max_bytes r < 2 ^ 63
    → read_file files (follow r o) path inode (length text)
      ≡ good (window_chunk r inode (length text) o (take (max_bytes r) (drop o text)))
unfolding read_file read_from snapshot_end
read_file_lem files r path inode text o content inside small =
    rw
      (start_of_lem o (positive_or default_initial_tail_bytes r.initial_tail_bytes) (length text)
        inside)
      (elim (Bool-cases (leb (read_end o (max_bytes r) (length text)) o)) [
        | inl ended ↦
            read_between-none files r path inode text o (read_end o (max_bytes r) (length text))
              ended
              (sym (
                  read_end-end o (max_bytes r) (length text)
                    (positive_or-positive default_max_read_bytes r.max_read_bytes (omega arith))
                    small inside)
                ∙ ended)
              inside
        | inr more ↦
            read_between-some files r path inode text o (read_end o (max_bytes r) (length text))
              content more (take-read_end o (max_bytes r) text inside small)
      ])

chunk_path-follow :
    (files : Files) (s : Service) (r : ChunkRequest) (o : ℕ)
    → chunk_path files s (follow r o) ≡ chunk_path files s r
unfolding chunk_path
chunk_path-follow files s r o = refl

accepted : (a b : Bool) → (a || b) ≡ true → (not a && not b) ≡ false
accepted true b h = refl
accepted false true h = refl
accepted false false h = cc

read_info_lem :
    (files : Files) (r : ChunkRequest) (path inode : Str) (size o : ℕ)
    → (r.expected_inode == [] || r.expected_inode == inode) ≡ true
    → read_info files (follow r o) path (found inode size)
      ≡ read_file files (follow r o) path inode size
unfolding read_info
read_info_lem files r path inode size o expected =
    rw (accepted (r.expected_inode == []) (r.expected_inode == inode) expected) refl

pub read_chunk_lem :
    (files : Files) (s : Service) (r : ChunkRequest) (path inode text : Str) (o : ℕ)
    → chunk_path files s r ≡ good path
    → files.stat path ≡ found inode (length text)
    → files.text path ≡ some text
    → (r.expected_inode == [] || r.expected_inode == inode) ≡ true
    → length text + max_bytes r < 2 ^ 63
    → o ≤ length text
    → read_chunk files s (follow r o)
      ≡ good (window_chunk r inode (length text) o (take (max_bytes r) (drop o text)))
unfolding read_chunk
read_chunk_lem files s r path inode text o at info content expected small inside =
    rw (chunk_path-follow files s r o) (
      rw at (
        rw info (
          read_info_lem files r path inode (length text) o expected
          ∙ read_file_lem files r path inode text o content inside small)))
