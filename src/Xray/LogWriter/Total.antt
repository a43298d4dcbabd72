-- ===== src/Xray/LogWriter/Total.antt =====
-- The log writer where no system call fails: the search for a free segment name and the loop of Write
-- end within their fuel.
use remnaplus_alpine_node.Xray.LogWriter.{close_file, sync_file, increment, seal_as}
use remnaplus_alpine_node.Prelude.{length-map, take}
use remnaplus_alpine_node.Xray.LogWriter.{
  ◌>>◌, file_write, write_to, write_bytes, grown, create_journal, create_new, rename_active,
  create_active, reset_size,
}
use remnaplus_alpine_node.Prelude.{
  ◌≡◌, refl, ap, ◌∙◌, ℕ, zero, suc, ◌+◌, ◌≤◌, ◌<◌, List, [], ◌∷◌, ◌++◌, Str, str_eq, str_beq_iff,
  Bool, true, false, some, none, drop, length, length-drop, arith, inl, inr, Bool-cases,
  Option-cases, if◌then◌else◌, leb,
}
use remnaplus_alpine_node.Prelude.Map.{has, keys, discard, has-discard, remove}
use remnaplus_alpine_node.Xray.LogWriter.{
  newline, max_pending, never, Op, pure, bind_option, Writer, call, effect, free_name, unused_name,
  seal, write_line, write_first, drop_pending, flush, flush_at, write, index_byte,
}

-- An open file, no rotation under way, and no fault to come.
abbrev pub ready : Str → Writer → Writer
ready text w = record w { active = some text; closed = false; journal = none; faults = never }

-- The operation succeeds on a ready writer and leaves one, with this much of what waited.
abbrev Succeeds : {A : Type 0} → Op A → Str → Writer → Str → Type 0
Succeeds {A} m text w left =
    (a : A) × (text' : Str) × (w' : Writer) × (m (ready text w) ≡ (some a, ready text' w'))
    × (w'.pending ≡ left)

discard_at_most : (k : Str) (s : List Str) → length (discard k s) ≤ length s
unfolding discard
discard_at_most k [] = omega arith
discard_at_most k (i ∷ s) = ground (arith, discard_at_most k s)

discard_less : (k : Str) (s : List Str) → has k s ≡ true → length (discard k s) < length s
unfolding discard has
discard_less k [] h = cc
discard_less k (i ∷ s) h = ground (arith, discard_at_most k s, discard_less k s)

module _ (segment_name : Str → Str → ℕ → Str)
    (distinct : (path day : Str) (m n : ℕ)
      → segment_name path day m ≡ segment_name path day n
      → m ≡ n) where
  -- Among more numbers than there are names in the list, one has a name that is not in it.
  some_name :
      (path day : Str) (fuel n : ℕ) (names : List Str)
      → length names < fuel
      → (i : ℕ) × (n < i) × (i ≤ n + fuel) × (has (segment_name path day i) names ≡ false)
  some_name path day zero n names h = ground arith
  some_name path day (suc fuel) n names h =
      elim (Bool-cases (has (segment_name path day (n + 1)) names)) [
        | inl taken ↦
            let rest = discard (segment_name path day (n + 1)) names in
            let (i, low, high, unused) =
              some_name path day fuel (n + 1) rest
                (omega (arith, h, discard_less (segment_name path day (n + 1)) names taken)) in
            (
              i,
              omega (arith, low),
              omega (arith, high),
              ground (
                arith,
                unused,
                low,
                has-discard (segment_name path day i) (segment_name path day (n + 1)) names,
                str_beq_iff (segment_name path day (n + 1)) (segment_name path day i),
                distinct path day (n + 1) i,
              ),
            )
        | inr unused ↦ (n + 1, omega arith, omega arith, unused)
      ]

module _ (today : ℕ → Str) (segment_name : Str → Str → ℕ → Str) where
  free_name-Succeeds :
      (fuel i : ℕ) (text : Str) (w : Writer)
      → w.segment < i
      → i ≤ w.segment + fuel
      → has (segment_name w.path w.open_date i) (keys w.sealed) ≡ false
      → Succeeds (free_name today segment_name fuel) text w w.pending
  unfolding free_name call effect
  free_name-Succeeds zero i text w low high unused = ground arith
  free_name-Succeeds (suc fuel) i text w low high unused =
      elim (Bool-cases (has (segment_name w.path w.open_date (w.segment + 1)) (keys w.sealed))) [
        | inl taken ↦ rw taken (
            free_name-Succeeds fuel i text (record w { segment = w.segment + 1 })
              (ground (arith, low, unused, taken)) (omega (arith, high)) unused)
        | inr free ↦ rw free (_, text, record w { segment = w.segment + 1 }, refl, refl)
      ]

  seal_after :
      (date text text' : Str) (w w' : Writer) (name : Str)
      → unused_name today segment_name (ready text w) ≡ (some name, ready text' w')
      → w'.pending ≡ w.pending
      → Succeeds (seal today segment_name date) text w w.pending
  unfolding seal seal_as call effect create_journal create_new rename_active create_active
      reset_size sync_file close_file
  seal_after date text text' w w' name found kept = (
    tt,
    [],
    record w' { sealed = remove name w'.sealed ++ (name, text') ∷ []; size = 0; open_date = date },
    ap (λ o. bind_option o (seal_as date)) found,
    kept,
  )

  module _
      (distinct : (path day : Str) (m n : ℕ)
        → segment_name path day m ≡ segment_name path day n
        → m ≡ n) where
    seal-Succeeds :
        (date text : Str) (w : Writer) → Succeeds (seal today segment_name date) text w w.pending
    unfolding unused_name
    seal-Succeeds date text w =
        let (i, low, high, unused) =
          some_name segment_name distinct w.path w.open_date (suc (length w.sealed)) w.segment
            (keys w.sealed) (omega (arith, length-map (λ f. f.0) w.sealed)) in
        let (name, text', w', found, kept) =
          free_name-Succeeds (suc (length w.sealed)) i text w low high unused in
        seal_after date text text' w w' name found kept

    due-Succeeds :
        (due : Bool) (date line text : Str) (w : Writer)
        → Succeeds
            ((if due then seal today segment_name date else pure tt) >> file_write line)
            text
            w
            w.pending
    unfolding file_write write_to write_bytes grown
    due-Succeeds false date line text w =
        (tt, text ++ line, record w { size = w.size + length line }, refl, refl)
    due-Succeeds true date line text w =
        let (_, text', w', sealed, kept) = seal-Succeeds date text w in
        (
          tt,
          text' ++ line,
          record w' { size = w'.size + length line },
          ap (λ o. bind_option o (λ _. file_write line)) sealed,
          kept,
        )

    write_line-Succeeds :
        (line text : Str) (w : Writer)
        → Succeeds (write_line today segment_name line) text w w.pending
    unfolding write_line
    write_line-Succeeds line text w =
        due-Succeeds _ (today w.ticks) line text (record w { ticks = w.ticks + 1 })

    write_first-Succeeds :
        (n : ℕ) (text : Str) (w : Writer)
        → Succeeds (write_first today segment_name n) text w (drop n w.pending)
    unfolding write_first drop_pending
    write_first-Succeeds n text w =
        let (_, text', w', wrote, kept) = write_line-Succeeds (take n w.pending) text w in
        (
          tt,
          text',
          record w' { pending = drop n w'.pending },
          ap (λ o. bind_option o (λ _. drop_pending n)) wrote,
          ap (λ l. drop n l) kept,
        )

index_byte-bound : (b : ℕ) (text : Str) (i : ℕ) → index_byte b text ≡ some i → i < length text
unfolding index_byte increment
index_byte-bound b [] i h = cc
index_byte-bound b (c ∷ text) i h = elim (Option-cases (index_byte b text)) [
  | inl unbroken ↦ ground arith
  | inr (j, found) ↦ ground (arith, index_byte-bound b text j found)
]

unbroken_of_empty : (b : ℕ) (text : Str) → length text ≡ 0 → index_byte b text ≡ none
unfolding index_byte
unbroken_of_empty b [] h = refl
unbroken_of_empty b (c ∷ text) h = ground arith

-- What waits has no newline and is short.
abbrev pub Settled : Writer → Type 0
Settled w = (index_byte newline w.pending ≡ none) × (length w.pending < max_pending)

module _ (today : ℕ → Str) (segment_name : Str → Str → ℕ → Str)
    (distinct : (path day : Str) (m n : ℕ)
      → segment_name path day m ≡ segment_name path day n
      → m ≡ n) where
  last-Settled :
      (again : Op (Unit {0})) (text : Str) (w : Writer)
      → index_byte newline w.pending ≡ none
      → (text' : Str) × (w' : Writer) × (flush_at today segment_name again none (ready text w)
          ≡ (some tt, ready text' w'))
        × Settled w'
  unfolding flush_at
  last-Settled again text w unbroken = elim (Bool-cases (leb max_pending (length w.pending))) [
    | inl full ↦
        let (_, text', w', e, left) =
          write_first-Succeeds today segment_name distinct (length w.pending) text w in
        let none_left : length w'.pending ≡ 0 =
          ap length left ∙ length-drop (length w.pending) w.pending ∙ omega arith in
        rw full
          (text', w', e, (unbroken_of_empty newline w'.pending none_left, omega (arith, none_left)))
    | inr short ↦ rw short (text, w, refl, (unbroken, ground (arith, short)))
  ]

  flush-Settled :
      (fuel : ℕ) (text : Str) (w : Writer)
      → length w.pending < fuel
      → (text' : Str) × (w' : Writer) × (flush today segment_name fuel (ready text w)
          ≡ (some tt, ready text' w'))
        × Settled w'
  unfolding flush flush_at
  flush-Settled zero text w h = ground arith
  flush-Settled (suc fuel) text w h = elim (Option-cases (index_byte newline w.pending)) [
    | inl unbroken ↦
        let (text', w', e, settled) =
          last-Settled (flush today segment_name fuel) text w unbroken in
        (
          text',
          w',
          ap (λ o. flush_at today segment_name (flush today segment_name fuel) o (ready text w))
                unbroken
              ∙ e,
          settled,
        )
    | inr (index, found) ↦
        let n = if leb max_pending index then max_pending else index + 1 in
        let (_, text1, w1, e, left) = write_first-Succeeds today segment_name distinct n text w in
        let (text', w', rest, settled) = flush-Settled fuel text1 w1 (
          ground (
            arith,
            h,
            ap length left,
            length-drop n w.pending,
            index_byte-bound newline w.pending index found,
          )) in
        (
          text',
          w',
          ap (λ o. flush_at today segment_name (flush today segment_name fuel) o (ready text w))
                found
              ∙ ap (λ o. bind_option o (λ _. flush today segment_name fuel)) e
              ∙ rest,
          settled,
        )
  ]

  -- Where the names of two segments of one day differ, a call of Write on an open file with no rotation
  -- under way and no failing system call ends, takes all of its bytes, and leaves less than
  -- maxPendingLineBytes bytes waiting, none of them a newline.
  pub write_succeeds :
      (p text : Str) (w : Writer)
      → (text' : Str) × (w' : Writer) × (write today segment_name p (ready text w)
          ≡ (some (length p), ready text' w'))
        × Settled w'
  unfolding write
  write_succeeds p text w =
      let (text', w', e, settled) =
        flush-Settled (suc (length (w.pending ++ p))) text (record w { pending = w.pending ++ p })
          (omega arith) in
      (text', w', ap (λ o. bind_option o (λ _. pure (length p))) e, settled)
