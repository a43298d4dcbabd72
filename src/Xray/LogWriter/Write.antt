-- ===== src/Xray/LogWriter/Write.antt =====
-- What a call of Write does to the bytes: those on disk, then those that wait, are the bytes that were
-- given to the writer, whichever system call fails.
use remnaplus_alpine_node.Prelude.{
  ◌+◌, leb, ◌≡◌, refl, sym, ap, ◌∙◌, ℕ, zero, suc, ◌++◌, Str, Bool, true, false, Option, some, none,
  take, drop, length, take-append-drop, if◌then◌else◌,
}
use mathlib.Core.List.{append-nil, append_assoc}
use remnaplus_alpine_node.Xray.LogWriter.{
  flush_at, newline, max_pending, Faults, never, after, Op, pure, bind_option, Writer, grown,
  write_bytes, unless_closed, write_to, file_write, write_line, write_first, drop_pending, flush,
  write, index_byte,
}
use remnaplus_alpine_node.Xray.LogWriter.Conserve.{archived, accepted, contents, text_of}
use remnaplus_alpine_node.Xray.LogWriter.Sealing.{maybe_seal-Keeps}

-- A line is written whole, or the operation fails with a piece of it written.
Wrote : Writer → Str → Option (Unit {0}) × Writer → Type 0
Wrote w line (some _, v) = (archived v ≡ archived w ++ line) × (v.pending ≡ w.pending)
Wrote w line (none, v) =
    (k : ℕ) × (archived v ≡ archived w ++ take k line) × (v.pending ≡ w.pending)

archived-grown :
    (text line : Str) (w : Writer)
    → w.active ≡ some text
    → archived (grown text line w) ≡ archived w ++ line
unfolding archived grown
archived-grown text line w h =
    sym (append_assoc (contents w.sealed) text line)
    ∙ ap (λ a. (contents w.sealed ++ text_of a) ++ line) (sym h)

write_bytes-Wrote :
    (faults : Faults) (text line : Str) (w : Writer)
    → w.active ≡ some text
    → Wrote w line (write_bytes faults text line w)
unfolding Wrote write_bytes grown archived
write_bytes-Wrote never text line w h = (archived-grown text line w h, refl)
write_bytes-Wrote (after zero k) text line w h = (k, archived-grown text (take k line) w h, refl)
write_bytes-Wrote (after (suc n) k) text line w h =
    (archived-grown text line (record w { faults = after n k }) h, refl)

write_to-Wrote :
    (active : Option Str) (line : Str) (w : Writer)
    → w.active ≡ active
    → Wrote w line (write_to active line w)
unfolding Wrote write_to
write_to-Wrote none line w h = (0, sym (append-nil (archived w)), refl)
write_to-Wrote (some text) line w h = write_bytes-Wrote w.faults text line w h

unless_closed-Wrote :
    (closed : Bool) (line : Str) (m : Op (Unit {0})) (w : Writer)
    → Wrote w line (m w)
    → Wrote w line (unless_closed closed m w)
unfolding Wrote
unless_closed-Wrote true line m w h = (0, sym (append-nil (archived w)), refl)
unless_closed-Wrote false line m w h = h

file_write-Wrote : (line : Str) (w : Writer) → Wrote w line (file_write line w)
unfolding file_write
file_write-Wrote line w =
    unless_closed-Wrote w.closed line (write_to w.active line) w
      (write_to-Wrote w.active line w refl)

Wrote-of_eq :
    (v w : Writer) (line : Str) (o : Option (Unit {0}) × Writer)
    → (archived v ≡ archived w) × (v.pending ≡ w.pending)
    → Wrote v line o
    → Wrote w line o
unfolding Wrote
Wrote-of_eq v w line (some _, u) e h = (h.0 ∙ ap (λ t. t ++ line) e.0, h.1 ∙ e.1)
Wrote-of_eq v w line (none, u) e (k, h, p) = (k, h ∙ ap (λ t. t ++ take k line) e.0, p ∙ e.1)

after_seal :
    (w : Writer) (line : Str) (o : Option (Unit {0}) × Writer)
    → (archived o.1 ≡ archived w) × (o.1.pending ≡ w.pending)
    → Wrote w line (bind_option o (λ _. file_write line))
unfolding Wrote
after_seal w line (none, v) e = (0, e.0 ∙ sym (append-nil (archived w)), e.1)
after_seal w line (some _, v) e =
    Wrote-of_eq v w line (file_write line v) e (file_write-Wrote line v)

-- What is on disk and what waits stay the same bytes, or the operation fails and what is on disk is a
-- beginning of them.
Conserved : Writer → Option (Unit {0}) × Writer → Type 0
Conserved w (some _, v) = accepted v ≡ accepted w
Conserved w (none, v) = (rest : Str) × (archived v ++ rest ≡ accepted w)

joined :
    (n : ℕ) (text waiting left : Str)
    → left ≡ waiting
    → (text ++ take n waiting) ++ drop n left ≡ text ++ waiting
joined n text waiting left h =
    ap (λ l. (text ++ take n waiting) ++ drop n l) h
    ∙ append_assoc text (take n waiting) (drop n waiting)
    ∙ ap (λ l. text ++ l) (take-append-drop n waiting)

rejoined :
    (k n : ℕ) (text waiting : Str)
    → (text ++ take k (take n waiting)) ++ (drop k (take n waiting) ++ drop n waiting)
      ≡ text ++ waiting
rejoined k n text waiting =
    append_assoc text (take k (take n waiting)) (drop k (take n waiting) ++ drop n waiting)
    ∙ ap (λ l. text ++ l)
        (sym (append_assoc (take k (take n waiting)) (drop k (take n waiting)) (drop n waiting))
          ∙ ap (λ l. l ++ drop n waiting) (take-append-drop k (take n waiting))
          ∙ take-append-drop n waiting)

dropped-Conserved :
    (n : ℕ) (w : Writer) (o : Option (Unit {0}) × Writer)
    → Wrote w (take n w.pending) o
    → Conserved w (bind_option o (λ _. drop_pending n))
unfolding Wrote Conserved drop_pending accepted archived
dropped-Conserved n w (some _, v) (h, p) =
    ap (λ t. t ++ drop n v.pending) h ∙ joined n (archived w) w.pending v.pending p
dropped-Conserved n w (none, v) (k, h, p) = (
  drop k (take n w.pending) ++ drop n w.pending,
  ap (λ t. t ++ (drop k (take n w.pending) ++ drop n w.pending)) h
      ∙ rejoined k n (archived w) w.pending,
)

Conserved-of_eq :
    (v w : Writer) (o : Option (Unit {0}) × Writer)
    → accepted v ≡ accepted w
    → Conserved v o
    → Conserved w o
unfolding Conserved
Conserved-of_eq v w (some _, u) h e = e ∙ h
Conserved-of_eq v w (none, u) h (rest, e) = (rest, e ∙ h)

bound-Conserved :
    (w : Writer) (o : Option (Unit {0}) × Writer) (k : Op (Unit {0}))
    → Conserved w o
    → ((v : Writer) → Conserved v (k v))
    → Conserved w (bind_option o (λ _. k))
unfolding Conserved
bound-Conserved w (none, v) k h g = h
bound-Conserved w (some _, v) k h g = Conserved-of_eq v w (k v) h (g v)

-- The writer with the new bytes waiting.
abbrev given : Str → Writer → Writer
given p w = record w { pending = w.pending ++ p }

given-accepted : (p : Str) (w : Writer) → accepted (given p w) ≡ accepted w ++ p
unfolding accepted archived
given-accepted p w = sym (append_assoc (archived w) w.pending p)

beginning :
    (w : Writer) (o : Option (Unit {0}) × Writer) (n : ℕ)
    → Conserved w o
    → (rest : Str) × (archived (bind_option o (λ _. pure n)).1 ++ rest ≡ accepted w)
unfolding Conserved accepted
beginning w (some _, v) n h = (v.pending, h)
beginning w (none, v) n h = h

all_accepted :
    (w : Writer) (o : Option (Unit {0}) × Writer) (n m : ℕ)
    → Conserved w o
    → (bind_option o (λ _. pure n)).0 ≡ some m
    → accepted (bind_option o (λ _. pure n)).1 ≡ accepted w
unfolding Conserved
all_accepted w (some _, v) n m h e = h
all_accepted w (none, v) n m h e = cc

module _ (today : ℕ → Str) (segment_name : Str → Str → ℕ → Str) where
  write_line-Wrote : (line : Str) (w : Writer) → Wrote w line (write_line today segment_name line w)
  unfolding write_line archived
  write_line-Wrote line w =
      after_seal w line _
        (maybe_seal-Keeps today segment_name _ (today w.ticks) (record w { ticks = w.ticks + 1 }))

  write_first-Conserved : (n : ℕ) (w : Writer) → Conserved w (write_first today segment_name n w)
  unfolding write_first
  write_first-Conserved n w = dropped-Conserved n w _ (write_line-Wrote (take n w.pending) w)

  last-Conserved :
      (full : Bool) (w : Writer)
      → Conserved w
          (if full then write_first today segment_name (length w.pending) w else (some tt, w))
  unfolding Conserved
  last-Conserved true w = write_first-Conserved (length w.pending) w
  last-Conserved false w = refl

  flush_at-Conserved :
      (again : Op (Unit {0})) (index : Option ℕ) (w : Writer)
      → ((v : Writer) → Conserved v (again v))
      → Conserved w (flush_at today segment_name again index w)
  unfolding flush_at
  flush_at-Conserved again none w h = last-Conserved (leb max_pending (length w.pending)) w
  flush_at-Conserved again (some index) w h =
      bound-Conserved w _ again
        (write_first-Conserved (if leb max_pending index then max_pending else index + 1) w) h

  flush-Conserved : (fuel : ℕ) (w : Writer) → Conserved w (flush today segment_name fuel w)
  unfolding flush Conserved accepted
  flush-Conserved zero w = (w.pending, refl)
  flush-Conserved (suc fuel) w =
      flush_at-Conserved (flush today segment_name fuel) (index_byte newline w.pending) w
        (flush-Conserved fuel)

  -- After a call of Write, whichever system call failed in it, the bytes on disk, in the order in which
  -- they were written, are a beginning of those the writer had accepted followed by the new ones.
  pub write_beginning :
      (p : Str) (w : Writer)
      → (rest : Str) × (archived (write today segment_name p w).1 ++ rest ≡ accepted w ++ p)
  unfolding write
  write_beginning p w =
      let (rest, e) = beginning (given p w) _ (length p) (flush-Conserved _ (given p w)) in
      (rest, e ∙ given-accepted p w)

  -- If a call of Write succeeds, the bytes on disk followed by those that wait for a newline are those
  -- that the writer had accepted before followed by the new ones, also where it sealed the active file.
  pub write_accepts :
      (p : Str) (n : ℕ) (w : Writer)
      → (write today segment_name p w).0 ≡ some n
      → accepted (write today segment_name p w).1 ≡ accepted w ++ p
  unfolding write
  write_accepts p n w h =
      all_accepted (given p w) _ (length p) n (flush-Conserved _ (given p w)) h ∙ given-accepted p w
