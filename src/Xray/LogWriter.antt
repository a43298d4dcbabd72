-- ===== src/Xray/LogWriter.antt =====
-- internal/xray/logrotate.go: the writer of the managed logs, which cuts its input at line ends and seals
-- the active file when it is full or the day is over.
pub mod Conserve
pub mod Sealing
pub mod Write
pub mod Total
pub mod Recover
use remnaplus_alpine_node.Prelude.{
  ℕ, zero, suc, ◌+◌, ◌^◌, Bool, true, false, not, ◌&&◌, ◌||◌, List, [], ◌∷◌, ◌++◌, map,
  if◌then◌else◌, ltb, leb, nat_beq, Str, str_eq, ◌==◌, length, take, drop, Option, some, none,
}
use remnaplus_alpine_node.Prelude.Map.{has, keys, remove}

-- maxPendingLineBytes
abbrev pub max_pending : ℕ
max_pending = 2 ^ 20

-- Which system calls of an operation fail: none of them, or every one after the first `n`. An operation
-- stops at its first failing call. A file write that fails has written some `k` bytes.
pub data Faults : Type 0 where
  never : Faults
  after : ℕ → ℕ → Faults

-- The rotation journal: a file whose text is not complete, or the two paths.
pub data Rotation : Type 0 where
  torn : Rotation
  entry : Str → Str → Rotation

pub record Writer : Type 0 where
  pub path : Str
  -- the files: the active one, the sealed ones from the oldest, and the journal
  pub active : Option Str
  pub sealed : List (Str × Str)
  pub journal : Option Rotation
  -- the fields of segmentedLogWriter
  pub size : ℕ
  pub max_size : ℕ
  pub pending : Str
  pub segment : ℕ
  pub open_date : Str
  -- whether `w.file` was closed and not opened again
  pub closed : Bool
  -- how often the clock was read, and the system calls to come
  pub ticks : ℕ
  pub faults : Faults

-- An operation: `none` is an error.
abbrev pub Op : Type 0 → Type 0
Op A = Writer → Option A × Writer

abbrev pub bind_option : {A B : Type 0} → Option A × Writer → (A → Op B) → Option B × Writer
bind_option (none, w) f = (none, w)
bind_option (some a, w) f = f a w

infixl 5 ◌>>=◌ ◌>>◌
abbrev pub ◌>>=◌ : {A B : Type 0} → Op A → (A → Op B) → Op B
◌>>=◌ m f w = bind_option (m w) f

abbrev pub ◌>>◌ : {B : Type 0} → Op (Unit {0}) → Op B → Op B
m >> k = m >>= λ _. k

abbrev pub pure : {A : Type 0} → A → Op A
pure a w = (some a, w)

unfoldable pub fail : {A : Type 0} → Op A
fail w = (none, w)

-- A system call that fails, or that succeeds with this effect.
unfoldable pub effect : Faults → (Writer → Writer) → Op (Unit {0})
effect never f w = (some tt, f w)
effect (after zero k) f w = (none, w)
effect (after (suc n) k) f w = (some tt, f (record w { faults = after n k }))

unfoldable pub call : (Writer → Writer) → Op (Unit {0})
call f w = effect w.faults f w

abbrev pub same : Writer → Writer
same w = w

unfoldable pub grown : Str → Str → Writer → Writer
grown text line w = record w { active = some (text ++ line); size = w.size + length line }

unfoldable pub write_bytes : Faults → Str → Str → Op (Unit {0})
write_bytes never text line w = (some tt, grown text line w)
write_bytes (after zero k) text line w = (none, grown text (take k line) w)
write_bytes (after (suc n) k) text line w =
    (some tt, grown text line (record w { faults = after n k }))

-- A file that seal has renamed is closed, too.
unfoldable pub write_to : Option Str → Str → Op (Unit {0})
write_to none line w = (none, w)
write_to (some text) line w = write_bytes w.faults text line w

-- A step that fails where `w.file` is closed.
abbrev pub unless_closed : Bool → Op (Unit {0}) → Op (Unit {0})
unless_closed true m w = (none, w)
unless_closed false m w = m w

-- `w.file.Write`, and the size that follows it.
unfoldable pub file_write : Str → Op (Unit {0})
file_write line w = unless_closed w.closed (write_to w.active line) w

-- `w.file.Sync()`
unfoldable pub sync_file : Op (Unit {0})
sync_file w = unless_closed w.closed (call same) w

-- `w.file.Close()`, which closes the file also where it fails.
unfoldable pub close_file : Op (Unit {0})
close_file w = unless_closed w.closed (λ v. call same (record v { closed = true })) w

abbrev pub renamed : Str → Option Str → List (Str × Str) → List (Str × Str)
renamed name none sealed = sealed
renamed name (some text) sealed = remove name sealed ++ (name, text) ∷ []

-- `os.Rename(w.path, sealed)`: a file that has the new name already is replaced.
unfoldable pub rename_active : Str → Writer → Writer
rename_active name w = record w { active = none; sealed = renamed name w.active w.sealed }

abbrev pub created : Option Str → Option Str
created none = some []
created (some text) = some text

unfoldable pub create_active : Writer → Writer
create_active w = record w { active = created w.active; closed = false }

-- os.OpenFile with O_EXCL.
unfoldable pub create_new : Option Rotation → Op (Unit {0})
create_new none w = call (λ v. record v { journal = some torn }) w
create_new (some r) w = (none, w)

unfoldable pub create_journal : Op (Unit {0})
create_journal w = create_new w.journal w

unfoldable pub reset_size : Str → Op (Unit {0})
reset_size date w = (some tt, record w { size = 0; open_date = date })

unfoldable pub drop_pending : ℕ → Op (Unit {0})
drop_pending n w = (some tt, record w { pending = drop n w.pending })

abbrev pub newline : ℕ
newline = 10

unfoldable pub increment : Option ℕ → Option ℕ
increment none = none
increment (some n) = some (suc n)

-- bytes.IndexByte
unfoldable pub index_byte : ℕ → Str → Option ℕ
unfolding increment
index_byte b [] = none
index_byte b (c ∷ text) =
    let rest = index_byte b text in if nat_beq c b then some 0 else increment rest

-- Close
unfoldable pub close : Op (Unit {0})
close w =
    (do
      (if nat_beq (length w.pending) 0
          then pure tt
          else (file_write w.pending >> drop_pending (length w.pending)))
      sync_file
      close_file)
      w

-- seal, once the name of the segment is found.
unfoldable pub seal_as : Str → Str → Op (Unit {0})
seal_as date name = do
  create_journal
  call (λ v. record v { journal = some (entry v.path name) })
  call same
  call same
  call same
  close_file
  call (rename_active name)
  call same
  call (λ v. record v { journal = none })
  call same
  call create_active
  reset_size date

-- The clock of the writer (the date of each reading) and the name of a segment, which are
-- `time.Now` and `fmt.Sprintf`.
module _ (today : ℕ → Str) (segment_name : Str → Str → ℕ → Str) where
  -- The loop of seal that looks for a free name.
  unfoldable pub free_name : ℕ → Op Str
  free_name zero w = (none, w)
  free_name (suc fuel) w =
      let segment' = w.segment + 1 in
      let candidate = segment_name w.path w.open_date segment' in
      (call same >> (if has candidate (keys w.sealed) then free_name fuel else pure candidate))
        (record w { segment = segment' })

  unfoldable pub unused_name : Op Str
  unused_name w = free_name (suc (length w.sealed)) w

  unfoldable pub seal : Str → Op (Unit {0})
  seal date = do sync_file; name ← unused_name; seal_as date name

  unfoldable pub write_line : Str → Op (Unit {0})
  write_line line w =
      let date = today w.ticks in
      ((if (ltb 0 w.max_size && ltb 0 w.size && ltb w.max_size (w.size + length line))
              || not (date == w.open_date)
            then seal date
            else pure tt)
          >> file_write line)
        (record w { ticks = w.ticks + 1 })

  -- One line, or a piece of one, of the first bytes that wait.
  unfoldable pub write_first : ℕ → Op (Unit {0})
  write_first n w = (do write_line (take n w.pending); drop_pending n) w

  -- One round of the loop of Write, by where the first newline is.
  unfoldable pub flush_at : Op (Unit {0}) → Option ℕ → Op (Unit {0})
  flush_at again (some index) w =
      (write_first (if leb max_pending index then max_pending else index + 1) >> again) w
  flush_at again none w =
      if leb max_pending (length w.pending) then write_first (length w.pending) w else (some tt, w)

  unfoldable pub flush : ℕ → Op (Unit {0})
  flush zero w = (none, w)
  flush (suc fuel) w = flush_at (flush fuel) (index_byte newline w.pending) w

  unfoldable pub write : Str → Op ℕ
  write p w =
      (do flush (suc (length (w.pending ++ p))); pure (length p))
        (record w { pending = w.pending ++ p })
