-- ===== src/Xray/LogWriter/Recover.antt =====
-- recoverSegmentRotation of internal/xray/logrotate.go: the end of a seal that was cut short.
use remnaplus_alpine_node.Prelude.{
  ap, List, ◌+◌, length, map, ◌≡◌, refl, ◌∙◌, ℕ, [], ◌∷◌, ◌++◌, Str, str_eq, ◌==◌, lit, Bool, true,
  false, not, ◌||◌, Option, some, none, if◌then◌else◌,
}
use remnaplus_alpine_node.Prelude.Map.{has, keys, is_some}
use remnaplus_alpine_node.Prelude.Text.{has_prefix, has_suffix}
use remnaplus_alpine_node.Xray.LogWriter.{
  create_active, Rotation, torn, entry, Faults, Op, bind_option, ◌>>◌, Writer, call, same,
  rename_active, seal,
}
use remnaplus_alpine_node.Xray.LogWriter.Conserve.{
  archived, Keeps, bind-Keeps, then-KeepsUnless, Steady-Keeps, rename-Keeps, SameFiles,
  SameFiles-archived,
}
use remnaplus_alpine_node.Xray.LogWriter.Sealing.{same-Steady, clear-Keeps, seal-Keeps}

-- The end of a recovery: the renaming has reached the disk and the journal goes.
unfoldable pub finish_recovery : Op (Unit {0})
finish_recovery = do call same; call (λ v. record v { journal = none }); call same

-- By whether the active file and the sealed one exist.
unfoldable pub recover_files : Str → Bool → Bool → Op (Unit {0})
recover_files sealed true true w = (none, w)
recover_files sealed true false w = (call (rename_active sealed) >> finish_recovery) w
recover_files sealed false true w = finish_recovery w
recover_files sealed false false w = (none, w)

-- filepath.Dir and filepath.Base
module _ (dir base : Str → Str) where
  unfoldable pub wrong_paths : Str → Str → Str → Bool
  wrong_paths path active sealed =
      not (active == path)
      || not (dir sealed == dir path)
      || not (has_prefix (base sealed) (base path ++ lit ".segment-"))
      || not (has_suffix sealed (lit ".sealed"))

  unfoldable pub recover_entry : Option Rotation → Op (Unit {0})
  recover_entry none w = (some tt, w)
  recover_entry (some torn) w = (none, w)
  recover_entry (some (entry active sealed)) w =
      if wrong_paths w.path active sealed
      then (none, w)
      else (call same
            >> (call same >> recover_files sealed (is_some w.active) (has sealed (keys w.sealed))))
          w

  unfoldable pub recover_segment_rotation : Op (Unit {0})
  recover_segment_rotation w = (call same >> recover_entry w.journal) w

-- openSegmentedLogWriter: the sealed segments are counted, those of this log by their names.
unfoldable pub count_segments : (Str → Str) → Str → List Str → ℕ
count_segments base path [] = 0
count_segments base path (name ∷ names) =
    let rest = count_segments base path names in
    if not (has_prefix name (base path ++ lit ".segment-")) || not (has_suffix name (lit ".sealed"))
    then rest
    else rest + 1

abbrev size_of : Option Str → ℕ
size_of none = 0
size_of (some text) = length text

unfoldable pub start_writer : (Str → Str) → Str → Op (Unit {0})
start_writer base date w = (
  some tt,
  record w {
    size = size_of w.active;
    pending = [];
    segment = count_segments base w.path (map base (keys w.sealed));
    open_date = date;
  },
)

unfoldable pub open_segmented_log_writer : (Str → Str) → (Str → Str) → Str → Op (Unit {0})
open_segmented_log_writer dir base date = do
  call same
  recover_segment_rotation dir base
  call create_active
  call same
  call same
  start_writer base date

same-Keeps : Keeps (call same)
same-Keeps = Steady-Keeps (call same) same-Steady

finish-Keeps : Keeps finish_recovery
unfolding finish_recovery
finish-Keeps =
    bind-Keeps (call same) _ same-Keeps
      λ _. bind-Keeps (call (λ v. record v { journal = none })) _ clear-Keeps λ _. same-Keeps

-- An operation that moves no byte where it is right about whether a sealed file has this name.
KeepsWhere : Str → Bool → Op (Unit {0}) → Type 0
KeepsWhere name there m =
    (w : Writer)
    → has name (keys w.sealed) ≡ there
    → (archived (m w).1 ≡ archived w) × ((m w).1.pending ≡ w.pending)

recover_files-Keeps : (sealed : Str) (a b : Bool) → KeepsWhere sealed b (recover_files sealed a b)
unfolding recover_files KeepsWhere
recover_files-Keeps sealed true true w h = (refl, refl)
recover_files-Keeps sealed true false w h =
    then-KeepsUnless sealed (call (rename_active sealed)) (λ _. finish_recovery)
      (rename-Keeps sealed) (λ _. finish-Keeps) w h
recover_files-Keeps sealed false true w h = finish-Keeps w
recover_files-Keeps sealed false false w h = (refl, refl)

after-KeepsWhere :
    (name : Str) (there : Bool) (w : Writer) (o : Option (Unit {0}) × Writer) (m : Op (Unit {0}))
    → SameFiles w o.1
    → has name (keys w.sealed) ≡ there
    → KeepsWhere name there m
    → (archived (bind_option o (λ _. m)).1 ≡ archived w)
      × ((bind_option o (λ _. m)).1.pending ≡ w.pending)
unfolding KeepsWhere
after-KeepsWhere name there w (none, v) m s h k = SameFiles-archived w v s
after-KeepsWhere name there w (some _, v) m s h k =
    let moved = k v (ap (λ files. has name (keys files)) s.0 ∙ h) in
    let kept = SameFiles-archived w v s in (moved.0 ∙ kept.0, moved.1 ∙ kept.1)

same-KeepsWhere :
    (name : Str) (there : Bool) (m : Op (Unit {0}))
    → KeepsWhere name there m
    → KeepsWhere name there (call same >> m)
unfolding KeepsWhere
same-KeepsWhere name there m k w h =
    after-KeepsWhere name there w (call same w) m (same-Steady w) h k

checked-Keeps :
    (wrong : Bool) (m : Op (Unit {0})) (w : Writer)
    → (archived (m w).1 ≡ archived w) × ((m w).1.pending ≡ w.pending)
    → (archived (if wrong then (none, w) else m w).1 ≡ archived w)
      × ((if wrong then (none, w) else m w).1.pending ≡ w.pending)
checked-Keeps true m w k = (refl, refl)
checked-Keeps false m w k = k

module _ (dir base : Str → Str) where
  recover_entry-Keeps : (journal : Option Rotation) → Keeps (recover_entry dir base journal)
  unfolding recover_entry KeepsWhere
  recover_entry-Keeps none w = (refl, refl)
  recover_entry-Keeps (some torn) w = (refl, refl)
  recover_entry-Keeps (some (entry active sealed)) w =
      let there = has sealed (keys w.sealed) in
      let files = recover_files sealed (is_some w.active) there in
      checked-Keeps (wrong_paths dir base w.path active sealed) (call same >> (call same >> files))
        w
        (same-KeepsWhere sealed there (call same >> files)
          (same-KeepsWhere sealed there files (recover_files-Keeps sealed (is_some w.active) there))
          w refl)

  -- A seal of the active file and the recovery of the next start leave the bytes on disk, the sealed
  -- files from the oldest and then the active one, as they were, wherever the seal was cut short and
  -- wherever the recovery fails.
  pub recover-seal :
      (today : ℕ → Str) (segment_name : Str → Str → ℕ → Str) (date : Str) (w : Writer)
      (later : Faults)
      → archived
          (recover_segment_rotation dir base
            (record (seal today segment_name date w).1 { faults = later })).1
        ≡ archived w
  unfolding recover_segment_rotation archived
  recover-seal today segment_name date w later =
      let sealed = (seal today segment_name date w).1 in
      (bind-Keeps (call same) (λ _. recover_entry dir base sealed.journal) same-Keeps
        (λ _. recover_entry-Keeps sealed.journal) (record sealed { faults = later })).0
      ∙ (seal-Keeps today segment_name date w).0
