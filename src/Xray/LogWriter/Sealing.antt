-- ===== src/Xray/LogWriter/Sealing.antt =====
-- A seal of the log writer moves no byte, whichever system call fails.
use remnaplus_alpine_node.Prelude.{
  ℕ, zero, suc, ◌+◌, Bool, true, false, Str, str_eq, Option, some, none, length, ◌≡◌, refl, ap, ◌∙◌,
  if◌then◌else◌,
}
use remnaplus_alpine_node.Prelude.Map.{has, keys}
use remnaplus_alpine_node.Xray.LogWriter.{
  Rotation, torn, entry, Op, ◌>>=◌, pure, bind_option, Writer, call, same, unless_closed, sync_file,
  close_file, create_new, create_journal, rename_active, create_active, reset_size, seal_as,
  free_name, unused_name, seal,
}
use remnaplus_alpine_node.Xray.LogWriter.Conserve.{
  archived, Keeps, KeepsUnless, Steady, SameFiles, SameFiles-archived, Steady-Keeps, call-Steady,
  bind-Keeps, bind-KeepsUnless, then-KeepsUnless, rename-Keeps, create-Keeps, reset_size-Keeps,
}

pub same-Steady : Steady (call same)
same-Steady = call-Steady same (λ w. (refl, refl, refl))

journal-Steady : (r : Option Rotation) → Steady (call (λ v. record v { journal = r }))
journal-Steady r = call-Steady (λ v. record v { journal = r }) (λ w. (refl, refl, refl))

pub clear-Keeps : Keeps (call (λ v. record v { journal = none }))
clear-Keeps = Steady-Keeps (call (λ v. record v { journal = none })) (journal-Steady none)

entry-Steady : (name : Str) → Steady (call (λ v. record v { journal = some (entry v.path name) }))
entry-Steady name =
    call-Steady (λ v. record v { journal = some (entry v.path name) }) (λ w. (refl, refl, refl))

create_new-Steady : (r : Option Rotation) → Steady (create_new r)
unfolding create_new
create_new-Steady none w = journal-Steady (some torn) w
create_new-Steady (some r) w = (refl, refl, refl)

create_journal-Steady : Steady create_journal
unfolding create_journal
create_journal-Steady w = create_new-Steady w.journal w

unless_closed-Steady :
    (closed : Bool) (m : Op (Unit {0})) → Steady m → Steady (unless_closed closed m)
unless_closed-Steady true m s w = (refl, refl, refl)
unless_closed-Steady false m s w = s w

sync_file-Steady : Steady sync_file
unfolding sync_file
sync_file-Steady w = unless_closed-Steady w.closed (call same) same-Steady w

close_file-Steady : Steady close_file
unfolding close_file
close_file-Steady w =
    unless_closed-Steady w.closed (λ v. call same (record v { closed = true }))
      (λ v. same-Steady (record v { closed = true })) w

-- After the renaming.
renamed-Keeps :
    (date : Str)
    → Keeps (
        call same >>= λ _. call (λ v. record v { journal = none }) >>= λ _.
        call same >>= λ _. call create_active >>= λ _. reset_size date)
renamed-Keeps date =
    let same-Keeps = Steady-Keeps (call same) same-Steady in
    bind-Keeps (call same) _ same-Keeps λ _.
      bind-Keeps (call (λ v. record v { journal = none })) _ clear-Keeps λ _.
        bind-Keeps (call same) _ same-Keeps
          λ _. bind-Keeps (call create_active) _ create-Keeps λ _. reset_size-Keeps date

seal_as-Keeps : (date name : Str) → KeepsUnless name (seal_as date name)
unfolding seal_as
seal_as-Keeps date name = bind-KeepsUnless name create_journal _ create_journal-Steady λ _.
    bind-KeepsUnless name (call (λ v. record v { journal = some (entry v.path name) })) _
      (entry-Steady name)
      λ _. bind-KeepsUnless name (call same) _ same-Steady λ _.
        bind-KeepsUnless name (call same) _ same-Steady λ _.
          bind-KeepsUnless name (call same) _ same-Steady λ _.
            bind-KeepsUnless name close_file _ close_file-Steady λ _.
              then-KeepsUnless name (call (rename_active name)) _ (rename-Keeps name)
                λ _. renamed-Keeps date

-- The name that was found is that of no sealed file, and the search moves nothing.
Searched : Writer → Option Str × Writer → Type 0
Searched w (some name, v) = (has name (keys v.sealed) ≡ false) × SameFiles w v
Searched w (none, v) = SameFiles w v

SameFiles-trans : (u v w : Writer) → SameFiles u v → SameFiles v w → SameFiles u w
SameFiles-trans u v w h k = (k.0 ∙ h.0, k.1 ∙ h.1, k.2 ∙ h.2)

Searched-of_same :
    (w v : Writer) (o : Option Str × Writer) → SameFiles w v → Searched v o → Searched w o
unfolding Searched
Searched-of_same w v (some name, u) s h = (h.0, SameFiles-trans w v u s h.1)
Searched-of_same w v (none, u) s h = SameFiles-trans w v u s h

tried-Searched :
    (taken : Bool) (candidate : Str) (rest : Op Str) (w : Writer) (o : Option (Unit {0}) × Writer)
    → SameFiles w o.1
    → has candidate (keys w.sealed) ≡ taken
    → ((v : Writer) → Searched v (rest v))
    → Searched w (bind_option o (λ _. if taken then rest else pure candidate))
unfolding Searched
tried-Searched taken candidate rest w (none, v) s h found = s
tried-Searched true candidate rest w (some _, v) s h found =
    Searched-of_same w v (rest v) s (found v)
tried-Searched false candidate rest w (some _, v) s h found =
    (ap (λ files. has candidate (keys files)) s.0 ∙ h, s)

found-Keeps :
    (w : Writer) (o : Option Str × Writer) (f : Str → Op (Unit {0}))
    → Searched w o
    → ((name : Str) → KeepsUnless name (f name))
    → (archived (bind_option o f).1 ≡ archived w) × ((bind_option o f).1.pending ≡ w.pending)
unfolding Searched
found-Keeps w (none, v) f s k = SameFiles-archived w v s
found-Keeps w (some name, v) f s k =
    let moved = k name v s.0 in
    let kept = SameFiles-archived w v s.1 in (moved.0 ∙ kept.0, moved.1 ∙ kept.1)

module _ (today : ℕ → Str) (segment_name : Str → Str → ℕ → Str) where
  free_name-Searched : (fuel : ℕ) (w : Writer) → Searched w (free_name today segment_name fuel w)
  unfolding free_name Searched
  free_name-Searched zero w = (refl, refl, refl)
  free_name-Searched (suc fuel) w =
      let next = record w { segment = w.segment + 1 } in
      tried-Searched _ (segment_name w.path w.open_date (w.segment + 1))
        (free_name today segment_name fuel) next (call same next) (same-Steady next) refl
        (free_name-Searched fuel)

  unused_name-Keeps :
      (f : Str → Op (Unit {0}))
      → ((name : Str) → KeepsUnless name (f name))
      → Keeps (unused_name today segment_name >>= f)
  unfolding unused_name
  unused_name-Keeps f k w = found-Keeps w _ f (free_name-Searched (suc (length w.sealed)) w) k

  pub seal-Keeps : (date : Str) → Keeps (seal today segment_name date)
  unfolding seal
  seal-Keeps date =
      bind-Keeps sync_file _ (Steady-Keeps sync_file sync_file-Steady)
        λ _. unused_name-Keeps (seal_as date) (seal_as-Keeps date)

  pub maybe_seal-Keeps :
      (due : Bool) (date : Str) → Keeps (if due then seal today segment_name date else pure tt)
  maybe_seal-Keeps true date w = seal-Keeps date w
  maybe_seal-Keeps false date w = (refl, refl)
