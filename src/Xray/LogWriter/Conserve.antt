-- ===== src/Xray/LogWriter/Conserve.antt =====
-- No byte that was given to the log writer is lost, whichever system call fails.
use remnaplus_alpine_node.Prelude.Map.{has}
use remnaplus_alpine_node.Xray.LogWriter.{
  Faults, never, after, Op, ◌>>=◌, bind_option, Writer, call, effect, created, renamed,
  rename_active, create_active, reset_size,
}
use remnaplus_alpine_node.Prelude.{zero, suc, false}
use remnaplus_alpine_node.Xray.LogWriter.{
  after, Faults, reset_size, create_active, rename_active, renamed, effect, ◌>>=◌,
}
use remnaplus_alpine_node.Xray.LogWriter.{bind_option, Op, Writer}
use remnaplus_alpine_node.Prelude.Map.{keys, remove}
use remnaplus_alpine_node.Prelude.{
  str_eq, str_beq_iff, arith, suc, ◌≡◌, refl, sym, ap, ◌∙◌, List, [], ◌∷◌, ◌++◌, Str, Option, some,
  none,
}
use mathlib.Core.List.{append-nil, append_assoc}

unfoldable pub contents : List (Str × Str) → Str
contents [] = []
contents ((name, text) ∷ files) = text ++ contents files

abbrev pub text_of : Option Str → Str
text_of none = []
text_of (some text) = text

-- The bytes on disk, in the order in which they were written, and with those that wait.
unfoldable pub archived : Writer → Str
archived w = contents w.sealed ++ text_of w.active

unfoldable pub accepted : Writer → Str
accepted w = archived w ++ w.pending

contents-append : (xs ys : List (Str × Str)) → contents (xs ++ ys) ≡ contents xs ++ contents ys
unfolding contents
contents-append [] ys = refl
contents-append ((name, text) ∷ xs) ys =
    ap (λ t. text ++ t) (contents-append xs ys)
    ∙ sym (append_assoc text (contents xs) (contents ys))

-- An operation that moves no byte.
abbrev pub Keeps : {A : Type 0} → Op A → Type 0
Keeps m = (w : Writer) → (archived (m w).1 ≡ archived w) × ((m w).1.pending ≡ w.pending)

bound-Keeps :
    {A B : Type 0} (w : Writer) (o : Option A × Writer) (f : A → Op B)
    → (archived o.1 ≡ archived w) × (o.1.pending ≡ w.pending)
    → ((a : A) → Keeps (f a))
    → (archived (bind_option o f).1 ≡ archived w) × ((bind_option o f).1.pending ≡ w.pending)
bound-Keeps w (none, v) f k kf = k
bound-Keeps w (some a, v) f k kf = ((kf a v).0 ∙ k.0, (kf a v).1 ∙ k.1)

pub bind-Keeps :
    {A B : Type 0} (m : Op A) (f : A → Op B) → Keeps m → ((a : A) → Keeps (f a)) → Keeps (m >>= f)
bind-Keeps m f km kf w = bound-Keeps w (m w) f (km w) kf

effect-Keeps :
    (faults : Faults) (f : Writer → Writer)
    → ((w : Writer) → (archived (f w) ≡ archived w) × ((f w).pending ≡ w.pending))
    → Keeps (effect faults f)
unfolding effect archived
effect-Keeps never f k w = k w
effect-Keeps (after zero n) f k w = (refl, refl)
effect-Keeps (after (suc m) n) f k w = k (record w { faults = after m n })

pub call-Keeps :
    (f : Writer → Writer)
    → ((w : Writer) → (archived (f w) ≡ archived w) × ((f w).pending ≡ w.pending))
    → Keeps (call f)
unfolding call
call-Keeps f k w = effect-Keeps w.faults f k w

created-text : (active : Option Str) → text_of (created active) ≡ text_of active
created-text none = refl
created-text (some text) = refl

remove-absent :
    (name : Str) (files : List (Str × Str))
    → has name (keys files) ≡ false
    → remove name files ≡ files
unfolding remove has
remove-absent name [] h = refl
remove-absent name ((other, text) ∷ files) h =
    ground (arith, remove-absent name files, str_beq_iff other name, str_beq_iff name other)

renamed-contents :
    (name : Str) (active : Option Str) (sealed : List (Str × Str))
    → has name (keys sealed) ≡ false
    → contents (renamed name active sealed) ++ [] ≡ contents sealed ++ text_of active
unfolding contents
renamed-contents name none sealed h = refl
renamed-contents name (some text) sealed h =
    append-nil (contents (remove name sealed ++ (name, text) ∷ []))
    ∙ contents-append (remove name sealed) ((name, text) ∷ [])
    ∙ ap (λ t. contents (remove name sealed) ++ t) (append-nil text)
    ∙ ap (λ files. contents files ++ text) (remove-absent name sealed h)

-- An operation that moves no byte where no sealed file has this name.
abbrev pub KeepsUnless : {A : Type 0} → Str → Op A → Type 0
KeepsUnless name m =
    (w : Writer)
    → has name (keys w.sealed) ≡ false
    → (archived (m w).1 ≡ archived w) × ((m w).1.pending ≡ w.pending)

pub rename-Keeps : (name : Str) → KeepsUnless name (call (rename_active name))
unfolding call rename_active archived effect
rename-Keeps name w h = effect_rename w.faults
  where
    effect_rename :
        (faults : Faults)
        → (archived (effect faults (rename_active name) w).1 ≡ archived w)
          × ((effect faults (rename_active name) w).1.pending ≡ w.pending)
    effect_rename never = (renamed-contents name w.active w.sealed h, refl)
    effect_rename (after zero k) = (refl, refl)
    effect_rename (after (suc n) k) = (renamed-contents name w.active w.sealed h, refl)

pub create-Keeps : Keeps (call create_active)
unfolding create_active archived
create-Keeps =
    call-Keeps create_active (λ w. (ap (λ t. contents w.sealed ++ t) (created-text w.active), refl))

pub reset_size-Keeps : (date : Str) → Keeps (reset_size date)
unfolding reset_size archived
reset_size-Keeps date w = (refl, refl)

-- What is on disk and what waits is the same.
abbrev pub SameFiles : Writer → Writer → Type 0
SameFiles w v = (v.sealed ≡ w.sealed) × (v.active ≡ w.active) × (v.pending ≡ w.pending)

-- An operation that touches neither the files of the log nor what waits.
abbrev pub Steady : {A : Type 0} → Op A → Type 0
Steady m = (w : Writer) → SameFiles w (m w).1

pub SameFiles-archived :
    (w v : Writer) → SameFiles w v → (archived v ≡ archived w) × (v.pending ≡ w.pending)
unfolding archived
SameFiles-archived w v h = (
  ap (λ s. contents s ++ text_of v.active) h.0 ∙ ap (λ a. contents w.sealed ++ text_of a) h.1,
  h.2,
)

pub Steady-Keeps : {A : Type 0} (m : Op A) → Steady m → Keeps m
Steady-Keeps m s w = SameFiles-archived w (m w).1 (s w)

effect-Steady :
    (faults : Faults) (f : Writer → Writer)
    → ((w : Writer) → SameFiles w (f w))
    → Steady (effect faults f)
unfolding effect
effect-Steady never f k w = k w
effect-Steady (after zero n) f k w = (refl, refl, refl)
effect-Steady (after (suc m) n) f k w = k (record w { faults = after m n })

pub call-Steady : (f : Writer → Writer) → ((w : Writer) → SameFiles w (f w)) → Steady (call f)
unfolding call
call-Steady f k w = effect-Steady w.faults f k w

bound-KeepsUnless :
    {A B : Type 0} (name : Str) (w : Writer) (o : Option A × Writer) (f : A → Op B)
    → SameFiles w o.1
    → has name (keys w.sealed) ≡ false
    → ((a : A) → KeepsUnless name (f a))
    → (archived (bind_option o f).1 ≡ archived w) × ((bind_option o f).1.pending ≡ w.pending)
bound-KeepsUnless name w (none, v) f s h kf = SameFiles-archived w v s
bound-KeepsUnless name w (some a, v) f s h kf =
    let moved = kf a v (ap (λ files. has name (keys files)) s.0 ∙ h) in
    let kept = SameFiles-archived w v s in (moved.0 ∙ kept.0, moved.1 ∙ kept.1)

pub bind-KeepsUnless :
    {A B : Type 0} (name : Str) (m : Op A) (f : A → Op B)
    → Steady m
    → ((a : A) → KeepsUnless name (f a))
    → KeepsUnless name (m >>= f)
bind-KeepsUnless name m f s kf w h = bound-KeepsUnless name w (m w) f (s w) h kf

pub then-KeepsUnless :
    {A B : Type 0} (name : Str) (m : Op A) (f : A → Op B)
    → KeepsUnless name m
    → ((a : A) → Keeps (f a))
    → KeepsUnless name (m >>= f)
then-KeepsUnless name m f km kf w h = bound-Keeps w (m w) f (km w h) kf
