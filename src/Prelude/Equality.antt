-- ===== src/Prelude/Equality.antt =====
-- Go's `==`: an interface, with its instances for numbers and for strings. A Go string is the list
-- of its bytes.
use Prim.Native.Nat.{ℕ}
use Prim.Native.Char.{code}
use Prim.Native.String.{String}
use mathlib.Core.Path.{◌≡◌, refl}
use mathlib.Core.Logic.{◌↔◌}
use mathlib.Core.Bool.{Bool, true, false, ◌&&◌}
use mathlib.Core.List.{List, [], ◌∷◌}
use native.Mathlib.Omega.{arith}
use remnaplus_alpine_node.Prelude.Tests.{nat_beq, nat_beq_iff}

-- A type with a test for equality that decides paths.
pub record Eq {ℓ} (T : Type ℓ) : Type ℓ where
  pub beq : (x y : T) → Bool
  pub beq_iff : (x y : T) → (beq x y ≡ true) ↔ (x ≡ y)

module _ {ℓ} {T : Type ℓ} ⦃e : Eq T⦄ where
  infix 50 ◌==◌
  abbrev pub ◌==◌ : T → T → Bool
  x == y = e.beq x y

abbrev pub Str : Type 0
Str = List ℕ

-- A string literal, for ASCII text.
abbrev pub lit : String → Str
lit String.[] = []
lit (String.◌∷◌ c s) = code c ∷ lit s

unfoldable pub str_beq : Str → Str → Bool
str_beq [] [] = true
str_beq (a ∷ s) (b ∷ t) = nat_beq a b && str_beq s t
str_beq _ _ = false

str_beq-eq : (s t : Str) → str_beq s t ≡ true → s ≡ t
unfolding str_beq
str_beq-eq [] [] h = refl
str_beq-eq [] (b ∷ t) h = cc
str_beq-eq (a ∷ s) [] h = cc
str_beq-eq (a ∷ s) (b ∷ t) h = ground (arith, str_beq-eq s t)

pub str_beq_self : (s : Str) → str_beq s s ≡ true
unfolding str_beq
str_beq_self [] = refl
str_beq_self (a ∷ s) = ground (arith, str_beq_self s)

str_beq_of_eq : (s t : Str) → s ≡ t → str_beq s t ≡ true
str_beq_of_eq s t e = rw e (str_beq_self t)

pub str_beq_iff : (s t : Str) → (str_beq s t ≡ true) ↔ (s ≡ t)
str_beq_iff s t = (str_beq-eq s t, str_beq_of_eq s t)

instance abbrev pub nat_eq : Eq ℕ
nat_eq = record { beq = nat_beq; beq_iff = nat_beq_iff }

instance abbrev pub str_eq : Eq Str
str_eq = record { beq = str_beq; beq_iff = str_beq_iff }
