-- ===== src/Xray/HashedSet/XorAll.antt =====
-- The exclusive or of the hashes of a list of members: what `HashedSet` keeps in its two words.
use remnaplus_alpine_node.Prelude.{
  ℕ, ◌^◌, ◌<◌, bit_xor, ◌≡◌, refl, true, false, List, [], ◌∷◌, arith, Str, str_eq, str_beq_iff,
}
use remnaplus_alpine_node.Prelude.Map.{
  has, add, discard, Distinct, has-discard, discard_of_not_has, discard-Distinct, beq_self,
}
use remnaplus_alpine_node.Prelude.Bits.{xor_cancel, xor_right_comm, xor-lt}

-- Two lists hold the same strings.
abbrev pub SameMembers : List Str → List Str → Type 0
SameMembers s t = (k : Str) → has k s ≡ has k t

module _ (hash : Str → ℕ) where
  unfoldable pub xor_all : List Str → ℕ
  xor_all [] = 0
  xor_all (k ∷ s) = bit_xor (xor_all s) (hash k)

  pub xor_all-add :
      (k : Str) (s : List Str) → has k s ≡ false → xor_all (add k s) ≡ bit_xor (xor_all s) (hash k)
  unfolding xor_all add has
  xor_all-add k [] h = refl
  xor_all-add k (i ∷ s) h =
      ground (arith, xor_all-add k s, xor_right_comm (xor_all s) (hash k) (hash i))

  pub xor_all-discard :
      (k : Str) (s : List Str)
      → Distinct s
      → has k s ≡ true
      → xor_all (discard k s) ≡ bit_xor (xor_all s) (hash k)
  unfolding xor_all discard has
  xor_all-discard k [] d h = cc
  xor_all-discard k (i ∷ s) d h = ground (
    arith,
    str_beq_iff i k,
    discard_of_not_has k s,
    xor_cancel (xor_all s) (hash k),
    xor_right_comm (xor_all s) (hash k) (hash i),
    xor_all-discard k s d.1,
  )

  pub xor_all-lt : (s : List Str) → ((k : Str) → hash k < 2 ^ 32) → xor_all s < 2 ^ 32
  unfolding xor_all
  xor_all-lt [] h = omega arith
  xor_all-lt (k ∷ s) h = xor-lt 32 (xor_all s) (hash k) (xor_all-lt s h) (h k)

  nil_of_same : (t : List Str) → SameMembers [] t → xor_all [] ≡ xor_all t
  unfolding has
  nil_of_same [] h = refl
  nil_of_same (j ∷ t) h = ground (arith, h j, beq_self j)

  -- A member taken out of both sides leaves the same members.
  tail_same :
      (i : Str) (s t : List Str)
      → has i s ≡ false
      → SameMembers (i ∷ s) t
      → SameMembers s (discard i t)
  unfolding has
  tail_same i s t d h k = ground (arith, h k, has-discard k i t, str_beq_iff i k)

  pub xor_all_same :
      (s t : List Str) → Distinct s → Distinct t → SameMembers s t → xor_all s ≡ xor_all t
  unfolding xor_all has
  xor_all_same [] t ds dt h = nil_of_same t h
  xor_all_same (i ∷ s) t ds dt h = cc (
    xor_all_same s (discard i t) ds.1 (discard-Distinct i t dt) (tail_same i s t ds.0 h),
    xor_all-discard i t dt (ground (arith, h i, beq_self i)),
    xor_cancel (xor_all t) (hash i),
  )
