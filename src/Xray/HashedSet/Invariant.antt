-- ===== src/Xray/HashedSet/Invariant.antt =====
-- The two words of a `HashedSet` are the exclusive or of its members' hashes, after every operation.
use remnaplus_alpine_node.Prelude.{
  ℕ, ◌≡◌, refl, true, false, not, ◌&&◌, ◌||◌, List, [], ◌∷◌, arith, Str, str_eq, ◌==◌, str_beq_iff,
}
use remnaplus_alpine_node.Prelude.Map.{
  has, Distinct, has-add, has-discard, add-Distinct, discard-Distinct, discard-add,
}
use remnaplus_alpine_node.Prelude.Bits.{xor_cancel}
use remnaplus_alpine_node.Xray.HashedSet.{
  HashedSet, empty, djb2_dual, add_value, delete_value, add_all, new_hashed_set, hash64_string,
}
use remnaplus_alpine_node.Xray.HashedSet.XorAll.{
  SameMembers, xor_all, xor_all-add, xor_all-discard, xor_all_same,
}

abbrev pub high_of : Str → ℕ
high_of k = (djb2_dual k).0

abbrev pub low_of : Str → ℕ
low_of k = (djb2_dual k).1

pub record IsValid (s : HashedSet) : Type 0 where
  pub distinct : Distinct s.members
  pub high : s.hash_high ≡ xor_all high_of s.members
  pub low : s.hash_low ≡ xor_all low_of s.members

pub empty-IsValid : IsValid empty
unfolding xor_all
empty-IsValid = record { distinct = tt; high = refl; low = refl }

pub add_value-IsValid : (s : HashedSet) (value : Str) → IsValid s → IsValid (add_value s value)
unfolding add_value
add_value-IsValid s value v = ground (
  arith,
  add-Distinct value s.members v.distinct,
  xor_all-add high_of value s.members,
  xor_all-add low_of value s.members,
)

pub delete_value-IsValid :
    (s : HashedSet) (value : Str) → IsValid s → IsValid (delete_value s value).0
unfolding delete_value
delete_value-IsValid s value v = ground (
  arith,
  discard-Distinct value s.members v.distinct,
  xor_all-discard high_of value s.members v.distinct,
  xor_all-discard low_of value s.members v.distinct,
)

pub has-add_value :
    (s : HashedSet) (k value : Str)
    → has k (add_value s value).members ≡ (value == k || has k s.members)
unfolding add_value
has-add_value s k value = ground (arith, has-add k value s.members, str_beq_iff value k)

pub has-delete_value :
    (s : HashedSet) (k value : Str)
    → has k (delete_value s value).0.members ≡ (not (value == k) && has k s.members)
unfolding delete_value
has-delete_value s k value = ground (arith, has-discard k value s.members, str_beq_iff value k)

pub add_all-IsValid : (items : List Str) (s : HashedSet) → IsValid s → IsValid (add_all s items)
add_all-IsValid [] s v = v
add_all-IsValid (item ∷ items) s v =
    add_all-IsValid items (add_value s item) (add_value-IsValid s item v)

has-add_all :
    (items : List Str) (s : HashedSet) (k : Str)
    → has k (add_all s items).members ≡ (has k items || has k s.members)
unfolding has
has-add_all [] s k = refl
has-add_all (item ∷ items) s k =
    ground (arith, has-add_all items (add_value s item) k, has-add_value s k item)

pub has-new_hashed_set :
    (items : List Str) (k : Str) → has k (new_hashed_set items).members ≡ has k items
unfolding new_hashed_set has
has-new_hashed_set items k = ground (arith, has-add_all items empty k)

pub new_hashed_set-IsValid : (items : List Str) → IsValid (new_hashed_set items)
unfolding new_hashed_set
new_hashed_set-IsValid items = add_all-IsValid items empty empty-IsValid

-- Adding a string that is not a member and deleting it again gives the set back, with both of its
-- hash words, and the deletion reports that it found the string.
pub delete_value-add_value :
    (s : HashedSet) (value : Str)
    → has value s.members ≡ false
    → delete_value (add_value s value) value ≡ (s, true)
unfolding delete_value add_value
delete_value-add_value s value h = ground (
  arith,
  has-add value value s.members,
  str_beq_iff value value,
  discard-add value s.members h,
  xor_cancel s.hash_high (high_of value),
  xor_cancel s.hash_low (low_of value),
)

-- Two sets that satisfy the invariant and have the same members have the same hash string, in
-- whatever order and through whatever additions and deletions each was built.
pub hash64_string_same :
    (s t : HashedSet)
    → IsValid s
    → IsValid t
    → SameMembers s.members t.members
    → hash64_string s ≡ hash64_string t
unfolding hash64_string
hash64_string_same s t vs vt h = cc (
  vs.high,
  vs.low,
  vt.high,
  vt.low,
  xor_all_same high_of s.members t.members vs.distinct vt.distinct h,
  xor_all_same low_of s.members t.members vs.distinct vt.distinct h,
)
