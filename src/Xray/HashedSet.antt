-- ===== src/Xray/HashedSet.antt =====
-- internal/xray/hashedset.go: a set of strings with the exclusive or of their hashes.
pub mod XorAll
pub mod Invariant
pub mod Tracks
use remnaplus_alpine_node.Prelude.{
  ℕ, ◌+◌, ◌-◌, ◌*◌, ◌%◌, ◌^◌, bit_xor, ◌≡◌, refl, Bool, true, false, List, [], ◌∷◌, ◌++◌, ltb,
  if◌then◌else◌, Str, str_eq, lit, length,
}
use remnaplus_alpine_node.Prelude.Map.{has, add, discard}
use remnaplus_alpine_node.Prelude.Sort.{sort_strings}
use remnaplus_alpine_node.Prelude.Text.{runes, utf16_encode, format_uint, repeat_str}

pub record HashedSet : Type 0 where
  pub members : List Str
  pub hash_high : ℕ
  pub hash_low : ℕ

-- uint32 arithmetic
abbrev word32 : ℕ → ℕ
word32 n = n % 2 ^ 32

djb2_loop : ℕ → ℕ → List ℕ → ℕ × ℕ
djb2_loop high low [] = (high, low)
djb2_loop high low (unit ∷ units) =
    djb2_loop (word32 (word32 (word32 (high * 2 ^ 5) + high) + unit))
      (word32 (word32 (word32 (low * 2 ^ 6) + low) + word32 (unit * 37))) units

unfoldable pub djb2_dual : Str → ℕ × ℕ
unfolding djb2_loop
djb2_dual value = djb2_loop 5381 5387 (utf16_encode (runes value))

abbrev pub empty : HashedSet
empty = record { members = []; hash_high = 0; hash_low = 0 }

unfoldable pub add_value : HashedSet → Str → HashedSet
add_value s value = if has value s.members then s else record {
  members = add value s.members;
  hash_high = bit_xor s.hash_high (djb2_dual value).0;
  hash_low = bit_xor s.hash_low (djb2_dual value).1;
}

unfoldable pub delete_value : HashedSet → Str → HashedSet × Bool
delete_value s value =
    if has value s.members
    then (
      record {
        members = discard value s.members;
        hash_high = bit_xor s.hash_high (djb2_dual value).0;
        hash_low = bit_xor s.hash_low (djb2_dual value).1;
      },
      true,
    )
    else (s, false)

abbrev add_all : HashedSet → List Str → HashedSet
add_all s [] = s
add_all s (item ∷ items) = add_all (add_value s item) items

unfoldable pub new_hashed_set : List Str → HashedSet
new_hashed_set items = add_all empty items

unfoldable pub size : HashedSet → ℕ
size s = length s.members

-- `strconv.FormatInt(int64(int32(value)), 16)`, padded on the left to eight characters
signed_hex : ℕ → Str
signed_hex value =
    if ltb value (2 ^ 31) then format_uint 16 value else b'-' ∷ format_uint 16 (2 ^ 32 - value)

hash_word : ℕ → Str
unfolding signed_hex
hash_word value =
    let text = signed_hex value in
    if ltb (length text) 8 then repeat_str (lit "0") (8 - length text) ++ text else text

unfoldable pub hash64_string : HashedSet → Str
unfolding hash_word
hash64_string s = hash_word s.hash_high ++ hash_word s.hash_low

unfoldable pub hash64_from_items : List Str → Str
hash64_from_items items = hash64_string (new_hashed_set (sort_strings items))
