-- ===== src/Prelude/Text.antt =====
-- The functions of Go's standard library on strings that the node uses.
use remnaplus_alpine_node.Prelude.{str_beq}
use remnaplus_alpine_node.Prelude.Lists.{length}
use mathlib.Core.Path.{◌≡◌, refl}
use Prim.Native.Nat.{ℕ, zero, suc, ◌+◌, ◌-◌, ◌*◌, ◌/◌, ◌%◌}
use mathlib.Core.Bool.{Bool, true, false, ◌&&◌, ◌||◌}
use mathlib.Core.List.{List, [], ◌∷◌, ◌++◌}
use remnaplus_alpine_node.Prelude.Tests.{ltb, leb, nat_beq, if◌then◌else◌}
use remnaplus_alpine_node.Prelude.Equality.{Str, lit, str_eq, ◌==◌}

-- `[]rune(s)`: UTF-8, where each byte of an invalid sequence gives U+FFFD.
within : ℕ → ℕ → ℕ → Bool
within lo hi c = leb lo c && leb c hi

unfoldable pub byte_at : ℕ → Str → ℕ
byte_at i [] = 0
byte_at zero (b ∷ s) = b
byte_at (suc i) (b ∷ s) = byte_at i s

second_lo : ℕ → ℕ
second_lo b =
    if leb b 0xe0 then 0xa0 else if leb b 0xef then 0x80 else if leb b 0xf0 then 0x90 else 0x80

second_hi : ℕ → ℕ
second_hi b = if leb 0xf4 b then 0x8f else 0xbf

third_hi : ℕ → ℕ
third_hi b = if leb 0xed b && leb b 0xed then 0x9f else 0xbf

-- The first rune of a string and how many bytes it takes after the first.
decode_rune : ℕ → Str → ℕ × ℕ
unfolding within byte_at second_lo second_hi third_hi
decode_rune b s =
    if ltb b 0x80
    then (b, 0)
    else if within 0xc2 0xdf b && within 0x80 0xbf (byte_at 0 s)
    then ((b - 0xc0) * 64 + (byte_at 0 s - 0x80), 1)
    else if within 0xe0 0xef b
        && within (second_lo b) (third_hi b) (byte_at 0 s)
        && within 0x80 0xbf (byte_at 1 s)
    then ((b - 0xe0) * 4096 + (byte_at 0 s - 0x80) * 64 + (byte_at 1 s - 0x80), 2)
    else if within 0xf0 0xf4 b
        && within (second_lo b) (second_hi b) (byte_at 0 s)
        && within 0x80 0xbf (byte_at 1 s)
        && within 0x80 0xbf (byte_at 2 s)
    then (
      (b - 0xf0) * 262144
          + (byte_at 0 s - 0x80) * 4096
          + (byte_at 1 s - 0x80) * 64
          + (byte_at 2 s - 0x80),
      3,
    )
    else (0xfffd, 0)

runes_after : ℕ → Str → List ℕ
unfolding decode_rune
runes_after n [] = []
runes_after (suc n) (b ∷ s) = runes_after n s
runes_after zero (b ∷ s) = (decode_rune b s).0 ∷ runes_after (decode_rune b s).1 s

unfoldable pub runes : Str → List ℕ
unfolding runes_after
runes s = runes_after 0 s

-- `utf16.Encode`
utf16_of : ℕ → List ℕ
utf16_of r =
    if ltb r 0xd800
    then r ∷ []
    else if ltb r 0xe000
    then 0xfffd ∷ []
    else if ltb r 0x10000
    then r ∷ []
    else if leb r 0x10ffff
    then (0xd800 + (r - 0x10000) / 1024) ∷ (0xdc00 + (r - 0x10000) % 1024) ∷ []
    else 0xfffd ∷ []

unfoldable pub utf16_encode : List ℕ → List ℕ
unfolding utf16_of
utf16_encode [] = []
utf16_encode (r ∷ rs) = utf16_of r ++ utf16_encode rs

-- `strconv.FormatUint(n, base)` for bases up to 16; 64 digits are enough for 64 bits.
digit : ℕ → ℕ
digit d = if ltb d 10 then b'0' + d else b'a' + (d - 10)

format_digits : ℕ → ℕ → ℕ → Str → Str
format_digits zero base n acc = acc
format_digits (suc f) base n acc =
    let more = format_digits f base (n / base) (digit (n % base) ∷ acc) in
    if ltb n base then digit n ∷ acc else more

unfoldable pub format_uint : ℕ → ℕ → Str
unfolding format_digits digit
format_uint base n = format_digits 64 base n []

-- `strings.Repeat(s, n)`
unfoldable pub repeat_str : Str → ℕ → Str
repeat_str s zero = []
repeat_str s (suc n) = s ++ repeat_str s n

-- `strings.HasPrefix(s, prefix)`
unfoldable pub has_prefix : Str → Str → Bool
has_prefix s [] = true
has_prefix [] (b ∷ prefix) = false
has_prefix (a ∷ s) (b ∷ prefix) = nat_beq a b && has_prefix s prefix

-- `strings.HasSuffix(s, suffix)`
unfoldable pub has_suffix : Str → Str → Bool
has_suffix [] suffix = suffix == []
has_suffix (c ∷ s) suffix = (c ∷ s) == suffix || has_suffix s suffix

-- `strings.Contains(s, sub)`
unfoldable pub contains : Str → Str → Bool
unfolding has_prefix
contains [] sub = has_prefix [] sub
contains (a ∷ s) sub = has_prefix (a ∷ s) sub || contains s sub

-- `strings.ToLower(s)`, for ASCII text
unfoldable pub to_lower : Str → Str
unfolding within
to_lower [] = []
to_lower (a ∷ s) = (if within b'A' b'Z' a then a + 32 else a) ∷ to_lower s

-- A white space character of ASCII.
unfoldable pub is_space : ℕ → Bool
unfolding within
is_space c = within 9 13 c || nat_beq c b' '

-- The first bytes of the UTF-8 text of the other white space of Unicode.
abbrev pub starts_space : ℕ → Bool
starts_space a = nat_beq a 194 || nat_beq a 225 || nat_beq a 226 || nat_beq a 227

abbrev is_space_2 : ℕ → ℕ → Bool
is_space_2 a b = nat_beq a 194 && (nat_beq b 133 || nat_beq b 160)

abbrev is_space_3 : ℕ → ℕ → ℕ → Bool
is_space_3 a b c =
    (nat_beq a 225 && nat_beq b 154 && nat_beq c 128)
    || (nat_beq a 226
        && nat_beq b 128
        && ((leb 128 c && leb c 138) || nat_beq c 168 || nat_beq c 169 || nat_beq c 175))
    || (nat_beq a 226 && nat_beq b 129 && nat_beq c 159)
    || (nat_beq a 227 && nat_beq b 128 && nat_beq c 128)

-- How many bytes the white space character at the front has, if there is one.
unfoldable pub space_width : Str → ℕ
unfolding is_space
space_width [] = 0
space_width (a ∷ []) = if is_space a then 1 else 0
space_width (a ∷ b ∷ []) = if is_space a then 1 else if is_space_2 a b then 2 else 0
space_width (a ∷ b ∷ c ∷ s) =
    if is_space a then 1 else if is_space_2 a b then 2 else if is_space_3 a b c then 3 else 0

-- `skip` bytes of the character just found are still to be passed over.
unfoldable pub trim_left_from : ℕ → Str → Str
unfolding space_width
trim_left_from skip [] = []
trim_left_from (suc skip) (c ∷ s) = trim_left_from skip s
trim_left_from zero (c ∷ s) =
    let width = space_width (c ∷ s) in
    let rest = trim_left_from (width - 1) s in if nat_beq width 0 then c ∷ s else rest

unfoldable pub trim_left : Str → Str
unfolding trim_left_from
trim_left s = trim_left_from 0 s

-- What is white space up to the end goes.
unfoldable pub trim_right : Str → Str
unfolding trim_left
trim_right [] = []
trim_right (c ∷ s) = let rest = trim_right s in if trim_left (c ∷ s) == [] then [] else c ∷ rest

-- strings.TrimSpace
unfoldable pub trim_space : Str → Str
unfolding trim_left trim_right
trim_space s = trim_left (trim_right s)

-- A no-break space and an em space go, a letter that begins with the same byte stays.
trimmed_unicode :
    trim_space (194 ∷ 160 ∷ 226 ∷ 128 ∷ 148 ∷ 97 ∷ 32 ∷ 226 ∷ 128 ∷ 131 ∷ [])
    ≡ 226 ∷ 128 ∷ 148 ∷ 97 ∷ []
unfolding trim_space str_beq
trimmed_unicode = refl

trimmed : trim_space (lit " a b\n") ≡ lit "a b"
unfolding trim_space str_beq
trimmed = refl

-- `strings.Split(s, sep)`, for a separator that is not empty; `skip` bytes of the one just found are
-- still to be passed over.
unfoldable pub split_loop : Str → ℕ → Str → Str → List Str
split_loop sep skip part [] = part ∷ []
split_loop sep (suc skip) part (a ∷ s) = split_loop sep skip part s
split_loop sep zero part (a ∷ s) =
    let next = split_loop sep (length sep - 1) [] s in
    let more = split_loop sep zero (part ++ a ∷ []) s in
    if has_prefix (a ∷ s) sep then part ∷ next else more

unfoldable pub split : Str → Str → List Str
unfolding split_loop has_prefix
split s sep = split_loop sep 0 [] s

splits : split (lit "user>>>>a>>>uplink") (lit ">>>") ≡ lit "user" ∷ lit ">a" ∷ lit "uplink" ∷ []
unfolding split
splits = refl

-- `base64.StdEncoding.EncodeToString(s)`
base64_char : ℕ → ℕ
base64_char n =
    if ltb n 26
    then b'A' + n
    else if ltb n 52
    then b'a' + (n - 26)
    else if ltb n 62
    then b'0' + (n - 52)
    else if nat_beq n 62
    then b'+'
    else b'/'

unfoldable pub base64_encode : Str → Str
unfolding base64_char
base64_encode [] = []
base64_encode (a ∷ []) = base64_char (a / 4) ∷ base64_char (a % 4 * 16) ∷ b'=' ∷ b'=' ∷ []
base64_encode (a ∷ b ∷ []) =
    base64_char (a / 4) ∷ base64_char (a % 4 * 16 + b / 16) ∷ base64_char (b % 16 * 4) ∷ b'=' ∷ []
base64_encode (a ∷ b ∷ c ∷ s) =
    base64_char (a / 4)
    ∷ base64_char (a % 4 * 16 + b / 16)
    ∷ base64_char (b % 16 * 4 + c / 64)
    ∷ base64_char (c % 64)
    ∷ base64_encode s

base64 : base64_encode (lit "hello") ≡ lit "aGVsbG8="
unfolding base64_encode
base64 = refl

emoji :
    utf16_encode (runes (0xf0 ∷ 0x9f ∷ 0x98 ∷ 0x80 ∷ b'a' ∷ 0xff ∷ []))
    ≡ 0xd83d ∷ 0xde00 ∷ b'a' ∷ 0xfffd ∷ []
unfolding runes utf16_encode
emoji = refl

hex : format_uint 16 48879 ≡ lit "beef"
unfolding format_uint
hex = refl
