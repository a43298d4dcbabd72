-- ===== src/Plugin/Lists.antt =====
-- internal/plugin: state.go, torrent.go and asn.go, the lists that a config holds and how they are
-- read.
use remnaplus_alpine_node.Prelude.{
  ℕ, zero, suc, ◌+◌, ◌-◌, ◌*◌, Bool, not, ◌&&◌, ◌||◌, List, [], ◌∷◌, ◌++◌, if◌then◌else◌, ltb, leb,
  Str, str_eq, ◌==◌, lit, Option, none, some, drop, length,
}
use remnaplus_alpine_node.Prelude.Int.{ℤ, pos, negsuc}
use remnaplus_alpine_node.Prelude.Text.{has_prefix, format_uint, trim_space}
use remnaplus_alpine_node.Prelude.Map.{lookup, insert}
use remnaplus_alpine_node.Prelude.Json.{
  Json, null, bool, num, str, arr, obj, Number, Fields, get, str_or_empty, to_list,
}
use remnaplus_alpine_node.Plugin.{AsnResolver}

-- The strings among the items, less the empty ones.
unfoldable pub strings_of : List Json → List Str
strings_of [] = []
strings_of (str text ∷ items) =
    let rest = strings_of items in if text == [] then rest else text ∷ rest
strings_of (null ∷ items) = strings_of items
strings_of (bool b ∷ items) = strings_of items
strings_of (num n ∷ items) = strings_of items
strings_of (arr i ∷ items) = strings_of items
strings_of (obj f ∷ items) = strings_of items

-- toStringSlice; a nil slice and an empty one are not told apart.
unfoldable pub to_string_slice : Json → List Str
unfolding strings_of
to_string_slice (arr items) = strings_of (to_list items)
to_string_slice _ = []

-- `int(v)` of a float64 on amd64: the part before the point, or the least int64 where that does not
-- fit.
abbrev pub int64_limit : ℕ
int64_limit = 9223372036854775808

abbrev pub min_int64 : ℤ
min_int64 = negsuc 9223372036854775807

abbrev pub negate : ℕ → ℤ
negate zero = pos 0
negate (suc n) = negsuc n

unfoldable pub int_of : Number → ℤ
int_of n =
    if ltb n.whole int64_limit
    then (if n.negative then negate n.whole else pos n.whole)
    else min_int64

-- `v == float64(int(v))`
unfoldable pub is_int : Number → Bool
is_int n = not n.fractional && (ltb n.whole int64_limit || n.negative && leb n.whole int64_limit)

-- asInt; what `encoding/json` decodes is never an int or an int64.
unfoldable pub as_int : Json → Option ℤ
unfolding is_int int_of
as_int (num n) = if is_int n then some (int_of n) else none
as_int _ = none

-- `fmt.Sprintf("%d", n)`
unfoldable pub format_int : ℤ → Str
format_int (pos n) = format_uint 10 n
format_int (negsuc n) = b'-' ∷ format_uint 10 (suc n)

unfoldable pub int_strings : List Json → List Str
unfolding as_int format_int
int_strings [] = []
int_strings (item ∷ items) = with_int (as_int item) (int_strings items)
  where
    with_int : Option ℤ → List Str → List Str
    with_int none rest = rest
    with_int (some n) rest = format_int n ∷ rest

-- toIntStringSlice
unfoldable pub to_int_string_slice : Json → List Str
unfolding int_strings
to_int_string_slice (arr items) = int_strings (to_list items)
to_int_string_slice _ = []

unfoldable pub ints_of : List Json → List ℤ
unfolding int_of
ints_of [] = []
ints_of (num n ∷ items) = int_of n ∷ ints_of items
ints_of (null ∷ items) = ints_of items
ints_of (bool b ∷ items) = ints_of items
ints_of (str s ∷ items) = ints_of items
ints_of (arr i ∷ items) = ints_of items
ints_of (obj f ∷ items) = ints_of items

-- toIntSlice
unfoldable pub to_int_slice : Json → List ℤ
unfolding ints_of
to_int_slice (arr items) = ints_of (to_list items)
to_int_slice _ = []

-- `strconv.ParseUint(s, 10, 32)`, where a value that is out of range is an error.
abbrev pub max_asn : ℕ
max_asn = 4294967295

unfoldable pub digits_value : ℕ → Str → Option ℕ
digits_value acc [] = some acc
digits_value acc (c ∷ s) =
    let more = digits_value (acc * 10 + (c - b'0')) s in
    if leb b'0' c && leb c b'9' && leb (acc * 10 + (c - b'0')) max_asn then more else none

unfoldable pub parse_uint32 : Str → Option ℕ
unfolding digits_value
parse_uint32 [] = none
parse_uint32 (c ∷ s) = digits_value 0 (c ∷ s)

-- `strings.TrimPrefix(s, prefix)`
unfoldable pub trim_prefix : Str → Str → Str
trim_prefix s prefix = if has_prefix s prefix then drop (length prefix) s else s

unfoldable pub positive : Option ℕ → Option ℕ
positive none = none
positive (some n) = if ltb 0 n then some n else none

-- parseASN, for what `encoding/json` decodes
unfoldable pub parse_asn : Json → Option ℕ
unfolding positive parse_uint32 trim_prefix
parse_asn (num n) =
    if not n.negative && ltb 0 n.whole && leb n.whole max_asn && not n.fractional
    then some n.whole
    else none
parse_asn (str text) =
    positive (parse_uint32 (trim_prefix (trim_prefix (trim_space text) (lit "AS")) (lit "as")))
parse_asn _ = none

unfoldable pub asns_of : List Json → List ℕ
unfolding parse_asn
asns_of [] = []
asns_of (item ∷ items) = with_asn (parse_asn item) (asns_of items)
  where
    with_asn : Option ℕ → List ℕ → List ℕ
    with_asn none rest = rest
    with_asn (some n) rest = n ∷ rest

-- toASNSlice
unfoldable pub to_asn_slice : Json → List ℕ
unfolding asns_of
to_asn_slice (arr items) = asns_of (to_list items)
to_asn_slice _ = []

unfoldable pub prefixes_of : AsnResolver → List ℕ → List Str
prefixes_of resolver [] = []
prefixes_of resolver (asn ∷ asns) =
    (resolver asn).0 ++ (resolver asn).1 ++ prefixes_of resolver asns

-- resolveASList
unfoldable pub resolve_as_list : Json → Option AsnResolver → List Str
unfolding prefixes_of to_asn_slice
resolve_as_list raw none = []
resolve_as_list raw (some resolver) = prefixes_of resolver (to_asn_slice raw)

abbrev pub resolved : Option (List Str) → List Str → List Str
resolved none rest = rest
resolved (some ips) rest = ips ++ rest

-- resolveIPList
unfoldable pub resolve_ip_list : List Str → List (Str × List Str) → List Str
resolve_ip_list [] shared = []
resolve_ip_list (item ∷ items) shared =
    let rest = resolve_ip_list items shared in
    if has_prefix item (lit "ext:") then resolved (lookup item shared) rest else item ∷ rest

-- An entry of `sharedLists` in buildSharedIPMap.
unfoldable pub shared_entry :
    Fields → Option AsnResolver → List (Str × List Str) → List (Str × List Str)
unfolding to_string_slice resolve_as_list
shared_entry entry resolver shared =
    let name = str_or_empty (get (lit "name") entry) in
    let key = if has_prefix name (lit "ext:") then name else lit "ext:" ++ name in
    let type = str_or_empty (get (lit "type") entry) in
    if name == []
    then shared
    else if type == lit "ipList"
    then insert key (to_string_slice (get (lit "items") entry)) shared
    else if type == lit "asList"
    then insert key (resolve_as_list (get (lit "items") entry) resolver) shared
    else shared

unfoldable pub shared_entries :
    List Json → Option AsnResolver → List (Str × List Str) → List (Str × List Str)
unfolding shared_entry
shared_entries [] resolver shared = shared
shared_entries (obj entry ∷ items) resolver shared =
    shared_entries items resolver (shared_entry entry resolver shared)
shared_entries (null ∷ items) resolver shared = shared_entries items resolver shared
shared_entries (bool b ∷ items) resolver shared = shared_entries items resolver shared
shared_entries (num n ∷ items) resolver shared = shared_entries items resolver shared
shared_entries (str s ∷ items) resolver shared = shared_entries items resolver shared
shared_entries (arr i ∷ items) resolver shared = shared_entries items resolver shared

-- buildSharedIPMap
unfoldable pub build_shared_ip_map : Fields → Option AsnResolver → List (Str × List Str)
unfolding shared_entries
build_shared_ip_map raw_config resolver = listed (get (lit "sharedLists") raw_config)
  where
    listed : Json → List (Str × List Str)
    listed (arr items) = shared_entries (to_list items) resolver []
    listed _ = []
