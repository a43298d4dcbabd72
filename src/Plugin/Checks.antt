-- ===== src/Plugin/Checks.antt =====
-- internal/plugin/schema_validate.go: the checks of one value. The text of an error is only logged,
-- so that a check answers a Boolean.
use remnaplus_alpine_node.Prelude.{
  Bool, true, false, not, ◌&&◌, List, [], ◌∷◌, if◌then◌else◌, nat_beq, leb, Str, str_eq, nat_eq,
  ◌==◌, lit, Option, none, some, length,
}
use remnaplus_alpine_node.Prelude.Int.{ℤ, pos, negsuc}
use remnaplus_alpine_node.Prelude.Map.{has, is_some}
use remnaplus_alpine_node.Prelude.Text.{has_prefix, trim_space}
use remnaplus_alpine_node.Prelude.Json.{
  Json, null, str, arr, obj, Fields, get, exists_key, as_bool, to_list,
}
use remnaplus_alpine_node.Plugin.Lists.{as_int, parse_asn}

unfoldable pub every : (Json → Bool) → List Json → Bool
every check [] = true
every check (item ∷ items) = check item && every check items

-- An array each of whose items passes.
unfoldable pub validate_array : (Json → Bool) → Json → Bool
unfolding every
validate_array check (arr items) = every check (to_list items)
validate_array check _ = false

-- validateStringArray
abbrev pub string_item : (Str → Bool) → Json → Bool
string_item check (str value) = check value
string_item check _ = false

unfoldable pub validate_string_array : (Str → Bool) → Json → Bool
unfolding validate_array
validate_string_array check = validate_array (string_item check)

-- validateASNArray
unfoldable pub validate_asn_array : Json → Bool
unfolding validate_array
validate_asn_array = validate_array (λ item. is_some (parse_asn item))

-- isIntNumber
unfoldable pub is_int_number : Json → Bool
is_int_number value = is_some (as_int value)

-- validateIntArray
unfoldable pub validate_int_array : Json → Bool
unfolding validate_array is_int_number
validate_int_array = validate_array is_int_number

unfoldable pub is_port : Option ℤ → Bool
is_port none = false
is_port (some (pos n)) = leb 1 n && leb n 65535
is_port (some (negsuc n)) = false

-- validatePortArray
unfoldable pub validate_port_array : Json → Bool
unfolding validate_array is_port
validate_port_array = validate_array (λ item. is_port (as_int item))

-- A section that may be left out; what is there must be an object.
unfoldable pub validate_section : (Fields → Bool) → Json → Bool
validate_section check null = true
validate_section check (obj section) = check section
validate_section check _ = false

-- A check of a key that may be left out.
unfoldable pub if_exists : Str → (Json → Bool) → Fields → Bool
if_exists key check section = if exists_key key section then check (get key section) else true

unfoldable pub bool_at : Str → Fields → Bool
bool_at key section = is_some (as_bool (get key section))

unfoldable pub string_array_at_least_one : Json → Bool
unfolding validate_array
string_array_at_least_one tags = nonempty tags && validate_array (string_item (λ s. true)) tags
  where
    nonempty : Json → Bool
    nonempty (arr items) = not (nat_beq (length (to_list items)) 0)
    nonempty _ = false

-- The path of a socket to clean up: absolute, and no null byte.
unfoldable pub is_socket_path : Str → Bool
is_socket_path item =
    let path = trim_space item in not (path == []) && has_prefix path (lit "/") && not (has 0 path)

unfoldable pub validate_cleanup_files : Json → Bool
unfolding validate_array is_socket_path
validate_cleanup_files files = few files && validate_array (string_item is_socket_path) files
  where
    few : Json → Bool
    few (arr items) = leb (length (to_list items)) 64
    few _ = false

unfoldable pub validate_cleanup_sockets : Fields → Bool
unfolding bool_at validate_cleanup_files
validate_cleanup_sockets cleanup =
    bool_at (lit "enabled") cleanup && validate_cleanup_files (get (lit "files") cleanup)

unfoldable pub pre_start_ok : Fields → Bool
unfolding if_exists validate_section validate_cleanup_sockets
pre_start_ok section =
    if_exists (lit "enabled") (λ value. is_some (as_bool value)) section
    && validate_section validate_cleanup_sockets (get (lit "cleanupSockets") section)

-- validatePreStartSection
unfoldable pub validate_pre_start_section : Json → Bool
unfolding validate_section pre_start_ok
validate_pre_start_section = validate_section pre_start_ok

abbrev pub object_item : (Fields → Bool) → Json → Bool
object_item check (obj entry) = check entry
object_item check _ = false
