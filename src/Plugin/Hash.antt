-- ===== src/Plugin/Hash.antt =====
-- internal/plugin/objecthash.go and validate.go: the text that a config is hashed by, and what
-- `encoding/json` decodes it to.
pub mod Joined
use remnaplus_alpine_node.Prelude.{
  not, ℕ, Bool, false, ◌||◌, ◌&&◌, List, [], ◌∷◌, ◌++◌, if◌then◌else◌, nat_beq, Str, str_eq, ◌==◌,
  lit, Option, none, some,
}
use remnaplus_alpine_node.Prelude.Text.{trim_space}
use remnaplus_alpine_node.Prelude.Json.{
  Json, null, bool, num, str, arr, obj, Items, nil, cons, Number, Fields, end, put,
}
use remnaplus_alpine_node.Plugin.{
  Library, Raw, raw_null, raw_bool, raw_number, raw_string, raw_array, raw_object, RawItems,
  no_items, raw_item, RawMembers, no_members, raw_member, SyncPlugin, State,
}

-- `\s` of a regular expression: tab, newline, form feed, carriage return and space
unfoldable pub is_blank : ℕ → Bool
is_blank c = nat_beq c 9 || nat_beq c 10 || nat_beq c 12 || nat_beq c 13 || nat_beq c b' '

-- `whitespacePattern.ReplaceAllString(value, " ")`: one space for a run of blanks. `after_blank` says
-- that the byte before was a blank.
unfoldable pub collapse : Bool → Str → Str
unfolding is_blank
collapse after_blank [] = []
collapse after_blank (c ∷ s) =
    let rest = collapse (is_blank c) s in
    if is_blank c then (if after_blank then rest else b' ' ∷ rest) else c ∷ rest

-- trimString
unfoldable pub trim_string : Str → Str
unfolding collapse
trim_string value = trim_space (collapse false value)

-- `strings.Join(parts, ",")`
unfoldable pub join : List Str → Str
join [] = []
join (part ∷ []) = part
join (part ∷ next ∷ parts) = part ++ b',' ∷ join (next ∷ parts)

-- stringifyToken, stringifyArray and stringifyObject
unfoldable mutual
  unfolding trim_string

  pub stringify_token : Raw → Str
  stringify_token raw_null = []
  stringify_token (raw_bool b) = if b then lit "1" else lit "0"
  stringify_token (raw_number text) = text
  stringify_token (raw_string value) = trim_string value
  stringify_token (raw_array items) = b'[' ∷ join (stringify_items items) ++ lit "]"
  stringify_token (raw_object members) = b'{' ∷ join (stringify_members members) ++ lit "}"

  pub stringify_items : RawItems → List Str
  stringify_items no_items = []
  stringify_items (raw_item value items) = stringify_token value ∷ stringify_items items

  pub stringify_members : RawMembers → List Str
  stringify_members no_members = []
  stringify_members (raw_member key value members) =
      (key ++ b':' ∷ stringify_token value) ∷ stringify_members members

-- `json.Unmarshal` into `any`, which fails where a number does not fit a float64. A key that
-- stands twice has its last value.
unfoldable pub with_value : Option Json → Option Items → Option Items
with_value (some value) (some items) = some (cons value items)
with_value none items = none
with_value (some value) none = none

unfoldable pub with_number : Option Number → Option Json
with_number none = none
with_number (some n) = some (num n)

unfoldable pub with_items : Option Items → Option Json
with_items none = none
with_items (some items) = some (arr items)

unfoldable pub with_fields : Option Fields → Option Json
with_fields none = none
with_fields (some fields) = some (obj fields)

unfoldable pub put_value : Str → Option Json → Option Fields → Option Fields
put_value key (some value) (some fields) = some (put key value fields)
put_value key none fields = none
put_value key (some value) none = none

unfoldable pub object_or_nil : Option Json → Option Fields
object_or_nil (some (obj fields)) = some fields
object_or_nil _ = none

module _ (l : Library) where
  -- hashPluginConfig; the config of a decoded request is JSON, so that no token is missing.
  unfoldable pub hash_plugin_config : Option Raw → Str
  unfolding stringify_token
  hash_plugin_config none = []
  hash_plugin_config (some raw_null) = []
  hash_plugin_config (some raw) = l.sha256_hex (stringify_token raw)

  -- isUnchangedPluginConfig, and pluginConfigHash
  unfoldable pub is_unchanged_plugin_config : SyncPlugin → State → Bool
  unfolding hash_plugin_config
  is_unchanged_plugin_config plugin state =
      let hash = hash_plugin_config plugin.config in
      not (hash == []) && hash == state.config_hash && state.has_active

  unfoldable mutual
    unfolding with_number with_items with_fields with_value put_value

    pub unmarshal : Raw → Option Json
    unmarshal raw_null = some null
    unmarshal (raw_bool b) = some (bool b)
    unmarshal (raw_number text) = with_number (l.parse_float text)
    unmarshal (raw_string value) = some (str value)
    unmarshal (raw_array items) = with_items (unmarshal_items items)
    unmarshal (raw_object members) = with_fields (unmarshal_members members (some end))

    pub unmarshal_items : RawItems → Option Items
    unmarshal_items no_items = some nil
    unmarshal_items (raw_item value items) = with_value (unmarshal value) (unmarshal_items items)

    pub unmarshal_members : RawMembers → Option Fields → Option Fields
    unmarshal_members no_members fields = fields
    unmarshal_members (raw_member key value members) fields =
        unmarshal_members members (put_value key (unmarshal value) fields)

  -- extractPluginConfig: a map that is nil is `none`.
  unfoldable pub extract_plugin_config : SyncPlugin → Option Fields
  unfolding unmarshal object_or_nil
  extract_plugin_config plugin = extracted plugin.config
    where
      extracted : Option Raw → Option Fields
      extracted none = none
      extracted (some raw) = object_or_nil (unmarshal raw)
