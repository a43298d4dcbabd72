-- ===== src/Plugin/Settings.antt =====
-- internal/plugin: state.go, torrent.go and prestart.go, what the node remembers of the plugins.
use remnaplus_alpine_node.Prelude.{
  ℕ, Bool, true, false, not, ◌||◌, ◌&&◌, List, [], ◌∷◌, ◌++◌, if◌then◌else◌, ltb, Str, str_eq, ◌==◌,
  lit, Option, none, some,
}
use remnaplus_alpine_node.Prelude.Int.{ℤ, pos, negsuc}
use remnaplus_alpine_node.Prelude.Map.{has, add}
use remnaplus_alpine_node.Prelude.Text.{trim_space}
use remnaplus_alpine_node.Prelude.Json.{Json, num, obj, Number, Fields, end, get, bool_or_false}
use remnaplus_alpine_node.Plugin.{
  Library, SyncPlugin, State, TorrentReport, TorrentSettings, PreStartSettings, AsnResolver,
}
use remnaplus_alpine_node.Plugin.Lists.{
  to_string_slice, to_int_string_slice, int_of, resolve_ip_list, build_shared_ip_map,
}
use remnaplus_alpine_node.Plugin.Hash.{hash_plugin_config, extract_plugin_config}

-- A set made of the members of a list.
unfoldable pub set_of : List Str → List Str → List Str
set_of [] set = set
set_of (s ∷ ss) set = set_of ss (add s set)

abbrev pub no_torrent_settings : TorrentSettings
no_torrent_settings = record {
  enabled = false;
  block_duration = pos 0;
  include_rule_tags = [];
  ignored_ips = [];
  ignored_users = [];
}

abbrev pub no_pre_start_settings : PreStartSettings
no_pre_start_settings = record { enabled = false; cleanup_enabled = false; files = [] }

-- NewState, and SetASNResolver
abbrev pub new_state : Option AsnResolver → State
new_state resolver = record {
  config_hash = [];
  plugin_uuid = [];
  plugin_name = [];
  has_active = false;
  whitelist_ips = [];
  reports = [];
  torrent = no_torrent_settings;
  pre_start = no_pre_start_settings;
  asn = resolver;
}

-- State.IsWhitelisted
unfoldable pub is_whitelisted : State → Str → Bool
is_whitelisted s ip = has ip s.whitelist_ips

-- State.FlushReports
unfoldable pub flush_reports : State → List TorrentReport × State
flush_reports s = (s.reports, record s { reports = [] })

-- State.AddReport
unfoldable pub add_report : TorrentReport → State → State
add_report report s = record s { reports = s.reports ++ report ∷ [] }

-- State.Reset
unfoldable pub reset : State → State
reset s = record {
  config_hash = [];
  plugin_uuid = [];
  plugin_name = [];
  has_active = false;
  whitelist_ips = [];
  reports = [];
  torrent = no_torrent_settings;
  pre_start = no_pre_start_settings;
  asn = s.asn;
}

-- `value > 0`
unfoldable pub is_positive : Number → Bool
is_positive n = not n.negative && (ltb 0 n.whole || n.fractional)

unfoldable pub duration_of : Json → ℤ
unfolding int_of is_positive
duration_of (num n) = if is_positive n then int_of n else pos 300
duration_of _ = pos 300

unfoldable pub ignored_ips_of : Json → List (Str × List Str) → List Str
unfolding set_of resolve_ip_list to_string_slice
ignored_ips_of (obj ignore_lists) shared =
    set_of (resolve_ip_list (to_string_slice (get (lit "ip") ignore_lists)) shared) []
ignored_ips_of _ shared = []

unfoldable pub ignored_users_of : Json → List Str
unfolding set_of to_int_string_slice
ignored_users_of (obj ignore_lists) =
    set_of (to_int_string_slice (get (lit "userId") ignore_lists)) []
ignored_users_of _ = []

-- State.configureTorrentBlocker; a section that is not an object gives the defaults.
unfoldable pub torrent_of : Json → List (Str × List Str) → TorrentSettings
unfolding duration_of ignored_ips_of ignored_users_of
torrent_of (obj blocker) shared =
    if bool_or_false (get (lit "enabled") blocker)
    then record {
      enabled = true;
      block_duration = duration_of (get (lit "blockDuration") blocker);
      include_rule_tags = to_string_slice (get (lit "includeRuleTags") blocker);
      ignored_ips = ignored_ips_of (get (lit "ignoreLists") blocker) shared;
      ignored_users = ignored_users_of (get (lit "ignoreLists") blocker);
    }
    else no_torrent_settings
torrent_of _ shared = no_torrent_settings

unfoldable pub configure_torrent_blocker : Fields → List (Str × List Str) → State → State
unfolding torrent_of
configure_torrent_blocker raw_config shared s = record s {
  torrent = torrent_of (get (lit "torrentBlocker") raw_config) shared;
}

unfoldable pub trimmed_files : List Str → List Str
trimmed_files [] = []
trimmed_files (file ∷ files) =
    let rest = trimmed_files files in if trim_space file == [] then rest else trim_space file ∷ rest

unfoldable pub with_cleanup : Json → PreStartSettings → PreStartSettings
unfolding trimmed_files to_string_slice
with_cleanup (obj cleanup) p = record p {
  cleanup_enabled = bool_or_false (get (lit "enabled") cleanup);
  files = trimmed_files (to_string_slice (get (lit "files") cleanup));
}
with_cleanup _ p = p

unfoldable pub pre_start_of : Json → PreStartSettings
unfolding with_cleanup
pre_start_of (obj section) =
    with_cleanup (get (lit "cleanupSockets") section)
      (record no_pre_start_settings { enabled = bool_or_false (get (lit "enabled") section) })
pre_start_of _ = no_pre_start_settings

-- State.configurePreStart
unfoldable pub configure_pre_start : Fields → State → State
unfolding pre_start_of
configure_pre_start raw_config s = record s {
  pre_start = pre_start_of (get (lit "preStart") raw_config);
}

-- State.PreStartCleanupSockets
unfoldable pub pre_start_cleanup_sockets : State → Bool × List Str
pre_start_cleanup_sockets s =
    if not s.pre_start.enabled || not s.pre_start.cleanup_enabled
    then (false, [])
    else (true, s.pre_start.files)

unfoldable pub whitelist_of : Json → List (Str × List Str) → List Str
unfolding set_of resolve_ip_list to_string_slice
whitelist_of (obj connection_drop) shared =
    if bool_or_false (get (lit "enabled") connection_drop)
    then set_of
        (resolve_ip_list (to_string_slice (get (lit "whitelistIps") connection_drop)) shared) []
    else []
whitelist_of _ shared = []

-- A map that is nil reads as an empty one.
abbrev pub fields_or_empty : Option Fields → Fields
fields_or_empty none = end
fields_or_empty (some fields) = fields

-- State.torrentBlockDuration
unfoldable pub torrent_block_duration : State → ℕ
torrent_block_duration s = at_least_one s.torrent.block_duration
  where
    at_least_one : ℤ → ℕ
    at_least_one (pos n) = if ltb 0 n then n else 300
    at_least_one (negsuc n) = 300

abbrev pub default_ignored_ips : List Str
default_ignored_ips =
    lit "::"
    ∷ lit "::1"
    ∷ lit "0.0.0.0"
    ∷ lit "0.0.0.0/0"
    ∷ lit "127.0.0.0/8"
    ∷ lit "127.0.0.1"
    ∷ lit "255.255.255.255"
    ∷ []

-- State.isTorrentIPIgnored
unfoldable pub is_torrent_ip_ignored : State → Str → Bool
is_torrent_ip_ignored s ip = has ip default_ignored_ips || has ip s.torrent.ignored_ips

-- State.isTorrentUserIgnored
unfoldable pub is_torrent_user_ignored : State → Str → Bool
is_torrent_user_ignored s user_id = has user_id s.torrent.ignored_users

module _ (l : Library) where
  -- State.UpdateFromSync for a plugin: the new state, with `changed` and `accepted`
  unfoldable pub update_from_sync : SyncPlugin → State → (Bool × Bool) × State
  unfolding hash_plugin_config whitelist_of configure_torrent_blocker configure_pre_start
  update_from_sync plugin s =
      let hash = hash_plugin_config l plugin.config in
      let raw_config = fields_or_empty (extract_plugin_config l plugin) in
      let shared = build_shared_ip_map raw_config s.asn in
      if hash == s.config_hash && s.has_active then ((false, true), s) else (
        (true, true),
        configure_pre_start raw_config (
            configure_torrent_blocker raw_config shared (record s {
              config_hash = hash;
              has_active = true;
              plugin_uuid = plugin.uuid;
              plugin_name = plugin.name;
              whitelist_ips = whitelist_of (get (lit "connectionDrop") raw_config) shared;
            })),
      )
