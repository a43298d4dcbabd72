-- ===== src/Plugin/Validate.antt =====
-- internal/plugin/schema_validate.go and validate.go: which configs are valid. The text of an error
-- is only logged, so that a check answers a Boolean.
pub mod Lossless
use remnaplus_alpine_node.Prelude.{
  Bool, true, false, not, ◌||◌, ◌&&◌, if◌then◌else◌, ltb, Str, str_eq, ◌==◌, lit, Option, none,
  some, length,
}
use remnaplus_alpine_node.Prelude.Map.{is_some}
use remnaplus_alpine_node.Prelude.Text.{has_prefix, contains}
use remnaplus_alpine_node.Prelude.Json.{Json, null, obj, Fields, get, str_or_empty}
use remnaplus_alpine_node.Plugin.{Library}
use remnaplus_alpine_node.Plugin.Checks.{
  validate_array, validate_string_array, validate_asn_array, is_int_number, validate_int_array,
  validate_port_array, validate_section, if_exists, bool_at, string_array_at_least_one,
  validate_pre_start_section, object_item,
}

module _ (l : Library) where
  -- isPlainIP
  unfoldable pub is_plain_ip : Str → Bool
  is_plain_ip value = is_some (l.parse_ip value)

  -- isIPv4CIDR, isIPv6CIDR
  unfoldable pub is_ipv4_cidr : Str → Bool
  is_ipv4_cidr value = answered (l.parse_cidr value)
    where
      answered : Option Bool → Bool
      answered none = false
      answered (some is_v4) = is_v4 && contains value (lit ".")

  unfoldable pub is_ipv6_cidr : Str → Bool
  is_ipv6_cidr value = answered (l.parse_cidr value)
    where
      answered : Option Bool → Bool
      answered none = false
      answered (some is_v4) = not is_v4 && contains value (lit ":")

  -- isSharedListItem
  unfoldable pub is_shared_list_item : Str → Bool
  unfolding is_plain_ip is_ipv4_cidr is_ipv6_cidr
  is_shared_list_item value = is_plain_ip value || is_ipv4_cidr value || is_ipv6_cidr value

  -- isIPCidrOrExt
  unfoldable pub is_ip_cidr_or_ext : Str → Bool
  unfolding is_plain_ip is_ipv4_cidr is_ipv6_cidr
  is_ip_cidr_or_ext value =
      if has_prefix value (lit "ext:")
      then ltb 4 (length value)
      else is_plain_ip value || is_ipv4_cidr value || is_ipv6_cidr value

  -- isIPOrExt
  unfoldable pub is_ip_or_ext : Str → Bool
  unfolding is_plain_ip
  is_ip_or_ext value =
      if has_prefix value (lit "ext:") then ltb 4 (length value) else is_plain_ip value

  -- An entry of validateSharedLists
  unfoldable pub shared_list_ok : Fields → Bool
  unfolding is_shared_list_item validate_string_array validate_asn_array
  shared_list_ok entry =
      let type = str_or_empty (get (lit "type") entry) in
      has_prefix (str_or_empty (get (lit "name") entry)) (lit "ext:")
      && (if type == lit "ipList"
          then validate_string_array is_shared_list_item (get (lit "items") entry)
          else if type == lit "asList"
          then validate_asn_array (get (lit "items") entry)
          else false)

  -- validateSharedLists
  unfoldable pub validate_shared_lists : Json → Bool
  unfolding shared_list_ok validate_array
  validate_shared_lists null = true
  validate_shared_lists raw = validate_array (object_item shared_list_ok) raw

  unfoldable pub ingress_ok : Fields → Bool
  unfolding bool_at validate_string_array is_ip_cidr_or_ext
  ingress_ok section =
      bool_at (lit "enabled") section
      && validate_string_array is_ip_cidr_or_ext (get (lit "blockedIps") section)

  -- validateIngressFilterSection
  unfoldable pub validate_ingress_filter_section : Json → Bool
  unfolding validate_section ingress_ok
  validate_ingress_filter_section = validate_section ingress_ok

  unfoldable pub egress_ok : Fields → Bool
  unfolding bool_at if_exists validate_string_array is_ip_cidr_or_ext validate_port_array
  egress_ok section =
      bool_at (lit "enabled") section
      && if_exists (lit "blockedIps") (validate_string_array is_ip_cidr_or_ext) section
      && if_exists (lit "blockedPorts") validate_port_array section

  -- validateEgressFilterSection
  unfoldable pub validate_egress_filter_section : Json → Bool
  unfolding validate_section egress_ok
  validate_egress_filter_section = validate_section egress_ok

  unfoldable pub connection_drop_ok : Fields → Bool
  unfolding bool_at validate_string_array is_ip_or_ext
  connection_drop_ok section =
      bool_at (lit "enabled") section
      && validate_string_array is_ip_or_ext (get (lit "whitelistIps") section)

  -- validateConnectionDropSection
  unfoldable pub validate_connection_drop_section : Json → Bool
  unfolding validate_section connection_drop_ok
  validate_connection_drop_section = validate_section connection_drop_ok

  unfoldable pub ignore_lists_ok : Json → Bool
  unfolding if_exists validate_string_array is_ip_or_ext validate_int_array
  ignore_lists_ok (obj ignore) =
      if_exists (lit "ip") (validate_string_array is_ip_or_ext) ignore
      && if_exists (lit "userId") validate_int_array ignore
  ignore_lists_ok _ = false

  unfoldable pub torrent_ok : Fields → Bool
  unfolding bool_at is_int_number ignore_lists_ok if_exists string_array_at_least_one
  torrent_ok section =
      bool_at (lit "enabled") section
      && is_int_number (get (lit "blockDuration") section)
      && ignore_lists_ok (get (lit "ignoreLists") section)
      && if_exists (lit "includeRuleTags") string_array_at_least_one section

  -- validateTorrentBlockerSection
  unfoldable pub validate_torrent_blocker_section : Json → Bool
  unfolding validate_section torrent_ok
  validate_torrent_blocker_section = validate_section torrent_ok

  unfoldable pub config_ok : Fields → Bool
  unfolding validate_shared_lists validate_ingress_filter_section validate_egress_filter_section
      validate_connection_drop_section validate_torrent_blocker_section
  config_ok config =
      validate_shared_lists (get (lit "sharedLists") config)
      && validate_ingress_filter_section (get (lit "ingressFilter") config)
      && validate_egress_filter_section (get (lit "egressFilter") config)
      && validate_connection_drop_section (get (lit "connectionDrop") config)
      && validate_torrent_blocker_section (get (lit "torrentBlocker") config)
      && validate_pre_start_section (get (lit "preStart") config)

  -- ValidatePluginConfig, for whether it gives no error
  unfoldable pub validate_plugin_config : Option Fields → Bool
  unfolding config_ok
  validate_plugin_config none = false
  validate_plugin_config (some config) = config_ok config
