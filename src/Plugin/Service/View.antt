-- ===== src/Plugin/Service/View.antt =====
-- What the plugin service promises: the plugin that was applied last, if any, and the reports that
-- were not collected yet. The settings are those of that plugin's configuration.
use remnaplus_alpine_node.Prelude.{
  Bool, true, false, List, [], if◌then◌else◌, str_eq, ◌==◌, lit, Option, none, some, ◌≡◌,
}
use remnaplus_alpine_node.Prelude.Json.{get}
use remnaplus_alpine_node.Plugin.{Library, SyncPlugin, State, TorrentReport, AsnResolver}
use remnaplus_alpine_node.Plugin.Lists.{build_shared_ip_map}
use remnaplus_alpine_node.Plugin.Hash.{hash_plugin_config, extract_plugin_config}
use remnaplus_alpine_node.Plugin.Validate.{validate_plugin_config}
use remnaplus_alpine_node.Plugin.Settings.{
  new_state, fields_or_empty, whitelist_of, torrent_of, pre_start_of,
}
use remnaplus_alpine_node.Plugin.Service.{Answer, accepted, invalid_body}

pub data View : Type 0 where
  idle : View
  applied : SyncPlugin → List TorrentReport → View

module _ (l : Library) where
  -- The state that a view stands for.
  unfoldable pub state_of : Option AsnResolver → View → State
  unfolding whitelist_of torrent_of pre_start_of
  state_of resolver idle = new_state resolver
  state_of resolver (applied plugin reports) =
      let config = fields_or_empty (extract_plugin_config l plugin) in
      let shared = build_shared_ip_map config resolver in
      record {
        config_hash = hash_plugin_config l plugin.config;
        plugin_uuid = plugin.uuid;
        plugin_name = plugin.name;
        has_active = true;
        whitelist_ips = whitelist_of (get (lit "connectionDrop") config) shared;
        reports = reports;
        torrent = torrent_of (get (lit "torrentBlocker") config) shared;
        pre_start = pre_start_of (get (lit "preStart") config);
        asn = resolver;
      }

  unfoldable pub is_valid : SyncPlugin → Bool
  is_valid plugin = validate_plugin_config l (extract_plugin_config l plugin)

  -- Only a valid configuration is ever applied.
  abbrev pub Valid : View → Type 0
  Valid idle = Unit
  Valid (applied plugin reports) = is_valid plugin ≡ true

  -- What a request to sync does to the view.
  unfoldable pub sync_view : Option (Option SyncPlugin) → View → Answer × View
  unfolding is_valid
  sync_view none v = (invalid_body, v)
  sync_view (some none) idle = (accepted false, idle)
  sync_view (some none) (applied plugin reports) = (accepted true, idle)
  sync_view (some (some new)) idle =
      if is_valid new then (accepted true, applied new []) else (accepted false, idle)
  sync_view (some (some new)) (applied plugin reports) =
      if hash_plugin_config l new.config == hash_plugin_config l plugin.config
      then (accepted true, applied plugin reports)
      else if is_valid new
      then (accepted true, applied new reports)
      else (accepted false, idle)
