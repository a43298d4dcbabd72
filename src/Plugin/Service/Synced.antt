-- ===== src/Plugin/Service/Synced.antt =====
-- What a request to sync does to the plugins' state, by the plugin it brings.
use remnaplus_alpine_node.Prelude.{
  true, false, not, ◌&&◌, List, [], if◌then◌else◌, Str, str_eq, ◌==◌, Option, none, some, ◌≡◌,
  arith, str_beq_iff,
}
use remnaplus_alpine_node.Plugin.{
  raw_string, raw_null, raw_bool, raw_number, raw_array, raw_object, Raw, raw_string, raw_number,
  raw_bool, Raw, Library, SyncPlugin, State, TorrentReport, AsnResolver,
}
use remnaplus_alpine_node.Plugin.Hash.{
  stringify_token, object_or_nil, unmarshal, hash_plugin_config, is_unchanged_plugin_config,
  extract_plugin_config,
}
use remnaplus_alpine_node.Plugin.Validate.{validate_plugin_config}
use remnaplus_alpine_node.Plugin.Settings.{
  new_state, update_from_sync, configure_torrent_blocker, configure_pre_start,
}
use remnaplus_alpine_node.Plugin.Service.{Service, Node, accepted, handle_sync, apply_plugin}
use remnaplus_alpine_node.Plugin.Service.View.{idle, applied, state_of, is_valid, sync_view}
use remnaplus_alpine_node.Plugin.Service.Frames.{
  stopped-state, finish_sync-state, finish_sync-answer,
}

module _ (l : Library) (svc : Service) where
  open l use {Kernel}

  pub update-accepted : (plugin : SyncPlugin) (s : State) → (update_from_sync l plugin s).0.1 ≡ true
  unfolding update_from_sync
  update-accepted plugin s = ground arith

  pub update_same :
      (plugin : SyncPlugin) (s : State)
      → (hash_plugin_config l plugin.config == s.config_hash && s.has_active) ≡ true
      → (update_from_sync l plugin s).1 ≡ s
  unfolding update_from_sync
  update_same plugin s h = ground arith

  pub update_new :
      (plugin : SyncPlugin) (s : State)
      → (hash_plugin_config l plugin.config == s.config_hash && s.has_active) ≡ false
      → (update_from_sync l plugin s).1 ≡ state_of l s.asn (applied plugin s.reports)
  unfolding update_from_sync state_of configure_torrent_blocker configure_pre_start
  update_new plugin s h = ground arith

  pub valid-hash_nonempty :
      ((s : Str) → (l.sha256_hex s == []) ≡ false)
      → (plugin : SyncPlugin) → is_valid l plugin ≡ true
      → (hash_plugin_config l plugin.config == []) ≡ false
  unfolding hash_plugin_config is_valid extract_plugin_config unmarshal object_or_nil
      validate_plugin_config
  valid-hash_nonempty digest plugin h = by_config plugin.config h
    where
      by_config :
          (config : Option Raw)
          → validate_plugin_config l (extract_plugin_config l (record plugin { config = config }))
            ≡ true
          → (hash_plugin_config l config == []) ≡ false
      by_config none h = cc
      by_config (some raw_null) h = cc
      by_config (some (raw_bool b)) h = digest (stringify_token (raw_bool b))
      by_config (some (raw_number b)) h = digest (stringify_token (raw_number b))
      by_config (some (raw_string b)) h = digest (stringify_token (raw_string b))
      by_config (some (raw_array b)) h = digest (stringify_token (raw_array b))
      by_config (some (raw_object b)) h = digest (stringify_token (raw_object b))

  -- The state after a request whose plugin is not the one that is active.
  unfoldable pub synced_state : SyncPlugin → State → State
  synced_state plugin s =
      if not (is_valid l plugin) then new_state s.asn else (update_from_sync l plugin s).1

  pub sync_plugin :
      (plugin : SyncPlugin) (n : Node Kernel)
      → is_unchanged_plugin_config l plugin n.state ≡ false
      → ((handle_sync l svc (some (some plugin)) n).0 ≡ accepted (is_valid l plugin))
        × ((handle_sync l svc (some (some plugin)) n).1.state ≡ synced_state plugin n.state)
  unfolding handle_sync is_valid synced_state apply_plugin
  sync_plugin plugin n h = ground (
    arith,
    stopped-state l svc n,
    finish_sync-state l svc plugin n (update_from_sync l plugin n.state),
    finish_sync-answer l svc plugin n (update_from_sync l plugin n.state),
    update-accepted plugin n.state,
  )

  pub unchanged_answer :
      (new : SyncPlugin) (n : Node Kernel)
      → is_unchanged_plugin_config l new n.state ≡ true
      → handle_sync l svc (some (some new)) n ≡ (accepted true, n)
  unfolding handle_sync
  unchanged_answer new n h = ground arith

  pub synced_answer_idle :
      (new : SyncPlugin) → accepted (is_valid l new) ≡ (sync_view l (some (some new)) idle).0
  unfolding sync_view
  synced_answer_idle new = ground arith

  pub synced_answer_applied :
      (new old : SyncPlugin) (reports : List TorrentReport)
      → (hash_plugin_config l new.config == hash_plugin_config l old.config) ≡ false
      → accepted (is_valid l new) ≡ (sync_view l (some (some new)) (applied old reports)).0
  unfolding sync_view
  synced_answer_applied new old reports h = ground arith

  pub unchanged_idle :
      (resolver : Option AsnResolver) (new : SyncPlugin)
      → is_unchanged_plugin_config l new (state_of l resolver idle) ≡ false
  unfolding is_unchanged_plugin_config state_of
  unchanged_idle resolver new = ground arith

  pub unchanged_applied :
      (digest : (s : Str) → (l.sha256_hex s == []) ≡ false) (resolver : Option AsnResolver)
      (new old : SyncPlugin) (reports : List TorrentReport)
      → is_valid l old ≡ true
      → is_unchanged_plugin_config l new (state_of l resolver (applied old reports))
        ≡ (hash_plugin_config l new.config == hash_plugin_config l old.config)
  unfolding is_unchanged_plugin_config state_of
  unchanged_applied digest resolver new old reports valid = ground (
    arith,
    valid-hash_nonempty digest old valid,
    str_beq_iff (hash_plugin_config l new.config) (hash_plugin_config l old.config),
  )

  pub synced_idle :
      (resolver : Option AsnResolver) (new : SyncPlugin)
      → synced_state new (state_of l resolver idle)
        ≡ state_of l resolver (sync_view l (some (some new)) idle).1
  unfolding synced_state sync_view state_of
  synced_idle resolver new = ground (arith, update_new new (new_state resolver))

  pub synced_applied :
      (resolver : Option AsnResolver) (new old : SyncPlugin) (reports : List TorrentReport)
      → (hash_plugin_config l new.config == hash_plugin_config l old.config) ≡ false
      → synced_state new (state_of l resolver (applied old reports))
        ≡ state_of l resolver (sync_view l (some (some new)) (applied old reports)).1
  unfolding synced_state sync_view state_of
  synced_applied resolver new old reports h =
      ground (arith, update_new new (state_of l resolver (applied old reports)))
