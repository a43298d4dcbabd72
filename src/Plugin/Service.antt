-- ===== src/Plugin/Service.antt =====
-- internal/plugin: service.go and torrent.go, the requests of the panel about plugins and the webhook
-- of the core.
pub mod Frames
pub mod Refines
pub mod Stale
pub mod Synced
pub mod Restarts
pub mod View
use remnaplus_alpine_node.Prelude.{
  Bool, true, false, not, ◌||◌, ◌&&◌, List, [], ◌∷◌, ◌++◌, if◌then◌else◌, nat_beq, Str, str_eq,
  ◌==◌, lit, Option, none, some, length,
}
use remnaplus_alpine_node.Prelude.Sort.{sort_strings}
use remnaplus_alpine_node.Prelude.Json.{Json, obj, Fields, get, bool_or_false}
use remnaplus_alpine_node.Plugin.{Library, SyncPlugin, State, TorrentReport}
use remnaplus_alpine_node.Plugin.Lists.{
  to_string_slice, to_int_slice, resolve_ip_list, build_shared_ip_map,
}
use remnaplus_alpine_node.Plugin.Hash.{join, is_unchanged_plugin_config, extract_plugin_config}
use remnaplus_alpine_node.Plugin.Validate.{validate_plugin_config}
use remnaplus_alpine_node.Plugin.Settings.{flush_reports, reset, update_from_sync, fields_or_empty}
use remnaplus_alpine_node.Plugin.Nft.{recreate_tables, sync_ingress_filter, sync_egress_filter}

-- The calls of XrayController
pub data XrayCall : Type 0 where
  stop_if_online : XrayCall
  remove_torrent_blocker_outbound : XrayCall

-- What a service is made with: whether nftables are available, the dropper, if there is one, with
-- whether it is available, and whether there is a core.
pub record Service : Type 0 where
  pub nft_available : Bool
  pub dropper : Option Bool
  pub has_xray : Bool

-- What requests read and change: `killed` are the addresses whose connections were dropped and
-- `calls` the calls of the core, the latest last.
pub record Node (Kernel : Type 0) : Type 0 where
  pub state : State
  pub kernel : Kernel
  pub killed : List Str
  pub calls : List XrayCall

pub data Answer : Type 0 where
  invalid_body : Answer
  accepted : Bool → Answer
  collected : List TorrentReport → Answer

-- applyTorrentRestart needs the tags as sets only: sorted, joined and hashed.
unfoldable pub hash_include_rule_tags : Library → List Str → Str
hash_include_rule_tags l [] = []
hash_include_rule_tags l (tag ∷ tags) = l.sha256_hex (join (sort_strings (tag ∷ tags)))

unfoldable pub enabled_section : Json → Option Fields
enabled_section (obj section) =
    if bool_or_false (get (lit "enabled") section) then some section else none
enabled_section _ = none

module _ (l : Library) (svc : Service) where
  open l use {Kernel}

  -- A run of nft whose error is dropped.
  unfoldable pub with_kernel : Bool × Kernel → Node Kernel → Node Kernel
  with_kernel (ok, k) n = record n { kernel = k }

  unfoldable pub recreated : Node Kernel → Node Kernel
  unfolding recreate_tables with_kernel
  recreated n =
      if svc.nft_available then with_kernel (recreate_tables l svc.nft_available n.kernel) n else n

  -- Service.ResetPlugins
  unfoldable pub reset_plugins : Node Kernel → Node Kernel
  unfolding recreated reset
  reset_plugins n = recreated (record n { state = reset n.state })

  -- `if s.xray != nil` before a call
  unfoldable pub call_xray : XrayCall → Node Kernel → Node Kernel
  call_xray call n = if svc.has_xray then record n { calls = n.calls ++ call ∷ [] } else n

  unfoldable pub ingress_filter : Option Fields → List (Str × List Str) → Node Kernel → Node Kernel
  unfolding with_kernel
  ingress_filter none shared n = n
  ingress_filter (some ingress) shared n =
      with_kernel
        (sync_ingress_filter l svc.nft_available
          (resolve_ip_list (to_string_slice (get (lit "blockedIps") ingress)) shared) n.kernel)
        n

  unfoldable pub egress_filter : Option Fields → List (Str × List Str) → Node Kernel → Node Kernel
  unfolding with_kernel
  egress_filter none shared n = n
  egress_filter (some egress) shared n =
      with_kernel
        (sync_egress_filter l svc.nft_available
          (resolve_ip_list (to_string_slice (get (lit "blockedIps") egress)) shared)
          (to_int_slice (get (lit "blockedPorts") egress)) n.kernel)
        n

  -- Service.syncFilters
  unfoldable pub sync_filters : Fields → Node Kernel → Node Kernel
  unfolding ingress_filter egress_filter enabled_section
  sync_filters cfg n =
      let shared = build_shared_ip_map cfg n.state.asn in
      egress_filter (enabled_section (get (lit "egressFilter") cfg)) shared
        (ingress_filter (enabled_section (get (lit "ingressFilter") cfg)) shared n)

  -- Service.applyTorrentRestart
  unfoldable pub apply_torrent_restart :
      Bool → Bool → List Str → List Str → Node Kernel → Node Kernel
  unfolding call_xray hash_include_rule_tags
  apply_torrent_restart was_enabled now_enabled prev_tags now_tags n =
      if was_enabled && not now_enabled && nat_beq (length now_tags) 0
      then call_xray remove_torrent_blocker_outbound n
      else if (was_enabled && not now_enabled)
          || (not was_enabled && now_enabled)
          || (was_enabled
              && now_enabled
              && not (hash_include_rule_tags l prev_tags == hash_include_rule_tags l now_tags))
      then call_xray stop_if_online n
      else n

  unfoldable pub filters_synced : SyncPlugin → Bool → Node Kernel → Node Kernel
  unfolding recreated sync_filters
  filters_synced plugin changed n =
      if changed && svc.nft_available
      then sync_filters (fields_or_empty (extract_plugin_config l plugin)) (recreated n)
      else n

  -- HandleSync after UpdateFromSync
  unfoldable pub finish_sync :
      SyncPlugin → Node Kernel → (Bool × Bool) × State → Answer × Node Kernel
  unfolding filters_synced apply_torrent_restart
  finish_sync plugin n ((changed, false), s) = (accepted false, record n { state = s })
  finish_sync plugin n ((changed, true), s) = (
    accepted true,
    apply_torrent_restart n.state.torrent.enabled s.torrent.enabled
        n.state.torrent.include_rule_tags s.torrent.include_rule_tags
        (filters_synced plugin changed (record n { state = s })),
  )

  -- HandleSync after a configuration that passes its checks
  unfoldable pub apply_plugin : SyncPlugin → Node Kernel → Answer × Node Kernel
  unfolding finish_sync update_from_sync
  apply_plugin plugin n = finish_sync plugin n (update_from_sync l plugin n.state)

  -- Service.handlePluginClear
  unfoldable pub handle_plugin_clear : Node Kernel → Answer × Node Kernel
  unfolding reset_plugins call_xray
  handle_plugin_clear n =
      if not n.state.has_active
      then (accepted false, n)
      else (accepted true, call_xray stop_if_online (reset_plugins n))

  -- Service.HandleSync; `none` is a body that is not the JSON of a request.
  unfoldable pub handle_sync : Option (Option SyncPlugin) → Node Kernel → Answer × Node Kernel
  unfolding handle_plugin_clear apply_plugin reset_plugins call_xray
  handle_sync none n = (invalid_body, n)
  handle_sync (some none) n = handle_plugin_clear n
  handle_sync (some (some plugin)) n =
      if is_unchanged_plugin_config l plugin n.state
      then (accepted true, n)
      else if not (validate_plugin_config l (extract_plugin_config l plugin))
      then (accepted false, call_xray stop_if_online (reset_plugins n))
      else apply_plugin plugin n

  -- Service.HandleCollectReports
  unfoldable pub handle_collect_reports : Node Kernel → Answer × Node Kernel
  unfolding flush_reports
  handle_collect_reports n =
      (collected (flush_reports n.state).0, record n { state = (flush_reports n.state).1 })
