-- ===== src/Plugin/Service/Restarts.antt =====
-- What a request to sync asks of the core.
use remnaplus_alpine_node.Prelude.{
  Bool, true, false, not, ◌||◌, ◌&&◌, List, [], ◌∷◌, ◌++◌, if◌then◌else◌, Str, str_eq, ◌==◌, lit,
  Option, none, some, ◌≡◌, refl, arith, ap, ◌∙◌, length, nat_beq,
}
use remnaplus_alpine_node.Prelude.Json.{Json, null, bool, num, str, arr, obj, Fields, get}
use remnaplus_alpine_node.Plugin.{Library, SyncPlugin, State, TorrentSettings}
use remnaplus_alpine_node.Plugin.Lists.{build_shared_ip_map}
use remnaplus_alpine_node.Plugin.Hash.{
  hash_plugin_config, is_unchanged_plugin_config, extract_plugin_config,
}
use remnaplus_alpine_node.Plugin.Settings.{
  update_from_sync, fields_or_empty, torrent_of, configure_pre_start, configure_torrent_blocker,
}
use remnaplus_alpine_node.Plugin.Service.{
  Service, Node, XrayCall, stop_if_online, remove_torrent_blocker_outbound, handle_sync,
  apply_plugin, finish_sync, filters_synced, recreated, sync_filters, with_kernel, ingress_filter,
  egress_filter, enabled_section, apply_torrent_restart, call_xray, hash_include_rule_tags,
}
use remnaplus_alpine_node.Plugin.Service.View.{is_valid}
use remnaplus_alpine_node.Plugin.Service.Synced.{update-accepted}
use mathlib.Core.List.{append-nil}

module _ (l : Library) (svc : Service) where
  open l use {Kernel}

  recreated-calls : (n : Node Kernel) → (recreated l svc n).calls ≡ n.calls
  unfolding recreated with_kernel
  recreated-calls n = ground arith

  ingress_filter-calls :
      (f : Option Fields) (shared : List (Str × List Str)) (n : Node Kernel)
      → (ingress_filter l svc f shared n).calls ≡ n.calls
  unfolding ingress_filter with_kernel
  ingress_filter-calls none shared n = refl
  ingress_filter-calls (some f) shared n = refl

  egress_filter-calls :
      (f : Option Fields) (shared : List (Str × List Str)) (n : Node Kernel)
      → (egress_filter l svc f shared n).calls ≡ n.calls
  unfolding egress_filter with_kernel
  egress_filter-calls none shared n = refl
  egress_filter-calls (some f) shared n = refl

  filters_synced-calls :
      (plugin : SyncPlugin) (changed : Bool) (n : Node Kernel)
      → (filters_synced l svc plugin changed n).calls ≡ n.calls
  unfolding filters_synced sync_filters
  filters_synced-calls plugin changed n =
      let cfg = fields_or_empty (extract_plugin_config l plugin) in
      let shared = build_shared_ip_map cfg (recreated l svc n).state.asn in
      let ingress = enabled_section (get (lit "ingressFilter") cfg) in
      ground (
        arith,
        recreated-calls n,
        ingress_filter-calls ingress shared (recreated l svc n),
        egress_filter-calls (enabled_section (get (lit "egressFilter") cfg)) shared
            (ingress_filter l svc ingress shared (recreated l svc n)),
      )

  -- The calls that a change of the torrent blocker's settings asks for: on disabling, its outbound is
  -- removed; on enabling, or where the tags differ by their hash, the core is stopped.
  unfoldable pub expected_calls : TorrentSettings → TorrentSettings → List XrayCall
  expected_calls before now =
      if not svc.has_xray
      then []
      else if now.enabled
      then (if before.enabled
            && hash_include_rule_tags l before.include_rule_tags
              == hash_include_rule_tags l now.include_rule_tags
          then []
          else stop_if_online ∷ [])
      else if before.enabled
      then remove_torrent_blocker_outbound ∷ []
      else []

  -- A blocker that is off has no tags.
  Quiet : TorrentSettings → Type 0
  Quiet t = (t.enabled || nat_beq (length t.include_rule_tags) 0) ≡ true

  restart-calls :
      (before now : TorrentSettings) (n : Node Kernel)
      → Quiet now
      → (apply_torrent_restart l svc before.enabled now.enabled before.include_rule_tags
          now.include_rule_tags n).calls
        ≡ n.calls ++ expected_calls before now
  unfolding apply_torrent_restart call_xray expected_calls Quiet
  restart-calls before now n quiet = ground (arith, append-nil n.calls)

  torrent_of-Quiet :
      (section : Json) (shared : List (Str × List Str)) → Quiet (torrent_of section shared)
  unfolding torrent_of Quiet
  torrent_of-Quiet null shared = refl
  torrent_of-Quiet (bool b) shared = refl
  torrent_of-Quiet (num b) shared = refl
  torrent_of-Quiet (str b) shared = refl
  torrent_of-Quiet (arr b) shared = refl
  torrent_of-Quiet (obj blocker) shared = ground arith

  finish_sync-calls :
      (plugin : SyncPlugin) (n : Node Kernel) (u : (Bool × Bool) × State)
      → u.0.1 ≡ true
      → Quiet u.1.torrent
      → (finish_sync l svc plugin n u).1.calls
        ≡ n.calls ++ expected_calls n.state.torrent u.1.torrent
  unfolding finish_sync
  finish_sync-calls plugin n ((changed, false), s) h quiet = absurd cc
  finish_sync-calls plugin n ((changed, true), s) h quiet =
      restart-calls n.state.torrent s.torrent
        (filters_synced l svc plugin changed (record n { state = s })) quiet
      ∙ ap (λ calls. calls ++ expected_calls n.state.torrent s.torrent)
          (filters_synced-calls plugin changed (record n { state = s }))

  -- The settings of the torrent blocker that a plugin brings.
  unfoldable pub torrent_settings : SyncPlugin → State → TorrentSettings
  unfolding torrent_of
  torrent_settings plugin s =
      let config = fields_or_empty (extract_plugin_config l plugin) in
      torrent_of (get (lit "torrentBlocker") config) (build_shared_ip_map config s.asn)

  settings-Quiet : (plugin : SyncPlugin) (s : State) → Quiet (torrent_settings plugin s)
  unfolding torrent_settings
  settings-Quiet plugin s =
      let config = fields_or_empty (extract_plugin_config l plugin) in
      torrent_of-Quiet (get (lit "torrentBlocker") config) (build_shared_ip_map config s.asn)

  updated-torrent :
      (plugin : SyncPlugin) (s : State)
      → (hash_plugin_config l plugin.config == s.config_hash && s.has_active) ≡ false
      → (update_from_sync l plugin s).1.torrent ≡ torrent_settings plugin s
  unfolding update_from_sync torrent_settings configure_pre_start configure_torrent_blocker
  updated-torrent plugin s h = ground arith

  applied_calls :
      (plugin : SyncPlugin) (n : Node Kernel)
      → (hash_plugin_config l plugin.config == n.state.config_hash && n.state.has_active) ≡ false
      → is_valid l plugin ≡ true
      → handle_sync l svc (some (some plugin)) n ≡ apply_plugin l svc plugin n
  unfolding handle_sync is_valid is_unchanged_plugin_config
  applied_calls plugin n fresh valid = ground arith

  -- A request with a valid configuration that is not the one in force asks the core, after the calls
  -- made before: nothing where there is no core; where the configuration turns the torrent blocker
  -- off, to remove its outbound if it was on, but never to stop; where it turns it on, to stop, unless
  -- it was on before with tags of the same hash.
  pub handle_sync-calls :
      (plugin : SyncPlugin) (n : Node Kernel)
      → (hash_plugin_config l plugin.config == n.state.config_hash && n.state.has_active) ≡ false
      → is_valid l plugin ≡ true
      → (handle_sync l svc (some (some plugin)) n).1.calls
        ≡ n.calls ++ expected_calls n.state.torrent (torrent_settings plugin n.state)
  unfolding apply_plugin
  handle_sync-calls plugin n fresh valid =
      let updated = updated-torrent plugin n.state fresh in
      ap (λ o. o.1.calls) (applied_calls plugin n fresh valid)
      ∙ finish_sync-calls plugin n (update_from_sync l plugin n.state)
          (update-accepted l svc plugin n.state) (rw updated (settings-Quiet plugin n.state))
      ∙ ap (λ t. n.calls ++ expected_calls n.state.torrent t) updated
