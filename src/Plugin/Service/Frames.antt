-- ===== src/Plugin/Service/Frames.antt =====
-- What the steps of a request to sync leave of the plugins' state.
use remnaplus_alpine_node.Prelude.{
  Bool, true, false, List, Str, str_eq, lit, none, some, ◌≡◌, refl, arith,
}
use remnaplus_alpine_node.Prelude.Json.{get}
use remnaplus_alpine_node.Plugin.{Library, SyncPlugin, State}
use remnaplus_alpine_node.Plugin.Lists.{build_shared_ip_map}
use remnaplus_alpine_node.Plugin.Hash.{extract_plugin_config}
use remnaplus_alpine_node.Plugin.Settings.{new_state, reset, fields_or_empty}
use remnaplus_alpine_node.Plugin.Service.{
  finish_sync, filters_synced, Service, Node, accepted, recreated, sync_filters,
  apply_torrent_restart, call_xray, with_kernel, ingress_filter, egress_filter, reset_plugins,
}
use remnaplus_alpine_node.Plugin.Service.{
  stop_if_online, remove_torrent_blocker_outbound, enabled_section,
}
use remnaplus_alpine_node.Prelude.Json.{Fields}
use remnaplus_alpine_node.Prelude.{◌∙◌}

module _ (l : Library) (svc : Service) where
  open l use {Kernel}

  pub recreated-state : (n : Node Kernel) → (recreated l svc n).state ≡ n.state
  unfolding recreated with_kernel
  recreated-state n = ground arith

  pub call_xray-state : (c : _) (n : Node Kernel) → (call_xray l svc c n).state ≡ n.state
  unfolding call_xray
  call_xray-state c n = ground arith

  pub ingress_filter-state :
      (f : _) (shared : _) (n : Node Kernel) → (ingress_filter l svc f shared n).state ≡ n.state
  unfolding ingress_filter with_kernel
  ingress_filter-state none shared n = refl
  ingress_filter-state (some f) shared n = refl

  pub egress_filter-state :
      (f : _) (shared : _) (n : Node Kernel) → (egress_filter l svc f shared n).state ≡ n.state
  unfolding egress_filter with_kernel
  egress_filter-state none shared n = refl
  egress_filter-state (some f) shared n = refl

  pub sync_filters-state :
      (cfg : Fields) (n : Node Kernel) → (sync_filters l svc cfg n).state ≡ n.state
  unfolding sync_filters
  sync_filters-state cfg n =
      let shared = build_shared_ip_map cfg n.state.asn in
      let ingress = enabled_section (get (lit "ingressFilter") cfg) in
      let egress = enabled_section (get (lit "egressFilter") cfg) in
      egress_filter-state egress shared (ingress_filter l svc ingress shared n)
      ∙ ingress_filter-state ingress shared n

  pub apply_torrent_restart-state :
      (a b : Bool) (s t : List Str) (n : Node Kernel)
      → (apply_torrent_restart l svc a b s t n).state ≡ n.state
  unfolding apply_torrent_restart
  apply_torrent_restart-state a b s t n =
      ground
        (arith, call_xray-state stop_if_online n, call_xray-state remove_torrent_blocker_outbound n)

  pub reset_plugins-state :
      (n : Node Kernel) → (reset_plugins l svc n).state ≡ new_state n.state.asn
  unfolding reset_plugins reset
  reset_plugins-state n = recreated-state (record n { state = reset n.state })

  pub stopped-state :
      (n : Node Kernel)
      → (call_xray l svc stop_if_online (reset_plugins l svc n)).state ≡ new_state n.state.asn
  stopped-state n = call_xray-state stop_if_online (reset_plugins l svc n) ∙ reset_plugins-state n

  pub filters_synced-state :
      (plugin : SyncPlugin) (changed : Bool) (n : Node Kernel)
      → (filters_synced l svc plugin changed n).state ≡ n.state
  unfolding filters_synced
  filters_synced-state plugin changed n = ground (
    arith,
    sync_filters-state (fields_or_empty (extract_plugin_config l plugin)) (recreated l svc n),
    recreated-state n,
  )

  pub finish_sync-state :
      (plugin : SyncPlugin) (n : Node Kernel) (u : (Bool × Bool) × State)
      → (finish_sync l svc plugin n u).1.state ≡ u.1
  unfolding finish_sync
  finish_sync-state plugin n ((changed, false), s) = refl
  finish_sync-state plugin n ((changed, true), s) =
      let after = filters_synced l svc plugin changed (record n { state = s }) in
      apply_torrent_restart-state n.state.torrent.enabled s.torrent.enabled
        n.state.torrent.include_rule_tags s.torrent.include_rule_tags after
      ∙ filters_synced-state plugin changed (record n { state = s })

  pub finish_sync-answer :
      (plugin : SyncPlugin) (n : Node Kernel) (u : (Bool × Bool) × State)
      → (finish_sync l svc plugin n u).0 ≡ accepted u.0.1
  unfolding finish_sync
  finish_sync-answer plugin n ((changed, false), s) = refl
  finish_sync-answer plugin n ((changed, true), s) = refl
