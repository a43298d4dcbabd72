-- ===== src/Plugin/Runs/Applied.antt =====
-- The settings in every state that the service reaches are those of the plugin applied last.
use remnaplus_alpine_node.Prelude.{
  sym, true, false, List, [], ◌∷◌, ◌++◌, Str, str_eq, ◌==◌, Option, none, some, ◌≡◌, refl, arith,
  ap, ◌∙◌, inl, inr,
}
use remnaplus_alpine_node.Prelude.Json.{Fields}
use remnaplus_alpine_node.Plugin.{Library, TorrentReport, AsnResolver}
use remnaplus_alpine_node.Plugin.Settings.{add_report, flush_reports, new_state}
use remnaplus_alpine_node.Plugin.Service.{Service, Node, handle_collect_reports}
use remnaplus_alpine_node.Plugin.Service.View.{View, idle, applied, state_of, Valid, sync_view}
use remnaplus_alpine_node.Plugin.Service.Refines.{handle_sync-refines}
use remnaplus_alpine_node.Plugin.Blocking.{
  BlockItem, handle_block_ips, handle_unblock_ips, handle_recreate_tables, handle_xray_webhook,
}
use remnaplus_alpine_node.Plugin.Blocking.Webhook.{
  block_all-state, unblock_all-state, Reported, handle_xray_webhook-Reported,
}
use remnaplus_alpine_node.Plugin.Runs.{
  Event, sync_request, collect_request, block_request, unblock_request, recreate_request,
  webhook_request, handle_event, run,
}

module _ (l : Library) (svc : Service) where
  open l use {Kernel}

  pub handle_block_ips-state :
      (items : Option (List BlockItem)) (n : Node Kernel)
      → (handle_block_ips l svc items n).1.state ≡ n.state
  unfolding handle_block_ips
  handle_block_ips-state none n = refl
  handle_block_ips-state (some items) n = ground (arith, block_all-state l svc items n)

  pub handle_unblock_ips-state :
      (ips : Option (List Str)) (n : Node Kernel)
      → (handle_unblock_ips l svc ips n).1.state ≡ n.state
  unfolding handle_unblock_ips
  handle_unblock_ips-state none n = refl
  handle_unblock_ips-state (some ips) n = ground (arith, unblock_all-state l svc ips n)

  pub handle_recreate_tables-state :
      (n : Node Kernel) → (handle_recreate_tables l svc n).1.state ≡ n.state
  unfolding handle_recreate_tables
  handle_recreate_tables-state n = ground arith

  -- The state is that of a view, with a plugin in it only if its configuration is valid.
  abbrev pub Viewed : Option AsnResolver → Node Kernel → Type 0
  Viewed resolver n = (v : View) × Valid l v × (n.state ≡ state_of l resolver v)

  kept-Viewed :
      (resolver : Option AsnResolver) (n after : Node Kernel)
      → after.state ≡ n.state
      → Viewed resolver n
      → Viewed resolver after
  kept-Viewed resolver n after e (v, valid, same) = (v, valid, e ∙ same)

  flushed-Viewed :
      (resolver : Option AsnResolver) (v : View)
      → Valid l v
      → (w : View) × Valid l w × ((flush_reports (state_of l resolver v)).1 ≡ state_of l resolver w)
  unfolding flush_reports state_of
  flushed-Viewed resolver idle valid = (idle, tt, refl)
  flushed-Viewed resolver (applied plugin reports) valid = (applied plugin [], valid, refl)

  report-Viewed :
      (resolver : Option AsnResolver) (v : View) (r : TorrentReport)
      → Valid l v
      → (state_of l resolver v).torrent.enabled ≡ true
      → (w : View) × Valid l w × (add_report r (state_of l resolver v) ≡ state_of l resolver w)
  unfolding add_report state_of
  report-Viewed resolver idle r valid on = absurd (cc)
  report-Viewed resolver (applied plugin reports) r valid on =
      (applied plugin (reports ++ r ∷ []), valid, refl)

  handle_xray_webhook-Viewed :
      (resolver : Option AsnResolver) (payload : Fields) (n : Node Kernel)
      → Viewed resolver n
      → Viewed resolver (handle_xray_webhook l svc payload n)
  unfolding Reported
  handle_xray_webhook-Viewed resolver payload n (v, valid, same) =
      elim (handle_xray_webhook-Reported l svc payload n) [
        | inl quiet ↦ (v, valid, ap (λ m. m.state) quiet ∙ same)
        | inr (r, report) ↦
            let next =
              report-Viewed resolver v r valid
                (sym (ap (λ s. s.torrent.enabled) same) ∙ report.0) in
            (next.0, next.1, report.8 ∙ ap (add_report r) same ∙ next.2)
      ]

  handle_event-Viewed :
      ((s : Str) → (l.sha256_hex s == []) ≡ false)
      → (resolver : Option AsnResolver) (event : Event) (n : Node Kernel) → Viewed resolver n
      → Viewed resolver (handle_event l svc event n).1
  unfolding handle_event handle_collect_reports
  handle_event-Viewed digest resolver (sync_request request) n (v, valid, same) =
      let next = handle_sync-refines l svc digest resolver v request n valid same in
      ((sync_view l request v).1, next.2, next.1)
  handle_event-Viewed digest resolver collect_request n (v, valid, same) =
      let next = flushed-Viewed resolver v valid in
      (next.0, next.1, ap (λ s. (flush_reports s).1) same ∙ next.2)
  handle_event-Viewed digest resolver (block_request items) n viewed =
      kept-Viewed resolver n (handle_block_ips l svc items n).1 (handle_block_ips-state items n)
        viewed
  handle_event-Viewed digest resolver (unblock_request ips) n viewed =
      kept-Viewed resolver n (handle_unblock_ips l svc ips n).1 (handle_unblock_ips-state ips n)
        viewed
  handle_event-Viewed digest resolver recreate_request n viewed =
      kept-Viewed resolver n (handle_recreate_tables l svc n).1 (handle_recreate_tables-state n)
        viewed
  handle_event-Viewed digest resolver (webhook_request payload) n viewed =
      handle_xray_webhook-Viewed resolver payload n viewed

  run_from-Viewed :
      ((s : Str) → (l.sha256_hex s == []) ≡ false)
      → (resolver : Option AsnResolver) (events : List Event) (n : Node Kernel) → Viewed resolver n
      → Viewed resolver (run l svc events n).1
  unfolding run
  run_from-Viewed digest resolver [] n viewed = viewed
  run_from-Viewed digest resolver (event ∷ events) n viewed =
      run_from-Viewed digest resolver events (handle_event l svc event n).1
        (handle_event-Viewed digest resolver event n viewed)

  -- After any sequence of requests and webhooks from the start, either no plugin is active and every
  -- setting has its default, or the whitelist, the torrent blocker, the clean-up of sockets and the
  -- recorded hash are all those of one plugin whose configuration is valid. Digests are taken to be
  -- non-empty.
  pub run-Viewed :
      ((s : Str) → (l.sha256_hex s == []) ≡ false)
      → (resolver : Option AsnResolver) (events : List Event) (n : Node Kernel)
      → n.state ≡ new_state resolver
      → (v : View) × Valid l v × ((run l svc events n).1.state ≡ state_of l resolver v)
  unfolding state_of
  run-Viewed digest resolver events n start =
      run_from-Viewed digest resolver events n (idle, tt, start)
