-- ===== src/Plugin/Runs/Delivered.antt =====
-- The reports of torrents on their way from the webhook to the panel.
use remnaplus_alpine_node.Prelude.{
  ℕ, ◌+◌, ◌≤◌, Bool, true, false, ◌&&◌, List, [], ◌∷◌, ◌++◌, str_eq, none, some, ◌≡◌, refl, sym,
  arith, ap, ◌∙◌, length, length-append, inl, inr, Bool-cases,
}
use mathlib.Core.List.{append-nil, append_assoc}
use remnaplus_alpine_node.Prelude.Json.{Fields}
use remnaplus_alpine_node.Plugin.{Library, SyncPlugin, TorrentReport}
use remnaplus_alpine_node.Plugin.Hash.{is_unchanged_plugin_config}
use remnaplus_alpine_node.Plugin.Settings.{
  add_report, flush_reports, update_from_sync, configure_pre_start, configure_torrent_blocker,
}
use remnaplus_alpine_node.Plugin.Service.{Service, Node, handle_sync, handle_collect_reports}
use remnaplus_alpine_node.Plugin.Service.View.{is_valid}
use remnaplus_alpine_node.Plugin.Service.Synced.{sync_plugin, unchanged_answer, synced_state}
use remnaplus_alpine_node.Plugin.Blocking.{
  handle_block_ips, handle_unblock_ips, handle_recreate_tables, handle_xray_webhook,
}
use remnaplus_alpine_node.Plugin.Blocking.Webhook.{Reported, handle_xray_webhook-Reported}
use remnaplus_alpine_node.Plugin.Runs.{
  Event, sync_request, collect_request, block_request, unblock_request, recreate_request,
  webhook_request, handle_event, run, reports_in,
}
use remnaplus_alpine_node.Plugin.Runs.Applied.{
  handle_block_ips-state, handle_unblock_ips-state, handle_recreate_tables-state,
}

module _ (l : Library) (svc : Service) where
  open l use {Kernel}

  -- Whether a request leaves the plugin alone or brings a valid one, so that nothing is reset.
  unfoldable pub keeps : Event → Bool
  unfolding is_valid
  keeps (sync_request none) = true
  keeps (sync_request (some none)) = false
  keeps (sync_request (some (some plugin))) = is_valid l plugin
  keeps _ = true

  unfoldable pub all_keep : List Event → Bool
  unfolding keeps
  all_keep [] = true
  all_keep (event ∷ events) = keeps event && all_keep events

  unfoldable pub webhooks : List Event → ℕ
  webhooks [] = 0
  webhooks (webhook_request payload ∷ events) = webhooks events + 1
  webhooks (event ∷ events) = webhooks events

  -- What is delivered and what still waits, together, are what waited before and some new reports.
  abbrev pub Delivers : ℕ → Node Kernel → List TorrentReport × Node Kernel → Type 0
  Delivers most n outcome =
      (new : List TorrentReport) × (outcome.0 ++ outcome.1.state.reports ≡ n.state.reports ++ new)
      × (length new ≤ most)

  kept-Delivers :
      (n after : Node Kernel) → after.state.reports ≡ n.state.reports → Delivers 0 n ([], after)
  kept-Delivers n after e = ([], e ∙ sym (append-nil n.state.reports), omega arith)

  synced-reports :
      (plugin : SyncPlugin) (n : Node Kernel)
      → is_valid l plugin ≡ true
      → (synced_state l svc plugin n.state).reports ≡ n.state.reports
  unfolding synced_state update_from_sync configure_pre_start configure_torrent_blocker
  synced-reports plugin n valid = ground arith

  sync-reports :
      (plugin : SyncPlugin) (n : Node Kernel)
      → is_valid l plugin ≡ true
      → (handle_sync l svc (some (some plugin)) n).1.state.reports ≡ n.state.reports
  sync-reports plugin n valid = elim (Bool-cases (is_unchanged_plugin_config l plugin n.state)) [
    | inl same ↦ ap (λ o. o.1.state.reports) (unchanged_answer l svc plugin n same)
    | inr new ↦
        ap (λ s. s.reports) (sync_plugin l svc plugin n new).1 ∙ synced-reports plugin n valid
  ]

  handle_xray_webhook-Delivers :
      (payload : Fields) (n : Node Kernel) → Delivers 1 n ([], handle_xray_webhook l svc payload n)
  unfolding Reported add_report
  handle_xray_webhook-Delivers payload n = elim (handle_xray_webhook-Reported l svc payload n) [
    | inl quiet ↦
        ([], ap (λ m. m.state.reports) quiet ∙ sym (append-nil n.state.reports), omega arith)
    | inr (r, report) ↦ (r ∷ [], ap (λ s. s.reports) report.8, omega arith)
  ]

  handle_event-Delivers :
      (event : Event) (n : Node Kernel)
      → keeps event ≡ true
      → Delivers (webhooks (event ∷ [])) n (handle_event l svc event n)
  unfolding handle_event keeps webhooks handle_collect_reports reports_in flush_reports handle_sync
  handle_event-Delivers (sync_request none) n h = kept-Delivers n n refl
  handle_event-Delivers (sync_request (some none)) n h = absurd cc
  handle_event-Delivers (sync_request (some (some plugin))) n h =
      kept-Delivers n (handle_sync l svc (some (some plugin)) n).1 (sync-reports plugin n h)
  handle_event-Delivers collect_request n h = ([], refl, omega arith)
  handle_event-Delivers (block_request items) n h =
      kept-Delivers n (handle_block_ips l svc items n).1
        (ap (λ s. s.reports) (handle_block_ips-state l svc items n))
  handle_event-Delivers (unblock_request ips) n h =
      kept-Delivers n (handle_unblock_ips l svc ips n).1
        (ap (λ s. s.reports) (handle_unblock_ips-state l svc ips n))
  handle_event-Delivers recreate_request n h =
      kept-Delivers n (handle_recreate_tables l svc n).1
        (ap (λ s. s.reports) (handle_recreate_tables-state l svc n))
  handle_event-Delivers (webhook_request payload) n h = handle_xray_webhook-Delivers payload n

  webhooks-cons :
      (event : Event) (events : List Event)
      → webhooks (event ∷ events) ≡ webhooks (event ∷ []) + webhooks events
  unfolding webhooks
  webhooks-cons (sync_request request) events = omega arith
  webhooks-cons collect_request events = omega arith
  webhooks-cons (block_request items) events = omega arith
  webhooks-cons (unblock_request ips) events = omega arith
  webhooks-cons recreate_request events = omega arith
  webhooks-cons (webhook_request payload) events = omega arith

  -- Two stretches of a run, one after the other.
  Delivers-append :
      (a b : ℕ) (n m : Node Kernel) (first : List TorrentReport)
      (rest : List TorrentReport × Node Kernel)
      → Delivers a n (first, m)
      → Delivers b m rest
      → Delivers (a + b) n (first ++ rest.0, rest.1)
  Delivers-append a b n m first rest (new1, e1, le1) (new2, e2, le2) = (
    new1 ++ new2,
    append_assoc first rest.0 rest.1.state.reports
        ∙ ap (λ t. first ++ t) e2
        ∙ sym (append_assoc first m.state.reports new2)
        ∙ ap (λ t. t ++ new2) e1
        ∙ append_assoc n.state.reports new1 new2,
    omega (arith, length-append new1 new2),
  )

  -- Over a sequence of events in which no request clears the plugins or brings an invalid
  -- configuration, the reports delivered and then those still waiting are those that waited at the
  -- start, in order, and after them at most one for each webhook: none is lost or delivered twice.
  pub run-Delivers :
      (events : List Event) (n : Node Kernel)
      → all_keep events ≡ true
      → (new : List TorrentReport) × ((run l svc events n).0 ++ (run l svc events n).1.state.reports
          ≡ n.state.reports ++ new)
        × (length new ≤ webhooks events)
  unfolding run all_keep webhooks
  run-Delivers [] n h = ([], sym (append-nil n.state.reports), omega arith)
  run-Delivers (event ∷ events) n h =
      let first = handle_event-Delivers event n (ground arith) in
      let rest = run-Delivers events (handle_event l svc event n).1 (ground arith) in
      let both =
        Delivers-append (webhooks (event ∷ [])) (webhooks events) n (handle_event l svc event n).1
          (handle_event l svc event n).0 (run l svc events (handle_event l svc event n).1) first
          rest in
      (both.0, both.1, omega (arith, webhooks-cons event events, both.2))
