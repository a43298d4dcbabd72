-- ===== src/Plugin/Runs.antt =====
-- internal/plugin: sequences of requests and webhooks, and the reports they deliver.
pub mod Applied
pub mod Delivered
use remnaplus_alpine_node.Prelude.{
  ℕ, ◌+◌, ◌≤◌, Bool, true, false, not, ◌||◌, ◌&&◌, List, [], ◌∷◌, ◌++◌, if◌then◌else◌, Str, str_eq,
  ◌==◌, lit, Option, none, some, ◌≡◌, refl, arith, str_beq_iff, ap, ◌∙◌, length, ◌⊎◌, inl, inr,
  Bool-cases,
}
use remnaplus_alpine_node.Prelude.Json.{Fields}
use remnaplus_alpine_node.Plugin.{Library, SyncPlugin, State, TorrentReport, AsnResolver}
use remnaplus_alpine_node.Plugin.Settings.{add_report}
use remnaplus_alpine_node.Plugin.Service.{
  Service, Node, Answer, handle_sync, handle_collect_reports,
}
use remnaplus_alpine_node.Plugin.Service.View.{
  View, idle, applied, state_of, is_valid, Valid, sync_view,
}
use remnaplus_alpine_node.Plugin.Service.Refines.{handle_sync-refines}
use remnaplus_alpine_node.Plugin.Blocking.{
  BlockItem, handle_block_ips, handle_unblock_ips, handle_recreate_tables, handle_xray_webhook,
  report_of, webhook_block, drop_address, block_all, unblock_all,
}

-- What reaches the service.
pub data Event : Type 0 where
  sync_request : Option (Option SyncPlugin) → Event
  collect_request : Event
  block_request : Option (List BlockItem) → Event
  unblock_request : Option (List Str) → Event
  recreate_request : Event
  webhook_request : Fields → Event

unfoldable pub reports_in : Answer → List TorrentReport
reports_in (Answer.collected reports) = reports
reports_in _ = []

module _ (l : Library) (svc : Service) where
  open l use {Kernel}

  -- The reports that the answer to an event delivers, and the node after it.
  unfoldable pub handle_event : Event → Node Kernel → List TorrentReport × Node Kernel
  unfolding reports_in
  handle_event (sync_request request) n = ([], (handle_sync l svc request n).1)
  handle_event collect_request n =
      (reports_in (handle_collect_reports l svc n).0, (handle_collect_reports l svc n).1)
  handle_event (block_request items) n = ([], (handle_block_ips l svc items n).1)
  handle_event (unblock_request ips) n = ([], (handle_unblock_ips l svc ips n).1)
  handle_event recreate_request n = ([], (handle_recreate_tables l svc n).1)
  handle_event (webhook_request payload) n = ([], handle_xray_webhook l svc payload n)

  unfoldable pub run : List Event → Node Kernel → List TorrentReport × Node Kernel
  unfolding handle_event
  run [] n = ([], n)
  run (event ∷ events) n =
      let first = handle_event event n in
      let rest = run events first.1 in (first.0 ++ rest.0, rest.1)
