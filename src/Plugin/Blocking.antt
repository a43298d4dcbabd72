-- ===== src/Plugin/Blocking.antt =====
-- internal/plugin: service.go and torrent.go, the requests that block and unblock addresses and the
-- webhook by which the core reports a torrent.
pub mod Webhook
use remnaplus_alpine_node.Prelude.{
  ℕ, ◌*◌, ◌%◌, ◌-◌, ◌^◌, Bool, true, false, not, ◌||◌, List, [], ◌∷◌, if◌then◌else◌, ltb, Str,
  str_eq, ◌==◌, lit, Option, none, some,
}
use remnaplus_alpine_node.Prelude.Int.{ℤ, pos, negsuc, ◌+ℤ◌}
use remnaplus_alpine_node.Prelude.Json.{Fields, get, str_or_empty}
use remnaplus_alpine_node.NodeHandler.Calls.{drop_ips}
use remnaplus_alpine_node.Plugin.{Library, TorrentReport}
use remnaplus_alpine_node.Plugin.Settings.{
  is_whitelisted, add_report, torrent_block_duration, is_torrent_ip_ignored,
  is_torrent_user_ignored,
}
use remnaplus_alpine_node.Plugin.Source.{extract_webhook_ip}
use remnaplus_alpine_node.Plugin.Nft.{recreate_tables, block_ip, unblock_ip}
use remnaplus_alpine_node.Plugin.Service.{Service, Node, Answer, accepted, invalid_body}

pub record BlockItem : Type 0 where
  pub ip : Str
  pub timeout : ℤ

-- `now.Add(time.Duration(duration) * time.Second)`, where the product wraps around at 64 bits
unfoldable pub nanoseconds : ℕ → ℤ
nanoseconds seconds =
    let wrapped = (seconds * 1000000000) % 2 ^ 64 in
    if ltb wrapped (2 ^ 63) then pos wrapped else negsuc (2 ^ 64 - wrapped - 1)

module _ (l : Library) (svc : Service) where
  open l use {Kernel}

  -- Dropper.DropIPs of one address; the dropper asks the state for the whitelist.
  unfoldable pub drop_address : Str → Node Kernel → Node Kernel
  unfolding is_whitelisted
  drop_address ip n = dropped svc.dropper
    where
      dropped : Option Bool → Node Kernel
      dropped none = n
      dropped (some available) = record n {
        killed =
            (drop_ips (record { available = available; is_whitelisted = is_whitelisted n.state })
              (ip ∷ []) n.killed).1;
      }

  unfoldable pub block_all : List BlockItem → Node Kernel → Answer × Node Kernel
  unfolding block_ip drop_address
  block_all [] n = (accepted true, n)
  block_all (item ∷ items) n =
      let answer = block_ip l svc.nft_available item.ip item.timeout n.kernel in
      let rest = block_all items (drop_address item.ip (record n { kernel = answer.1 })) in
      if answer.0 then rest else (accepted false, record n { kernel = answer.1 })

  -- Service.HandleBlockIPs
  unfoldable pub handle_block_ips : Option (List BlockItem) → Node Kernel → Answer × Node Kernel
  unfolding block_all
  handle_block_ips none n = (invalid_body, n)
  handle_block_ips (some items) n =
      if not svc.nft_available then (accepted false, n) else block_all items n

  unfoldable pub unblock_all : List Str → Node Kernel → Answer × Node Kernel
  unblock_all [] n = (accepted true, n)
  unblock_all (ip ∷ ips) n =
      let rest =
        unblock_all ips (record n { kernel = (unblock_ip l svc.nft_available ip n.kernel).1 }) in
      if (unblock_ip l svc.nft_available ip n.kernel).0
      then rest
      else (accepted false, record n { kernel = (unblock_ip l svc.nft_available ip n.kernel).1 })

  -- Service.HandleUnblockIPs
  unfoldable pub handle_unblock_ips : Option (List Str) → Node Kernel → Answer × Node Kernel
  unfolding unblock_all
  handle_unblock_ips none n = (invalid_body, n)
  handle_unblock_ips (some ips) n =
      if not svc.nft_available then (accepted false, n) else unblock_all ips n

  -- Service.HandleRecreateTables
  unfoldable pub handle_recreate_tables : Node Kernel → Answer × Node Kernel
  unfolding recreate_tables
  handle_recreate_tables n = if not svc.nft_available then (accepted false, n) else (
    accepted (recreate_tables l svc.nft_available n.kernel).0,
    record n { kernel = (recreate_tables l svc.nft_available n.kernel).1 },
  )

  -- The report of HandleXrayWebhook
  unfoldable pub report_of : Bool → Str → Str → Fields → Node Kernel → TorrentReport
  unfolding nanoseconds
  report_of blocked ip email payload n = record {
    blocked = blocked;
    ip = ip;
    block_duration = pos (torrent_block_duration n.state);
    will_unblock_at = l.now n.kernel +ℤ nanoseconds (torrent_block_duration n.state);
    user_id = email;
    processed_at = l.now n.kernel;
    xray_report = payload;
  }

  -- Whether the webhook could block the address, and the node after the attempt.
  unfoldable pub webhook_block : Str → Node Kernel → Bool × Node Kernel
  unfolding drop_address
  webhook_block ip n =
      let answer =
        block_ip l svc.nft_available ip (pos (torrent_block_duration n.state)) n.kernel in
      let after = record n { kernel = answer.1 } in
      if not svc.nft_available
      then (false, n)
      else if answer.0
      then (true, drop_address ip after)
      else (false, after)

  -- Service.HandleXrayWebhook
  unfoldable pub handle_xray_webhook : Fields → Node Kernel → Node Kernel
  unfolding webhook_block report_of
  handle_xray_webhook payload n =
      let email = str_or_empty (get (lit "email") payload) in
      let ip = extract_webhook_ip l (str_or_empty (get (lit "source") payload)) in
      let attempt = webhook_block ip n in
      if not n.state.torrent.enabled
      then n
      else if ip == [] || email == []
      then n
      else if is_torrent_ip_ignored n.state ip || is_torrent_user_ignored n.state email
      then n
      else record (attempt.1) {
        state = add_report (report_of attempt.0 ip email payload attempt.1) attempt.1.state;
      }
