-- ===== src/Plugin/Blocking/Webhook.antt =====
-- What the webhook and the requests that block addresses leave of the plugins' state.
use remnaplus_alpine_node.Prelude.{
  Bool, true, false, not, ◌||◌, ◌&&◌, List, [], ◌∷◌, ◌++◌, Str, str_eq, ◌==◌, lit, Option, none,
  some, ◌≡◌, refl, arith, ap, ◌⊎◌, inl, inr, Bool-cases,
}
use remnaplus_alpine_node.Prelude.Int.{pos}
use remnaplus_alpine_node.Prelude.Json.{Fields, get, str_or_empty}
use remnaplus_alpine_node.Plugin.{Library, TorrentReport}
use remnaplus_alpine_node.Plugin.Settings.{
  add_report, is_whitelisted, is_torrent_ip_ignored, is_torrent_user_ignored,
  torrent_block_duration,
}
use remnaplus_alpine_node.Plugin.Source.{extract_webhook_ip}
use remnaplus_alpine_node.Plugin.Service.{Service, Node}
use remnaplus_alpine_node.Plugin.Nft.{block_ip, unblock_ip}
use remnaplus_alpine_node.NodeHandler.Calls.{drop_ips, kill_loop}
use remnaplus_alpine_node.Plugin.Blocking.{
  BlockItem, handle_xray_webhook, report_of, webhook_block, drop_address, block_all, unblock_all,
}

module _ (l : Library) (svc : Service) where
  open l use {Kernel}

  drop_address-state : (ip : Str) (n : Node Kernel) → (drop_address l svc ip n).state ≡ n.state
  unfolding drop_address
  drop_address-state ip n = by_dropper svc.dropper
    where
      by_dropper :
          (d : Option Bool) → (drop_address l (record svc { dropper = d }) ip n).state ≡ n.state
      by_dropper none = refl
      by_dropper (some available) = refl

  -- A whitelisted or empty address is left alone, and no other address is killed.
  drop_address-killed :
      (ip : Str) (n : Node Kernel)
      → ((drop_address l svc ip n).killed ≡ n.killed)
        ⊎ (((drop_address l svc ip n).killed ≡ n.killed ++ ip ∷ [])
            × (is_whitelisted n.state ip ≡ false))
  unfolding drop_address drop_ips kill_loop
  drop_address-killed ip n = by_dropper svc.dropper
    where
      by_dropper :
          (d : Option Bool)
          → ((drop_address l (record svc { dropper = d }) ip n).killed ≡ n.killed)
            ⊎ (((drop_address l (record svc { dropper = d }) ip n).killed ≡ n.killed ++ ip ∷ [])
                × (is_whitelisted n.state ip ≡ false))
      by_dropper none = inl refl
      by_dropper (some available) = ground arith

  webhook_block-state : (ip : Str) (n : Node Kernel) → (webhook_block l svc ip n).1.state ≡ n.state
  unfolding webhook_block
  webhook_block-state ip n =
      let answer =
        block_ip l svc.nft_available ip (pos (torrent_block_duration n.state)) n.kernel in
      ground (arith, drop_address-state ip (record n { kernel = answer.1 }))

  webhook_block-blocked :
      (ip : Str) (n : Node Kernel)
      → (webhook_block l svc ip n).0 ≡ (
          svc.nft_available
          && (block_ip l svc.nft_available ip (pos (torrent_block_duration n.state)) n.kernel).0)
  unfolding webhook_block
  webhook_block-blocked ip n = ground arith

  -- Nothing is killed, or the address was blocked and is not on the whitelist.
  abbrev Spared : Str → Node Kernel → Bool × Node Kernel → Type 0
  Spared ip n attempt =
      (attempt.1.killed ≡ n.killed)
      ⊎ ((attempt.1.killed ≡ n.killed ++ ip ∷ [])
          × (attempt.0 ≡ true)
          × (is_whitelisted n.state ip ≡ false))

  webhook_block-Spared : (ip : Str) (n : Node Kernel) → Spared ip n (webhook_block l svc ip n)
  unfolding webhook_block
  webhook_block-Spared ip n =
      let answer =
        block_ip l svc.nft_available ip (pos (torrent_block_duration n.state)) n.kernel in
      ground (arith, drop_address-killed ip (record n { kernel = answer.1 }))

  -- What a report says of the node before it and after it.
  unfoldable pub Reported : Fields → Node Kernel → TorrentReport → Node Kernel → Type 0
  Reported payload n r after =
      (n.state.torrent.enabled ≡ true)
      × (r.ip ≡ extract_webhook_ip l (str_or_empty (get (lit "source") payload)))
      × ((r.ip == []) ≡ false)
      × (r.user_id ≡ str_or_empty (get (lit "email") payload))
      × (is_torrent_ip_ignored n.state r.ip ≡ false)
      × (is_torrent_user_ignored n.state r.user_id ≡ false)
      × (r.blocked ≡ (
          svc.nft_available
          && (block_ip l svc.nft_available r.ip (pos (torrent_block_duration n.state)) n.kernel).0))
      × Spared r.ip n (r.blocked, after)
      × (after.state ≡ add_report r n.state)

  abbrev ip_of : Fields → Str
  ip_of payload = extract_webhook_ip l (str_or_empty (get (lit "source") payload))

  abbrev email_of : Fields → Str
  email_of payload = str_or_empty (get (lit "email") payload)

  unfoldable is_ignored : Fields → Node Kernel → Bool
  is_ignored payload n =
      not n.state.torrent.enabled
      || (ip_of payload == [] || email_of payload == [])
      || (is_torrent_ip_ignored n.state (ip_of payload)
          || is_torrent_user_ignored n.state (email_of payload))

  -- The node with the report of the attempt to block.
  unfoldable reported : Fields → Node Kernel → Bool × Node Kernel → TorrentReport × Node Kernel
  unfolding report_of
  reported payload n attempt =
      let r = report_of l svc attempt.0 (ip_of payload) (email_of payload) payload attempt.1 in
      (r, record (attempt.1) { state = add_report r attempt.1.state })

  ignored_webhook :
      (payload : Fields) (n : Node Kernel)
      → is_ignored payload n ≡ true
      → handle_xray_webhook l svc payload n ≡ n
  unfolding handle_xray_webhook is_ignored
  ignored_webhook payload n h = ground arith

  reported_webhook :
      (payload : Fields) (n : Node Kernel)
      → is_ignored payload n ≡ false
      → handle_xray_webhook l svc payload n
        ≡ (reported payload n (webhook_block l svc (ip_of payload) n)).1
  unfolding handle_xray_webhook is_ignored reported
  reported_webhook payload n h = ground arith

  attempt-Reported :
      (payload : Fields) (n : Node Kernel) (attempt : Bool × Node Kernel)
      → is_ignored payload n ≡ false
      → attempt.1.state ≡ n.state
      → attempt.0 ≡ (
          svc.nft_available
          && (block_ip l svc.nft_available
              (ip_of payload)
              (pos (torrent_block_duration n.state))
              n.kernel).0)
      → Spared (ip_of payload) n attempt
      → Reported payload n (reported payload n attempt).0 (reported payload n attempt).1
  unfolding is_ignored reported Reported
  attempt-Reported payload n attempt h same blocked spared = (
    ground arith,
    refl,
    ground arith,
    refl,
    ground arith,
    ground arith,
    blocked,
    spared,
    ap (add_report (reported payload n attempt).0) same,
  )

  -- A webhook changes nothing, or the torrent blocker is on and neither the address nor the user is
  -- ignored: then one report is added that tells them and whether nftables took the address, and the
  -- connections of that address are killed only if they did and it is not on the whitelist.
  pub handle_xray_webhook-Reported :
      (payload : Fields) (n : Node Kernel)
      → (handle_xray_webhook l svc payload n ≡ n)
        ⊎ ((r : TorrentReport) × Reported payload n r (handle_xray_webhook l svc payload n))
  handle_xray_webhook-Reported payload n =
      let attempt = webhook_block l svc (ip_of payload) n in
      elim (Bool-cases (is_ignored payload n)) [
        | inl h ↦ inl (ignored_webhook payload n h)
        | inr h ↦ inr (
          (reported payload n attempt).0,
          rw (reported_webhook payload n h) (
              attempt-Reported payload n attempt h (webhook_block-state (ip_of payload) n)
                (webhook_block-blocked (ip_of payload) n) (webhook_block-Spared (ip_of payload) n)),
        )
      ]

  pub block_all-state :
      (items : List BlockItem) (n : Node Kernel) → (block_all l svc items n).1.state ≡ n.state
  unfolding block_all
  block_all-state [] n = refl
  block_all-state (item ∷ items) n =
      let answer = block_ip l svc.nft_available item.ip item.timeout n.kernel in
      let after = record n { kernel = answer.1 } in
      ground (
        arith,
        block_all-state items (drop_address l svc item.ip after),
        drop_address-state item.ip after,
      )

  pub unblock_all-state :
      (ips : List Str) (n : Node Kernel) → (unblock_all l svc ips n).1.state ≡ n.state
  unfolding unblock_all
  unblock_all-state [] n = refl
  unblock_all-state (ip ∷ ips) n =
      let after = record n { kernel = (unblock_ip l svc.nft_available ip n.kernel).1 } in
      ground (arith, unblock_all-state ips after)
