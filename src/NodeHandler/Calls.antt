-- ===== src/NodeHandler/Calls.antt =====
-- The provider's methods as steps of a handler, and connections.Dropper.
use remnaplus_alpine_node.Prelude.{
  Bool, true, false, not, ◌||◌, List, [], ◌∷◌, ◌++◌, if◌then◌else◌, Str, str_eq, ◌==◌, lit, Option,
  none, some, length, nat_beq,
}
use remnaplus_alpine_node.Prelude.Text.{base64_encode}
use remnaplus_alpine_node.Xtls.Client.{Client}
use remnaplus_alpine_node.Xtls.Handler.{
  HandlerResult, failed, handler_add_vless_user, handler_add_trojan_user,
  handler_add_shadowsocks_user, handler_add_shadowsocks_2022_user, handler_add_hysteria_user,
  get_user_ip_list,
}
use remnaplus_alpine_node.Xray.HashState.{
  ok, panic, add_inbound_tag, inbound_tags_of, add_user_to_inbound_hash,
  remove_user_from_inbound_hash,
}
use remnaplus_alpine_node.NodeHandler.{
  HashState, Outcome, Node, M, ◌>>=◌, pure, AddUserItem, BatchInboundItem, BatchUserData,
}

pub record Dropper : Type 0 where
  pub available : Bool
  pub is_whitelisted : Str → Bool

-- KillSocketsByIP never returns an error.
abbrev pub kill_sockets_by_ip : Str → List Str → List Str
kill_sockets_by_ip ip killed = killed ++ ip ∷ []

unfoldable pub kill_loop : Dropper → List Str → List Str → List Str
kill_loop d [] killed = killed
kill_loop d (ip ∷ ips) killed =
    kill_loop d ips
      (if ip == [] || d.is_whitelisted ip then killed else kill_sockets_by_ip ip killed)

-- Dropper.DropIPs; the answer is always true.
unfoldable pub drop_ips : Dropper → List Str → List Str → Bool × List Str
unfolding kill_loop
drop_ips d ips killed =
    if not d.available || nat_beq (length ips) 0
    then (true, killed)
    else (true, kill_loop d ips killed)

unfoldable pub nonempty : List Str → List Str
nonempty [] = []
nonempty (ip ∷ ips) = let rest = nonempty ips in if ip == [] then rest else ip ∷ rest

unfoldable pub ips_or_none : Option (List Str) → List Str
ips_or_none none = []
ips_or_none (some ips) = nonempty ips

-- Service.dropIPs; a service may have no dropper.
unfoldable pub dropped : Option Dropper → List Str → List Str → List Str
dropped none ips killed = killed
dropped (some d) ips killed = if nat_beq (length ips) 0 then killed else (drop_ips d ips killed).1

abbrev pub store_hash :
    {World : Type 0} → Node World → Outcome HashState → Outcome (Unit {0}) × Node World
store_hash n (ok hash') = (ok tt, record n { hash = hash' })
store_hash n panic = (panic, n)

module _ (c : Client) where
  open c use {World, range_order}

  unfoldable pub add_tag : Str → M World Unit
  add_tag tag n = (ok tt, record n { hash = add_inbound_tag tag n.hash })

  unfoldable pub inbound_tags : M World (List Str)
  inbound_tags n = (ok (range_order n.world (inbound_tags_of n.hash)), n)

  unfoldable pub add_user_hash : Str → Str → M World Unit
  add_user_hash tag uuid n = store_hash n (add_user_to_inbound_hash tag uuid n.hash)

  unfoldable pub remove_user_hash : Str → Str → M World Unit
  remove_user_hash tag uuid n =
      (ok tt, record n { hash = remove_user_from_inbound_hash tag uuid n.hash })

  -- A call of the core leaves the node's own state alone.
  unfoldable pub call : {A : Type 0} → (World → A × World) → M World A
  call f n = (ok (f n.world).0, record n { world = (f n.world).1 })

  -- The call of addSingleUser, by the type of the item.
  unfoldable pub single_call : AddUserItem → World → HandlerResult × World
  single_call item =
      if item.type == lit "vless"
      then handler_add_vless_user c item.tag item.username item.uuid item.flow 0
      else if item.type == lit "trojan"
      then handler_add_trojan_user c item.tag item.username item.password 0
      else if item.type == lit "shadowsocks"
      then handler_add_shadowsocks_user c item.tag item.username item.password item.cipher_type
          item.iv_check 0
      else if item.type == lit "shadowsocks22"
      then handler_add_shadowsocks_2022_user c item.tag item.username item.password 0
      else if item.type == lit "hysteria"
      then handler_add_hysteria_user c item.tag item.username item.password 0
      else λ w. (failed (lit "unsupported user type: " ++ item.type), w)

  unfoldable pub batch_call : BatchInboundItem → BatchUserData → World → HandlerResult × World
  batch_call inbound user =
      if inbound.type == lit "vless"
      then handler_add_vless_user c inbound.tag user.user_id user.vless_uuid inbound.flow 0
      else if inbound.type == lit "trojan"
      then handler_add_trojan_user c inbound.tag user.user_id user.trojan_password 0
      else if inbound.type == lit "shadowsocks"
      then handler_add_shadowsocks_user c inbound.tag user.user_id user.ss_password 0 false 0
      else if inbound.type == lit "shadowsocks22"
      then handler_add_shadowsocks_2022_user c inbound.tag user.user_id
          (base64_encode user.ss_password) 0
      else if inbound.type == lit "hysteria"
      then handler_add_hysteria_user c inbound.tag user.user_id user.vless_uuid 0
      else λ w. (failed (lit "unsupported user type: " ++ inbound.type), w)

  unfoldable pub add_single_user : AddUserItem → M World HandlerResult
  add_single_user item = call (single_call item)

  unfoldable pub add_batch_user : BatchInboundItem → BatchUserData → M World HandlerResult
  add_batch_user inbound user = call (batch_call inbound user)

  -- collectUserIPs
  unfoldable pub collect_user_ips : Str → M World (List Str)
  unfolding ips_or_none
  collect_user_ips username =
      if username == []
      then pure []
      else do entries ← call (get_user_ip_list c username true); pure (ips_or_none entries)

  unfoldable pub drop_user_ips : Option Dropper → List Str → M World Unit
  drop_user_ips dropper ips n = (ok tt, record n { killed = dropped dropper ips n.killed })
