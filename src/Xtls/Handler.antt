-- ===== src/Xtls/Handler.antt =====
-- internal/xtls/handler.go, and the manager's methods of internal/xray/handler.go over it.
use remnaplus_alpine_node.Prelude.{
  ℕ, Bool, true, false, ◌||◌, List, [], if◌then◌else◌, Str, str_eq, lit, Option, none, some,
  nat_beq,
}
use remnaplus_alpine_node.Prelude.Text.{contains, to_lower}
use remnaplus_alpine_node.Xtls.Client.{
  Client, RpcError, status, plain, not_found, vless, trojan, shadowsocks, shadowsocks_2022,
  hysteria, User, remove_user_operation, add_user_operation, Reply, reply, failure,
}

pub record HandlerResult : Type 0 where
  pub is_ok : Bool
  pub message : Str

abbrev pub succeeded : HandlerResult
succeeded = record { is_ok = true; message = [] }

abbrev pub failed : Str → HandlerResult
failed message = record { is_ok = false; message = message }

is_user_not_found : RpcError → Bool
is_user_not_found (status code message) =
    if nat_beq code not_found
    then true
    else contains (to_lower message) (lit "not found")
      || contains (to_lower message) (lit "not exist")
      || contains (to_lower message) (lit "no such user")
is_user_not_found (plain message) = false

unfoldable pub grpc_error_message : RpcError → Str
grpc_error_message (status code message) = message
grpc_error_message (plain message) = message

unfoldable pub remove_result : Option RpcError → HandlerResult
unfolding is_user_not_found grpc_error_message
remove_result none = succeeded
remove_result (some err) =
    if is_user_not_found err then succeeded else failed (grpc_error_message err)

-- isUserExists only chooses between two equal results.
unfoldable pub add_result : Option RpcError → HandlerResult
unfolding grpc_error_message
add_result none = succeeded
add_result (some err) = failed (grpc_error_message err)

-- An unknown user has no addresses.
ips_of : Reply (List Str) → Option (List Str)
ips_of (reply ips) = some ips
ips_of (failure (status code message)) = if nat_beq code not_found then some [] else none
ips_of (failure (plain message)) = none

module _ (c : Client) where
  open c use {World, online, dial_error, alter_inbound, online_ip_list}

  -- handlerAPI: the error of getting a connection, if any
  unfoldable pub handler_api : World → Option Str
  handler_api w = if online w then dial_error w else some (lit "xray is not online")

  -- A call through a connection, or the error of getting one.
  abbrev through : (World → HandlerResult × World) → World → HandlerResult × World
  through call w = elim (handler_api w) [ none ↦ call w | some err ↦ (failed err, w) ]

  unfoldable pub handler_remove_user : Str → Str → World → HandlerResult × World
  unfolding handler_api
  handler_remove_user tag username = through λ w.
      let (err, w') = alter_inbound tag (remove_user_operation username) w in
      (remove_result err, w')

  add_user : Str → User → World → HandlerResult × World
  add_user tag user w =
      let (err, w') = alter_inbound tag (add_user_operation user) w in (add_result err, w')

  unfoldable pub handler_add_vless_user : Str → Str → Str → Str → ℕ → World → HandlerResult × World
  unfolding add_user handler_api
  handler_add_vless_user tag username uuid flow level =
      through (add_user tag (record { email = username; level = level; account = vless uuid flow }))

  unfoldable pub handler_add_trojan_user : Str → Str → Str → ℕ → World → HandlerResult × World
  unfolding add_user handler_api
  handler_add_trojan_user tag username password level =
      through (add_user tag (record { email = username; level = level; account = trojan password }))

  unfoldable pub handler_add_shadowsocks_user :
      Str → Str → Str → ℕ → Bool → ℕ → World → HandlerResult × World
  unfolding add_user handler_api
  handler_add_shadowsocks_user tag username password cipher_type iv_check level = through (
      add_user tag (record {
        email = username;
        level = level;
        account = shadowsocks password cipher_type iv_check;
      }))

  unfoldable pub handler_add_shadowsocks_2022_user :
      Str → Str → Str → ℕ → World → HandlerResult × World
  unfolding add_user handler_api
  handler_add_shadowsocks_2022_user tag username key level =
      through
        (add_user tag (record { email = username; level = level; account = shadowsocks_2022 key }))

  unfoldable pub handler_add_hysteria_user : Str → Str → Str → ℕ → World → HandlerResult × World
  unfolding add_user handler_api
  handler_add_hysteria_user tag username auth level =
      through (add_user tag (record { email = username; level = level; account = hysteria auth }))

  -- GetUserIPList of the manager over that of the statistics client
  unfoldable pub get_user_ip_list : Str → Bool → World → Option (List Str) × World
  unfolding ips_of handler_api
  get_user_ip_list user_id reset w = elim (handler_api w) [
    | some err ↦ (none, w)
    | none ↦ let (r, w') = online_ip_list user_id reset w in (ips_of r, w')
  ]
