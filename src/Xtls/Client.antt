-- ===== src/Xtls/Client.antt =====
-- What the node takes from outside its sources: the running Xray core behind gRPC, and the Go runtime.
-- A call may change the state of that world and may fail.
use remnaplus_alpine_node.Prelude.Int.{ℤ}
use remnaplus_alpine_node.Prelude.{ℕ, Bool, List, Option, Str}

-- An error of a gRPC call: one that carries a status, or any other.
pub data RpcError : Type 0 where
  status : ℕ → Str → RpcError
  plain : Str → RpcError

-- codes.NotFound
abbrev pub not_found : ℕ
not_found = 5

pub data Account : Type 0 where
  vless : Str → Str → Account
  trojan : Str → Account
  shadowsocks : Str → ℕ → Bool → Account
  shadowsocks_2022 : Str → Account
  hysteria : Str → Account

pub record User : Type 0 where
  pub email : Str
  pub level : ℕ
  pub account : Account

pub data Operation : Type 0 where
  remove_user_operation : Str → Operation
  add_user_operation : User → Operation

pub data Reply {ℓ} (A : Type ℓ) : Type ℓ where
  reply : A → Reply A
  failure : RpcError → Reply A

-- protocol.User of a list of users; a nil pointer is `none`
pub record Member : Type 0 where
  pub email : Str
  pub level : ℕ

-- A counter of the core; an int64 is its two's complement word.
pub record Stat : Type 0 where
  pub name : Str
  pub value : ℕ

pub record Client : Type 1 where
  pub World : Type 0
  -- whether the manager holds the core for online, and the error of dialing its socket
  pub online : World → Bool
  pub dial_error : World → Option Str
  pub alter_inbound : Str → Operation → World → Option RpcError × World
  pub online_ip_list : Str → Bool → World → Reply (List Str) × World
  pub inbound_users : Str → World → Reply (List (Option Member)) × World
  pub inbound_users_count : Str → World → Reply ℤ × World
  pub query_stats : Str → Bool → World → Reply (List Stat) × World
  pub stats_online : Str → Bool → World → Option RpcError × World
  -- the text of an error
  pub error_text : RpcError → Str
  -- the order in which a `range` loop visits the keys of a map
  pub range_order : World → List Str → List Str
