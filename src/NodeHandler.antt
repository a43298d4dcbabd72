-- ===== src/NodeHandler.antt =====
-- internal/nodehandler: the requests that add users to the inbounds of the running core and remove
-- them, and that drop connections. The types, and the monad of the handlers.
mod Tests
pub mod Calls
pub mod Users
pub mod Queries
use remnaplus_alpine_node.Prelude.{
  ℕ, ◌≡◌, Bool, true, false, List, [], ◌∷◌, Str, Option, none, some,
}
use remnaplus_alpine_node.Xray.HashState.{HashState, Outcome, ok, panic}

-- What a handler works on: the manager's hash state, the world behind gRPC, and the addresses whose
-- sockets were killed, the latest last.
pub record Node (World : Type 0) : Type 0 where
  pub hash : HashState
  pub world : World
  pub killed : List Str

-- A handler may panic; what it changed until then stays.
abbrev pub M : Type 0 → Type 0 → Type 0
M World A = Node World → Outcome A × Node World

abbrev pub bind_outcome :
    {World A B : Type 0} → Outcome A × Node World → (A → M World B) → Outcome B × Node World
bind_outcome (ok a, n) f = f a n
bind_outcome (panic, n) f = (panic, n)

infixl 5 ◌>>=◌ ◌>>◌
abbrev pub ◌>>=◌ : {World A B : Type 0} → M World A → (A → M World B) → M World B
◌>>=◌ m f n = bind_outcome (m n) f

abbrev pub ◌>>◌ : {World B : Type 0} → M World Unit → M World B → M World B
m >> k = m >>= λ _. k

abbrev pub pure : {World A : Type 0} → A → M World A
pure a n = (ok a, n)

pub record AddUserItem : Type 0 where
  pub type : Str
  pub tag : Str
  pub username : Str
  pub password : Str
  pub uuid : Str
  pub flow : Str
  pub cipher_type : ℕ
  pub iv_check : Bool

pub record HashData : Type 0 where
  pub vless_uuid : Str
  pub prev_vless_uuid : Option Str

pub record AddUserRequest : Type 0 where
  pub items : List AddUserItem
  pub hash_data : HashData

pub record RemoveUserRequest : Type 0 where
  pub username : Str
  pub hash_data : HashData

pub record BatchInboundItem : Type 0 where
  pub type : Str
  pub tag : Str
  pub flow : Str

pub record BatchUserData : Type 0 where
  pub user_id : Str
  pub hash_uuid : Str
  pub vless_uuid : Str
  pub trojan_password : Str
  pub ss_password : Str

pub record BatchUser : Type 0 where
  pub inbound_data : List BatchInboundItem
  pub user_data : BatchUserData

pub record AddUsersRequest : Type 0 where
  pub affected_inbound_tags : List Str
  pub users : List BatchUser

pub record RemoveUsersItem : Type 0 where
  pub user_id : Str
  pub hash_uuid : Str

-- The bodies that the handlers of this package write.
pub data Response : Type 0 where
  bad_request : Str → Response
  generic : Bool → Option Str → Response
  server_error : Response
