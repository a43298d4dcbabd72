-- ===== src/NodeHandler/Queries.antt =====
-- internal/nodehandler/handler.go: the requests that read the users of an inbound and those that drop
-- connections, with connections.Dropper.DropUsers.
pub mod Whitelist
use remnaplus_alpine_node.Prelude.{
  ℕ, Bool, true, false, not, ◌||◌, ◌&&◌, List, [], ◌∷◌, if◌then◌else◌, Str, str_eq, ◌==◌, lit,
  Option, some, none,
}
use remnaplus_alpine_node.Prelude.Int.{ℤ, pos}
use remnaplus_alpine_node.Xtls.Client.{Client, Member, Reply, reply, failure}
use remnaplus_alpine_node.Xtls.Handler.{
  HandlerResult, succeeded, failed, handler_api, grpc_error_message, get_user_ip_list,
}
use remnaplus_alpine_node.NodeHandler.Calls.{Dropper, drop_ips, nonempty}

pub record InboundUser : Type 0 where
  pub username : Str
  pub email : Str
  pub level : ℕ

-- What a query answers.
pub data Answer : Type 0 where
  invalid_body : Answer
  count_answer : ℤ → Answer
  users_answer : List InboundUser → Answer
  users_error : Str → Answer
  success_answer : Bool → Answer

-- The members that are not nil.
unfoldable pub present_users : List (Option Member) → List InboundUser
present_users [] = []
present_users (none ∷ members) = present_users members
present_users (some m ∷ members) =
    record { username = m.email; email = m.email; level = m.level } ∷ present_users members

abbrev pub users_of : Reply (List (Option Member)) → List InboundUser × HandlerResult
users_of (reply members) = (present_users members, succeeded)
users_of (failure err) = ([], failed (grpc_error_message err))

abbrev pub count_of : Reply ℤ → ℤ × HandlerResult
count_of (reply n) = (n, succeeded)
count_of (failure err) = (pos 0, failed (grpc_error_message err))

-- handlerErrorMessage
unfoldable pub message_or : Str → Str → Str
message_or message fallback = if not (message == []) then message else fallback

abbrev pub users_failure : Str
users_failure = lit "Failed to get inbound users"

unfoldable pub answer_users : List InboundUser × HandlerResult → Answer
answer_users (users, result) =
    if not result.is_ok
    then users_error (message_or result.message users_failure)
    else users_answer users

unfoldable pub answer_count : ℤ × HandlerResult → Answer
answer_count (count, result) =
    if not result.is_ok
    then users_error (message_or result.message users_failure)
    else count_answer count

-- One round of the loop of DropUsers: whether the drop went well, with the addresses killed so far.
unfoldable pub drop_listed : Dropper → Option (List Str) → List Str → Bool × List Str
drop_listed d none killed = (true, killed)
drop_listed d (some []) killed = (true, killed)
drop_listed d (some (ip ∷ ips)) killed = drop_ips d (nonempty (ip ∷ ips)) killed

module _ (c : Client) where
  open c use {World, inbound_users, inbound_users_count}

  unfoldable pub handler_get_inbound_users :
      Str → World → (List InboundUser × HandlerResult) × World
  handler_get_inbound_users tag w = elim (handler_api c w) [
    | some err ↦ (([], failed err), w)
    | none ↦ let (r, w') = inbound_users tag w in (users_of r, w')
  ]

  unfoldable pub handler_get_inbound_users_count : Str → World → (ℤ × HandlerResult) × World
  handler_get_inbound_users_count tag w = elim (handler_api c w) [
    | some err ↦ ((pos 0, failed err), w)
    | none ↦ let (r, w') = inbound_users_count tag w in (count_of r, w')
  ]

  -- A body that is not JSON is `none`.
  unfoldable pub handle_get_inbound_users : Option Str → World → Answer × World
  handle_get_inbound_users none w = (invalid_body, w)
  handle_get_inbound_users (some tag) w =
      if tag == []
      then (users_answer [], w)
      else let (r, w') = handler_get_inbound_users tag w in (answer_users r, w')

  unfoldable pub handle_get_inbound_users_count : Option Str → World → Answer × World
  handle_get_inbound_users_count none w = (invalid_body, w)
  handle_get_inbound_users_count (some tag) w =
      if tag == []
      then (count_answer (pos 0), w)
      else let (r, w') = handler_get_inbound_users_count tag w in (answer_count r, w')

  unfoldable pub drop_each_user :
      Dropper → List Str → Bool → List Str → World → (Bool × List Str) × World
  drop_each_user d [] ok killed w = ((ok, killed), w)
  drop_each_user d (user ∷ users) ok killed w =
      let (ips, w') = get_user_ip_list c user true w in
      let (dropped, killed') = drop_listed d ips killed in
      drop_each_user d users (ok && dropped) killed' w'

  unfoldable pub drop_users : Dropper → List Str → List Str → World → (Bool × List Str) × World
  drop_users d users killed w =
      if not d.available then ((true, killed), w) else drop_each_user d users true killed w

  unfoldable pub handle_drop_users_connections :
      Option Dropper → Option (List Str) → List Str → World → (Answer × List Str) × World
  handle_drop_users_connections dropper none killed w = ((invalid_body, killed), w)
  handle_drop_users_connections none (some users) killed w = ((success_answer true, killed), w)
  handle_drop_users_connections (some d) (some users) killed w =
      let ((ok, killed'), w') = drop_users d users killed w in ((success_answer ok, killed'), w')

unfoldable pub handle_drop_ips : Option Dropper → Option (List Str) → List Str → Answer × List Str
handle_drop_ips dropper none killed = (invalid_body, killed)
handle_drop_ips none (some ips) killed = (success_answer true, killed)
handle_drop_ips (some d) (some ips) killed =
    let (ok, killed') = drop_ips d ips killed in (success_answer ok, killed')
