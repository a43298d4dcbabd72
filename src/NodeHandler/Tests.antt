-- ===== src/NodeHandler/Tests.antt =====
-- The module of internal/nodehandler at concrete inputs.
use remnaplus_alpine_node.NodeHandler.Calls.{Dropper}
use remnaplus_alpine_node.Prelude.{◌==◌}
use remnaplus_alpine_node.NodeHandler.Queries.{drop_users}
use remnaplus_alpine_node.NodeHandler.Queries.Whitelist.{Spares, drop_users-Spares}
use remnaplus_alpine_node.Prelude.Int.{pos}
use remnaplus_alpine_node.Xray.HashedSet.Invariant.{new_hashed_set-IsValid, IsValid}
use remnaplus_alpine_node.Prelude.Map.{lookup, insert, add, has, discard}
use remnaplus_alpine_node.NodeHandler.Calls.{
  inbound_tags, collect_user_ips, call, drop_user_ips, remove_user_hash,
}
use remnaplus_alpine_node.NodeHandler.Users.{
  remove_from_tags, aggregate_results, handle_remove_user,
}
use remnaplus_alpine_node.Xtls.Handler.{handler_remove_user, remove_result, get_user_ip_list}
use remnaplus_alpine_node.Xray.HashState.{entries, inbound_tags_of, remove_user_from_inbound_hash}
use remnaplus_alpine_node.Xray.HashedSet.{size, delete_value, new_hashed_set, add_value}
use remnaplus_alpine_node.NodeHandler.Users.Safe.{serve-ok}
use remnaplus_alpine_node.Xray.HashState.Coherent.{initial-IsCoherent, IsCoherent}
use remnaplus_alpine_node.NodeHandler.Users.Removal.{handle_remove_user-Absent}
use remnaplus_alpine_node.Xray.HashState.{ok, initial}
use remnaplus_alpine_node.Prelude.Map.{has}
use remnaplus_alpine_node.Xray.HashedSet.{delete_value, new_hashed_set, HashedSet}
use remnaplus_alpine_node.NodeHandler.Users.{
  handle_remove_user, remove_user_request, serve, add_user_request, aggregate_results, Request,
}
use remnaplus_alpine_node.NodeHandler.{
  Response, RemoveUserRequest, AddUserRequest, AddUserItem, HashData, Node,
}
use remnaplus_alpine_node.Prelude.{
  arith, ◌≡◌, refl, lit, List, [], ◌∷◌, Str, some, none, true, false, str_beq, str_eq,
}
use remnaplus_alpine_node.Xtls.Client.{Client, reply, status}

-- A core that does what it is asked and keeps the tags of the calls, the latest first.
abbrev core : Client
core = record {
  World = List Str;
  online = λ w. true;
  dial_error = λ w. none;
  alter_inbound = λ tag operation w. (none, tag ∷ w);
  online_ip_list = λ user reset w. (reply (lit "10.0.0.1" ∷ []), w);
  inbound_users = λ tag w. (reply [], w);
  inbound_users_count = λ tag w. (reply (pos 0), w);
  query_stats = λ pattern reset w. (reply [], w);
  stats_online = λ name reset w. (none, w);
  error_text = λ err. lit "error";
  range_order = λ w keys. keys;
}

-- A core that refuses every call.
abbrev refusing_core : Client
refusing_core = record core {
  alter_inbound = λ tag operation w. (some (status 13 (lit "boom")), w);
}

abbrev start : Node (List Str)
start = record { hash = initial; world = []; killed = [] }

abbrev ann_data : HashData
ann_data = record { vless_uuid = lit "a"; prev_vless_uuid = none }

abbrev ann_item : AddUserItem
ann_item = record {
  type = lit "vless";
  tag = lit "in";
  username = lit "ann";
  password = [];
  uuid = lit "a";
  flow = [];
  cipher_type = 0;
  iv_check = false;
}

abbrev add_ann : AddUserRequest
add_ann = record { items = ann_item ∷ []; hash_data = ann_data }

abbrev remove_ann : RemoveUserRequest
remove_ann = record { username = lit "ann"; hash_data = ann_data }

abbrev requests : List Request
requests = add_user_request (some add_ann) ∷ remove_user_request (some remove_ann) ∷ []

serve-ok_example :
    (responses : List Response) × (n' : Node (List Str)) × (serve core none requests start
      ≡ (ok responses, n'))
    × IsCoherent n'.hash
serve-ok_example = serve-ok core none requests start initial-IsCoherent

-- An inbound with two users, of which one is removed.
abbrev two_users : HashedSet
two_users = new_hashed_set (lit "a" ∷ lit "b" ∷ [])

abbrev crowded : Node (List Str)
crowded = record start {
  hash = record {
    empty_config_hash = [];
    inbound_hashes = some ((lit "in", two_users) ∷ []);
    inbound_tags = some (lit "in" ∷ []);
  };
}

crowded-IsValid :
    (k : Str) (s : HashedSet) → lookup k (entries crowded.hash.inbound_hashes) ≡ some s → IsValid s
unfolding lookup
crowded-IsValid k s found = ground (arith, new_hashed_set-IsValid (lit "a" ∷ lit "b" ∷ []))

crowded-IsCoherent : IsCoherent crowded.hash
unfolding lookup has
crowded-IsCoherent = record {
  tagged = λ k h. h;
  valid = λ k s found. crowded-IsValid k s found;
  distinct = (refl, tt);
  distinct_tags = (refl, tt);
}

handle_remove_user-Absent_example :
    has (lit "a") (delete_value two_users (lit "a")).0.members ≡ false
unfolding str_beq handle_remove_user inbound_tags inbound_tags_of collect_user_ips call
    remove_from_tags handler_remove_user remove_result remove_user_hash drop_user_ips
    aggregate_results remove_user_from_inbound_hash lookup insert size delete_value new_hashed_set
    add_value add has discard get_user_ip_list
handle_remove_user-Absent_example =
    handle_remove_user-Absent core none remove_ann crowded
      (handle_remove_user core none (some remove_ann) crowded).1 (λ w k l. refl) crowded-IsCoherent
      refl refl (lit "in") (delete_value two_users (lit "a")).0 refl refl

-- A dropper with one address on its whitelist.
abbrev careful : Dropper
careful = record { available = true; is_whitelisted = λ ip. ip == lit "10.0.0.1" }

drop_users-Spares_example : Spares careful (drop_users core careful (lit "ann" ∷ []) [] []).0.1
unfolding Spares has
drop_users-Spares_example =
    drop_users-Spares core careful (lit "ann" ∷ []) [] [] (λ ip listed. refl)
