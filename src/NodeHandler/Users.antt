-- ===== src/NodeHandler/Users.antt =====
-- The handlers that add and remove users: HandleAddUser, HandleRemoveUser, HandleAddUsers,
-- HandleRemoveUsers and aggregateResults of internal/nodehandler/handler.go.
pub mod Safe
pub mod Results
pub mod Removal
use remnaplus_alpine_node.Prelude.{
  Bool, true, false, not, ◌||◌, List, [], ◌∷◌, ◌++◌, if◌then◌else◌, Str, str_eq, ◌==◌, lit, Option,
  none, some,
}
use remnaplus_alpine_node.Xtls.Client.{Client}
use remnaplus_alpine_node.Xtls.Handler.{HandlerResult, handler_remove_user}
use remnaplus_alpine_node.Xray.HashState.{Outcome, ok, panic}
use remnaplus_alpine_node.NodeHandler.{
  Node, M, ◌>>=◌, ◌>>◌, pure, AddUserItem, HashData, AddUserRequest, RemoveUserRequest,
  BatchInboundItem, BatchUserData, BatchUser, AddUsersRequest, RemoveUsersItem, Response,
  bad_request, generic, server_error,
}
use remnaplus_alpine_node.NodeHandler.Calls.{
  Dropper, add_tag, inbound_tags, add_user_hash, remove_user_hash, call, add_single_user,
  add_batch_user, collect_user_ips, drop_user_ips,
}

unfoldable pub any_failed : List HandlerResult → Bool
any_failed [] = false
any_failed (r ∷ rs) = not r.is_ok || any_failed rs

-- stringPtr, of a message that is never empty here
failure_message : HandlerResult → Str
failure_message r = if r.message == [] then lit "handler operation failed" else r.message

unfoldable pub aggregate_results : List HandlerResult → Response
unfolding failure_message
aggregate_results [] = generic true none
aggregate_results (r ∷ rs) =
    if not r.is_ok then generic false (some (failure_message r)) else aggregate_results rs

-- The UUID that a user to be added is known by so far.
unfoldable pub previous_uuid : HashData → Str
previous_uuid h = elim h.prev_vless_uuid [
  | none ↦ h.vless_uuid
  | some prev ↦ if prev == [] then h.vless_uuid else prev
]

module _ (c : Client) where
  open c use {World}

  unfoldable pub add_tags : List Str → M World Unit
  add_tags [] = pure tt
  add_tags (tag ∷ tags) = do add_tag c tag; add_tags tags

  record_removed : HandlerResult → Str → Str → M World Unit
  record_removed r tag uuid = if r.is_ok then remove_user_hash c tag uuid else pure tt

  -- The loop that removes a user from each of the tags.
  unfoldable pub remove_from_tags : Str → Str → List Str → M World (List HandlerResult)
  unfolding record_removed
  remove_from_tags username uuid [] = pure []
  remove_from_tags username uuid (tag ∷ tags) = do
    r ← call c (handler_remove_user c tag username)
    record_removed r tag uuid
    rs ← remove_from_tags username uuid tags
    pure (r ∷ rs)

  record_added : HandlerResult → Str → Str → M World Unit
  record_added r tag uuid = if r.is_ok then add_user_hash c tag uuid else pure tt

  unfoldable pub add_items : Str → List AddUserItem → M World (List HandlerResult)
  unfolding record_added
  add_items uuid [] = pure []
  add_items uuid (item ∷ items) = do
    r ← add_single_user c item
    record_added r item.tag uuid
    rs ← add_items uuid items
    pure (r ∷ rs)

  -- The removals of HandleAddUser: none for an empty name.
  unfoldable pub remove_previous : Str → Str → M World (List HandlerResult)
  remove_previous username uuid =
      if username == []
      then pure []
      else do tags ← inbound_tags c; remove_from_tags username uuid tags

  tags_of_items : List AddUserItem → List Str
  tags_of_items [] = []
  tags_of_items (item ∷ items) = item.tag ∷ tags_of_items items

  unfoldable pub add_after_removal : AddUserRequest → List HandlerResult → M World Response
  add_after_removal req removals =
      if any_failed removals then pure (aggregate_results removals) else do
        results ← add_items req.hash_data.vless_uuid req.items
        pure (aggregate_results (removals ++ results))

  add_user_from : AddUserRequest → List AddUserItem → M World Response
  unfolding tags_of_items
  add_user_from req [] = pure (bad_request (lit "data is required"))
  add_user_from req (item ∷ items) = do
    add_tags (tags_of_items (item ∷ items))
    removals ← remove_previous item.username (previous_uuid req.hash_data)
    add_after_removal req removals

  unfoldable pub handle_add_user : Option AddUserRequest → M World Response
  unfolding add_user_from
  handle_add_user none = pure (bad_request (lit "invalid JSON body"))
  handle_add_user (some req) = add_user_from req req.items

  remove_user_from : Option Dropper → RemoveUserRequest → List Str → M World Response
  remove_user_from dropper req [] = pure (generic true none)
  remove_user_from dropper req (tag ∷ tags) = do
    ips ← collect_user_ips c req.username
    results ← remove_from_tags req.username req.hash_data.vless_uuid (tag ∷ tags)
    drop_user_ips c dropper ips
    pure (aggregate_results results)

  unfoldable pub handle_remove_user : Option Dropper → Option RemoveUserRequest → M World Response
  unfolding remove_user_from
  handle_remove_user dropper none = pure (bad_request (lit "invalid JSON body"))
  handle_remove_user dropper (some req) = do
    tags ← inbound_tags c
    remove_user_from dropper req tags

  add_batch : BatchUserData → List BatchInboundItem → M World (List HandlerResult)
  unfolding record_added
  add_batch user [] = pure []
  add_batch user (inbound ∷ inbounds) = do
    r ← add_batch_user c inbound user
    record_added r inbound.tag user.vless_uuid
    rs ← add_batch user inbounds
    pure (r ∷ rs)

  tags_of_batch : List BatchInboundItem → List Str
  tags_of_batch [] = []
  tags_of_batch (inbound ∷ inbounds) = inbound.tag ∷ tags_of_batch inbounds

  add_batch_after : BatchUser → List HandlerResult → M World (List HandlerResult)
  add_batch_after user removals =
      if any_failed removals
      then pure removals
      else do results ← add_batch user.user_data user.inbound_data; pure (removals ++ results)

  -- One round of the loop of HandleAddUsers.
  unfoldable pub add_one_user : BatchUser → M World (List HandlerResult)
  unfolding add_batch tags_of_batch add_batch_after
  add_one_user user = do
    add_tags (tags_of_batch user.inbound_data)
    tags ← inbound_tags c
    removals ← remove_from_tags user.user_data.user_id user.user_data.hash_uuid tags
    add_batch_after user removals

  unfoldable pub add_each_user : List BatchUser → M World (List HandlerResult)
  add_each_user [] = pure []
  add_each_user (user ∷ users) = do
    results ← add_one_user user
    rest ← add_each_user users
    pure (results ++ rest)

  unfoldable pub handle_add_users : Option AddUsersRequest → M World Response
  handle_add_users none = pure (bad_request (lit "invalid JSON body"))
  handle_add_users (some req) = do
    add_tags req.affected_inbound_tags
    results ← add_each_user req.users
    pure (aggregate_results results)

  -- One round of the loop of HandleRemoveUsers.
  unfoldable pub remove_one_user : Option Dropper → RemoveUsersItem → M World (List HandlerResult)
  remove_one_user dropper user = do
    ips ← collect_user_ips c user.user_id
    tags ← inbound_tags c
    results ← remove_from_tags user.user_id user.hash_uuid tags
    drop_user_ips c dropper ips
    pure results

  unfoldable pub remove_each_user :
      Option Dropper → List RemoveUsersItem → M World (List HandlerResult)
  remove_each_user dropper [] = pure []
  remove_each_user dropper (user ∷ users) = do
    results ← remove_one_user dropper user
    rest ← remove_each_user dropper users
    pure (results ++ rest)

  remove_users_from : Option Dropper → List RemoveUsersItem → List Str → M World Response
  remove_users_from dropper users [] = pure (generic true none)
  remove_users_from dropper users (tag ∷ tags) = do
    results ← remove_each_user dropper users
    pure (aggregate_results results)

  unfoldable pub handle_remove_users :
      Option Dropper → Option (List RemoveUsersItem) → M World Response
  unfolding remove_users_from
  handle_remove_users dropper none = pure (bad_request (lit "invalid JSON body"))
  handle_remove_users dropper (some users) = do
    tags ← inbound_tags c
    remove_users_from dropper users tags

-- recoverHandler: a panic is answered with the server error.
unfoldable pub recovered : {World : Type 0} → Outcome Response × Node World → Response × Node World
recovered (ok response, n) = (response, n)
recovered (panic, n) = (server_error, n)

-- The requests of this package that change the users, in the order in which they are served.
pub data Request : Type 0 where
  add_user_request : Option AddUserRequest → Request
  remove_user_request : Option RemoveUserRequest → Request
  add_users_request : Option AddUsersRequest → Request
  remove_users_request : Option (List RemoveUsersItem) → Request

module _ (c : Client) where
  open c use {World}

  unfoldable pub handle : Option Dropper → Request → M World Response
  handle dropper (add_user_request req) = handle_add_user c req
  handle dropper (remove_user_request req) = handle_remove_user c dropper req
  handle dropper (add_users_request req) = handle_add_users c req
  handle dropper (remove_users_request req) = handle_remove_users c dropper req

  -- Up to the first panic.
  unfoldable pub serve : Option Dropper → List Request → M World (List Response)
  serve dropper [] = pure []
  serve dropper (req ∷ reqs) = do r ← handle dropper req; rs ← serve dropper reqs; pure (r ∷ rs)
