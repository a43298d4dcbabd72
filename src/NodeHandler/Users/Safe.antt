-- ===== src/NodeHandler/Users/Safe.antt =====
-- No handler panics on a coherent hash state, and each leaves a coherent one.
use remnaplus_alpine_node.Prelude.{
  ◌≡◌, refl, ap, ◌∙◌, Bool, true, false, List, [], ◌∷◌, if◌then◌else◌, Str, str_eq, Option, none,
  some,
}
use remnaplus_alpine_node.Xtls.Client.{Client}
use remnaplus_alpine_node.Xtls.Handler.{HandlerResult}
use remnaplus_alpine_node.Xray.HashState.{ok}
use remnaplus_alpine_node.Xray.HashState.Coherent.{
  IsCoherent, add_inbound_tag-IsCoherent, add_user_to_inbound_hash-ok,
  remove_user_from_inbound_hash-IsCoherent,
}
use remnaplus_alpine_node.NodeHandler.{
  Response, Node, M, ◌>>=◌, pure, bind_outcome, AddUserItem, AddUserRequest, RemoveUserRequest,
  BatchInboundItem, BatchUserData, BatchUser, AddUsersRequest, RemoveUsersItem,
}
use remnaplus_alpine_node.NodeHandler.Calls.{
  store_hash, Dropper, add_tag, inbound_tags, add_user_hash, remove_user_hash, call,
  add_single_user, add_batch_user, collect_user_ips, drop_user_ips,
}
use remnaplus_alpine_node.NodeHandler.Users.{
  remove_users_request, remove_user_request, add_users_request, add_user_request,
  remove_users_request, add_users_request, remove_user_request, add_user_request, Request, serve,
  handle, add_user_from, add_tags, record_removed, remove_from_tags, record_added, add_items,
  remove_previous, add_after_removal, handle_add_user, handle_remove_user, remove_user_from,
  add_batch, add_batch_after, add_one_user, add_each_user, handle_add_users, remove_one_user,
  remove_each_user, remove_users_from, handle_remove_users,
}

-- From a coherent node the step returns, on a coherent node.
pub Safe : {World A : Type 0} → M World A → Type 0
Safe {World} {A} m =
    (n : Node World)
    → IsCoherent n.hash
    → (a : A) × (n' : Node World) × (m n ≡ (ok a, n')) × IsCoherent n'.hash

pure-Safe : (World : Type 0) {A : Type 0} (a : A) → Safe (pure {World = World} a)
unfolding Safe
pure-Safe World a n h = (a, n, refl, h)

bind-Safe :
    {World A B : Type 0} (m : M World A) (f : A → M World B)
    → Safe m
    → ((a : A) → Safe (f a))
    → Safe (m >>= f)
unfolding Safe
bind-Safe m f sm sf n h =
    let (a, n', e, h') = sm n h in
    let (b, n'', e', h'') = sf a n' h' in (b, n'', ap (λ r. bind_outcome r f) e ∙ e', h'')

if-Safe :
    {World A : Type 0} (b : Bool) (m k : M World A) → Safe m → Safe k → Safe (if b then m else k)
if-Safe true m k sm sk = sm
if-Safe false m k sm sk = sk

module _ (c : Client) where
  open c use {World}

  add_tag-Safe : (tag : Str) → Safe (add_tag c tag)
  unfolding Safe add_tag
  add_tag-Safe tag n h = (tt, _, refl, add_inbound_tag-IsCoherent tag n.hash h)

  inbound_tags-Safe : Safe (inbound_tags c)
  unfolding Safe inbound_tags
  inbound_tags-Safe n h = (_, _, refl, h)

  call-Safe : {A : Type 0} (f : World → A × World) → Safe (call c f)
  unfolding Safe call
  call-Safe f n h = (_, _, refl, h)

  add_user_hash-Safe : (tag uuid : Str) → Safe (add_user_hash c tag uuid)
  unfolding Safe add_user_hash
  add_user_hash-Safe tag uuid n h =
      let (hash', e, h') = add_user_to_inbound_hash-ok tag uuid n.hash h in
      (tt, record n { hash = hash' }, ap (store_hash n) e, h')

  remove_user_hash-Safe : (tag uuid : Str) → Safe (remove_user_hash c tag uuid)
  unfolding Safe remove_user_hash
  remove_user_hash-Safe tag uuid n h =
      (tt, _, refl, remove_user_from_inbound_hash-IsCoherent tag uuid n.hash h)

  add_single_user-Safe : (item : AddUserItem) → Safe (add_single_user c item)
  unfolding add_single_user
  add_single_user-Safe item = call-Safe _

  add_batch_user-Safe :
      (inbound : BatchInboundItem) (user : BatchUserData) → Safe (add_batch_user c inbound user)
  unfolding add_batch_user
  add_batch_user-Safe inbound user = call-Safe _

  collect_user_ips-Safe : (username : Str) → Safe (collect_user_ips c username)
  unfolding collect_user_ips
  collect_user_ips-Safe username =
      if-Safe _ _ _ (pure-Safe _ _) (bind-Safe _ _ (call-Safe _) (λ entries. pure-Safe _ _))

  drop_user_ips-Safe :
      (dropper : Option Dropper) (ips : List Str) → Safe (drop_user_ips c dropper ips)
  unfolding Safe drop_user_ips
  drop_user_ips-Safe dropper ips n h = (tt, _, refl, h)

  add_tags-Safe : (tags : List Str) → Safe (add_tags c tags)
  unfolding add_tags
  add_tags-Safe [] = pure-Safe _ tt
  add_tags-Safe (tag ∷ tags) = bind-Safe _ _ (add_tag-Safe tag) (λ _. add_tags-Safe tags)

  record_removed-Safe : (r : HandlerResult) (tag uuid : Str) → Safe (record_removed c r tag uuid)
  unfolding record_removed
  record_removed-Safe r tag uuid = if-Safe _ _ _ (remove_user_hash-Safe tag uuid) (pure-Safe _ tt)

  remove_from_tags-Safe :
      (username uuid : Str) (tags : List Str) → Safe (remove_from_tags c username uuid tags)
  unfolding remove_from_tags
  remove_from_tags-Safe username uuid [] = pure-Safe _ []
  remove_from_tags-Safe username uuid (tag ∷ tags) = bind-Safe _ _ (call-Safe _) λ r.
      bind-Safe _ _ (record_removed-Safe r tag uuid)
        λ _. bind-Safe _ _ (remove_from_tags-Safe username uuid tags) λ rs. pure-Safe _ _

  record_added-Safe : (r : HandlerResult) (tag uuid : Str) → Safe (record_added c r tag uuid)
  unfolding record_added
  record_added-Safe r tag uuid = if-Safe _ _ _ (add_user_hash-Safe tag uuid) (pure-Safe _ tt)

  add_items-Safe : (uuid : Str) (items : List AddUserItem) → Safe (add_items c uuid items)
  unfolding add_items
  add_items-Safe uuid [] = pure-Safe _ []
  add_items-Safe uuid (item ∷ items) = bind-Safe _ _ (add_single_user-Safe item) λ r.
      bind-Safe _ _ (record_added-Safe r item.tag uuid)
        λ _. bind-Safe _ _ (add_items-Safe uuid items) λ rs. pure-Safe _ _

  remove_previous-Safe : (username uuid : Str) → Safe (remove_previous c username uuid)
  unfolding remove_previous
  remove_previous-Safe username uuid =
      if-Safe _ _ _ (pure-Safe _ _)
        (bind-Safe _ _ inbound_tags-Safe λ tags. remove_from_tags-Safe username uuid tags)

  add_after_removal-Safe :
      (req : AddUserRequest) (removals : List HandlerResult)
      → Safe (add_after_removal c req removals)
  unfolding add_after_removal
  add_after_removal-Safe req removals =
      if-Safe _ _ _ (pure-Safe _ _) (bind-Safe _ _ (add_items-Safe _ _) λ results. pure-Safe _ _)

  add_user_from-Safe :
      (req : AddUserRequest) (items : List AddUserItem) → Safe (add_user_from c req items)
  unfolding add_user_from
  add_user_from-Safe req [] = pure-Safe _ _
  add_user_from-Safe req (item ∷ items) =
      bind-Safe _ _ (add_tags-Safe _) λ _.
        bind-Safe _ _ (remove_previous-Safe _ _) λ removals. add_after_removal-Safe req removals

  handle_add_user-Safe : (req : Option AddUserRequest) → Safe (handle_add_user c req)
  unfolding handle_add_user
  handle_add_user-Safe none = pure-Safe _ _
  handle_add_user-Safe (some req) = add_user_from-Safe req req.items

  remove_user_from-Safe :
      (dropper : Option Dropper) (req : RemoveUserRequest) (tags : List Str)
      → Safe (remove_user_from c dropper req tags)
  unfolding remove_user_from
  remove_user_from-Safe dropper req [] = pure-Safe _ _
  remove_user_from-Safe dropper req (tag ∷ tags) = bind-Safe _ _ (collect_user_ips-Safe _) λ ips.
      bind-Safe _ _ (remove_from_tags-Safe _ _ (tag ∷ tags))
        λ results. bind-Safe _ _ (drop_user_ips-Safe dropper ips) λ _. pure-Safe _ _

  handle_remove_user-Safe :
      (dropper : Option Dropper) (req : Option RemoveUserRequest)
      → Safe (handle_remove_user c dropper req)
  unfolding handle_remove_user
  handle_remove_user-Safe dropper none = pure-Safe _ _
  handle_remove_user-Safe dropper (some req) =
      bind-Safe _ _ inbound_tags-Safe λ tags. remove_user_from-Safe dropper req tags

  add_batch-Safe :
      (user : BatchUserData) (inbounds : List BatchInboundItem) → Safe (add_batch c user inbounds)
  unfolding add_batch
  add_batch-Safe user [] = pure-Safe _ []
  add_batch-Safe user (inbound ∷ inbounds) = bind-Safe _ _ (add_batch_user-Safe inbound user) λ r.
      bind-Safe _ _ (record_added-Safe r inbound.tag user.vless_uuid)
        λ _. bind-Safe _ _ (add_batch-Safe user inbounds) λ rs. pure-Safe _ _

  add_batch_after-Safe :
      (user : BatchUser) (removals : List HandlerResult) → Safe (add_batch_after c user removals)
  unfolding add_batch_after
  add_batch_after-Safe user removals =
      if-Safe _ _ _ (pure-Safe _ _) (bind-Safe _ _ (add_batch-Safe _ _) λ results. pure-Safe _ _)

  add_one_user-Safe : (user : BatchUser) → Safe (add_one_user c user)
  unfolding add_one_user
  add_one_user-Safe user = bind-Safe _ _ (add_tags-Safe _) λ _.
      bind-Safe _ _ inbound_tags-Safe λ tags.
        bind-Safe _ _ (remove_from_tags-Safe _ _ tags)
          λ removals. add_batch_after-Safe user removals

  add_each_user-Safe : (users : List BatchUser) → Safe (add_each_user c users)
  unfolding add_each_user
  add_each_user-Safe [] = pure-Safe _ []
  add_each_user-Safe (user ∷ users) =
      bind-Safe _ _ (add_one_user-Safe user)
        λ results. bind-Safe _ _ (add_each_user-Safe users) λ rest. pure-Safe _ _

  handle_add_users-Safe : (req : Option AddUsersRequest) → Safe (handle_add_users c req)
  unfolding handle_add_users
  handle_add_users-Safe none = pure-Safe _ _
  handle_add_users-Safe (some req) =
      bind-Safe _ _ (add_tags-Safe _)
        λ _. bind-Safe _ _ (add_each_user-Safe _) λ results. pure-Safe _ _

  remove_one_user-Safe :
      (dropper : Option Dropper) (user : RemoveUsersItem) → Safe (remove_one_user c dropper user)
  unfolding remove_one_user
  remove_one_user-Safe dropper user = bind-Safe _ _ (collect_user_ips-Safe _) λ ips.
      bind-Safe _ _ inbound_tags-Safe λ tags.
        bind-Safe _ _ (remove_from_tags-Safe _ _ tags)
          λ results. bind-Safe _ _ (drop_user_ips-Safe dropper ips) λ _. pure-Safe _ _

  remove_each_user-Safe :
      (dropper : Option Dropper) (users : List RemoveUsersItem)
      → Safe (remove_each_user c dropper users)
  unfolding remove_each_user
  remove_each_user-Safe dropper [] = pure-Safe _ []
  remove_each_user-Safe dropper (user ∷ users) =
      bind-Safe _ _ (remove_one_user-Safe dropper user)
        λ results. bind-Safe _ _ (remove_each_user-Safe dropper users) λ rest. pure-Safe _ _

  remove_users_from-Safe :
      (dropper : Option Dropper) (users : List RemoveUsersItem) (tags : List Str)
      → Safe (remove_users_from c dropper users tags)
  unfolding remove_users_from
  remove_users_from-Safe dropper users [] = pure-Safe _ _
  remove_users_from-Safe dropper users (tag ∷ tags) =
      bind-Safe _ _ (remove_each_user-Safe dropper users) λ results. pure-Safe _ _

  handle_remove_users-Safe :
      (dropper : Option Dropper) (users : Option (List RemoveUsersItem))
      → Safe (handle_remove_users c dropper users)
  unfolding handle_remove_users
  handle_remove_users-Safe dropper none = pure-Safe _ _
  handle_remove_users-Safe dropper (some users) =
      bind-Safe _ _ inbound_tags-Safe λ tags. remove_users_from-Safe dropper users tags

  handle-Safe : (dropper : Option Dropper) (req : Request) → Safe (handle c dropper req)
  unfolding handle
  handle-Safe dropper (add_user_request req) = handle_add_user-Safe req
  handle-Safe dropper (remove_user_request req) = handle_remove_user-Safe dropper req
  handle-Safe dropper (add_users_request req) = handle_add_users-Safe req
  handle-Safe dropper (remove_users_request req) = handle_remove_users-Safe dropper req

  serve-Safe : (dropper : Option Dropper) (reqs : List Request) → Safe (serve c dropper reqs)
  unfolding serve
  serve-Safe dropper [] = pure-Safe _ _
  serve-Safe dropper (req ∷ reqs) =
      bind-Safe _ _ (handle-Safe dropper req)
        λ r. bind-Safe _ _ (serve-Safe dropper reqs) λ rs. pure-Safe _ _

-- Whatever the core answers, a sequence of requests to add or remove users, on a hash state in which
-- every inbound with users is a known tag and every set has the hash words of its members, is served
-- to its end with no write to a nil map, and leaves a hash state of that kind.
pub serve-ok :
    (c : Client) (dropper : Option Dropper) (reqs : List Request) (n : Node c.World)
    → IsCoherent n.hash
    → (responses : List Response) × (n' : Node c.World) × (serve c dropper reqs n
        ≡ (ok responses, n'))
      × IsCoherent n'.hash
unfolding Safe
serve-ok c dropper reqs = serve-Safe c dropper reqs
