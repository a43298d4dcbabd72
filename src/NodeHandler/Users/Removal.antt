-- ===== src/NodeHandler/Users/Removal.antt =====
-- After a removal that succeeds, no inbound keeps the user's UUID.
use remnaplus_alpine_node.Xray.HashState.Coherent.{IsCoherent}
use remnaplus_alpine_node.NodeHandler.Users.Results.{none_failed_of_success}
use mathlib.Core.Path.{subst}
use remnaplus_alpine_node.Xtls.Handler.{get_user_ip_list, handler_remove_user, HandlerResult}
use remnaplus_alpine_node.NodeHandler.Users.{
  aggregate_results, handle_remove_user, remove_user_from, handler_remove_user, HandlerResult,
  any_failed, record_removed, remove_from_tags,
}
use remnaplus_alpine_node.NodeHandler.Calls.{
  inbound_tags, drop_user_ips, collect_user_ips, Dropper, remove_user_hash, call,
}
use remnaplus_alpine_node.Xtls.Client.{Client}
use remnaplus_alpine_node.NodeHandler.{generic, RemoveUserRequest, ◌>>=◌, bind_outcome, M, Node}
use remnaplus_alpine_node.Prelude.{
  ◌⊎◌, ◌≡◌, refl, sym, ap, ◌∙◌, true, false, not, ◌||◌, ◌&&◌, List, [], ◌∷◌, if◌then◌else◌, Str,
  str_eq, ◌==◌, str_beq_iff, Option, none, some, arith, inl, inr, Bool-cases, Option-cases,
}
use remnaplus_alpine_node.Prelude.Map.{has, lookup, has-keys, lookup-insert, lookup-remove}
use remnaplus_alpine_node.Xray.HashedSet.{HashedSet, delete_value}
use remnaplus_alpine_node.Xray.HashedSet.Invariant.{has-delete_value}
use remnaplus_alpine_node.Xray.HashState.{
  inbound_tags_of, HashState, Outcome, ok, panic, entries, remove_user_from_inbound_hash,
}

-- No set of the inbound has the UUID.
abbrev pub Absent : Str → Str → HashState → Type 0
Absent tag uuid m =
    (s : HashedSet) → lookup tag (entries m.inbound_hashes) ≡ some s → has uuid s.members ≡ false

module _ (tag uuid : Str) (m : HashState) where
  -- What one removal leaves of an inbound's set.
  remove_lookup :
      (j : Str) (s : HashedSet)
      → lookup j (entries (remove_user_from_inbound_hash tag uuid m).inbound_hashes) ≡ some s
      → (old : HashedSet) × (lookup j (entries m.inbound_hashes) ≡ some old)
        × (s ≡ (
            if (tag == j) && not (tag == [] || uuid == []) then (delete_value old uuid).0 else old))
  unfolding remove_user_from_inbound_hash
  remove_lookup j s found = elim (Bool-cases (tag == [] || uuid == [])) [
    | inl skip ↦ (s, ground arith, ground arith)
    | inr go ↦ elim (Option-cases (lookup tag (entries m.inbound_hashes))) [
      | inl absent ↦ (s, ground arith, ground (arith, str_beq_iff tag j))
      | inr (set, e) ↦ elim (Bool-cases (tag == j)) [
        | inl same ↦ (
          set,
          ground (arith, str_beq_iff tag j),
          ground (
            arith,
            lookup-remove j tag (entries m.inbound_hashes),
            lookup-insert j tag (delete_value set uuid).0 (entries m.inbound_hashes),
          ),
        )
        | inr other ↦ (
          s,
          ground (
            arith,
            lookup-remove j tag (entries m.inbound_hashes),
            lookup-insert j tag (delete_value set uuid).0 (entries m.inbound_hashes),
          ),
          ground arith,
        )
      ]
    ]
  ]

  remove-Absent :
      (tag == [] || uuid == []) ≡ false → Absent tag uuid (remove_user_from_inbound_hash tag uuid m)
  remove-Absent go s found =
      let (old, was, now) = remove_lookup tag s found in
      ground (arith, str_beq_iff tag tag, str_beq_iff uuid uuid, has-delete_value old uuid uuid)

  -- Nothing appears in any inbound.
  remove_keeps-Absent :
      (j k : Str) → Absent j k m → Absent j k (remove_user_from_inbound_hash tag uuid m)
  remove_keeps-Absent j k absent s found =
      let (old, was, now) = remove_lookup j s found in
      ground (arith, absent old was, has-delete_value old k uuid)

-- Inversion of a step that returned.
inv_outcome :
    {World A B : Type 0} (o : Outcome A × Node World) (f : A → M World B) {b : B} {n'' : Node World}
    → bind_outcome o f ≡ (ok b, n'')
    → (a : A) × (n' : Node World) × (o ≡ (ok a, n')) × (f a n' ≡ (ok b, n''))
inv_outcome (ok a, n') f h = (a, n', refl, h)
inv_outcome (panic, n') f h = cc

inv_bind :
    {World A B : Type 0} (m : M World A) (f : A → M World B) (n : Node World) {b : B}
    {n'' : Node World}
    → (m >>= f) n ≡ (ok b, n'')
    → (a : A) × (n' : Node World) × (m n ≡ (ok a, n')) × (f a n' ≡ (ok b, n''))
inv_bind m f n h = inv_outcome (m n) f h

-- What a removal from the first tag does for the tags that are left.
step_Absent :
    (tag uuid j : Str) (tags : List Str) (m m' : HashState)
    → (uuid == []) ≡ false
    → (j == []) ≡ false
    → m' ≡ remove_user_from_inbound_hash tag uuid m
    → (has j (tag ∷ tags) ≡ true) ⊎ Absent j uuid m
    → (has j tags ≡ true) ⊎ Absent j uuid m'
unfolding has
step_Absent tag uuid j tags m m' u jn e (inr a) =
    inr (rw e (remove_keeps-Absent tag uuid m j uuid a))
step_Absent tag uuid j tags m m' u jn e (inl h) = elim (Bool-cases (tag == j)) [
  | inl same ↦
      let eq : tag ≡ j = (str_beq_iff tag j).0 same in
      inr (
        rw e (
          subst (λ (k : Str). Absent k uuid (remove_user_from_inbound_hash tag uuid m)) eq
            (remove-Absent tag uuid m (ground (arith, eq)))))
  | inr other ↦ inl (ground arith)
]

failed_parts :
    (r : HandlerResult) (rs' rs : List HandlerResult)
    → rs ≡ r ∷ rs'
    → any_failed rs ≡ false
    → (r.is_ok ≡ true) × (any_failed rs' ≡ false)
unfolding any_failed
failed_parts r rs' rs e h = ground arith

module _ (c : Client) where
  open c use {World}

  call-hash :
      {A : Type 0} (f : World → A × World) (n n' : Node World) (a : A)
      → call c f n ≡ (ok a, n')
      → n'.hash ≡ n.hash
  unfolding call
  call-hash f n n' a h = ap (λ p. p.1.hash) (sym h)

  record_removed-hash :
      (r : HandlerResult) (tag uuid : Str) (n n' : Node World)
      → record_removed c r tag uuid n ≡ (ok tt, n')
      → n'.hash ≡ (if r.is_ok then remove_user_from_inbound_hash tag uuid n.hash else n.hash)
  unfolding record_removed remove_user_hash
  record_removed-hash r tag uuid n n' h = elim (Bool-cases r.is_ok) [
    | inl good ↦ rw good (ap (λ p. p.1.hash) (sym (rw good at h)))
    | inr bad ↦ rw bad (ap (λ p. p.1.hash) (sym (rw bad at h)))
  ]

  after_removal :
      (r : HandlerResult) (n n1 n2 : Node World) (tag uuid : Str)
      → r.is_ok ≡ true
      → n1.hash ≡ n.hash
      → record_removed c r tag uuid n1 ≡ (ok tt, n2)
      → n2.hash ≡ remove_user_from_inbound_hash tag uuid n.hash
  after_removal r n n1 n2 tag uuid good same e =
      record_removed-hash r tag uuid n1 n2 e ∙ rw (good, same) refl

  -- A removal from the listed tags that does not fail leaves the UUID in none of them, and puts it
  -- nowhere else.
  remove_from_tags-Absent :
      (username uuid : Str) (tags : List Str) (n n' : Node World) (rs : List HandlerResult)
      → (uuid == []) ≡ false
      → remove_from_tags c username uuid tags n ≡ (ok rs, n')
      → any_failed rs ≡ false
      → (j : Str) → (j == []) ≡ false
      → (has j tags ≡ true) ⊎ Absent j uuid n.hash
      → Absent j uuid n'.hash
  unfolding remove_from_tags has
  remove_from_tags-Absent username uuid [] n n' rs u h good j jn (inl m) = cc
  remove_from_tags-Absent username uuid [] n n' rs u h good j jn (inr a) =
      rw (ap (λ p. p.1.hash) (sym h)) a
  remove_from_tags-Absent username uuid (tag ∷ tags) n n' rs u h good j jn before =
      let (r, n1, e1, h1) = inv_bind (call c (handler_remove_user c tag username)) _ n h in
      let (_, n2, e2, h2) = inv_bind (record_removed c r tag uuid) _ n1 h1 in
      let (rs', n3, e3, h3) = inv_bind (remove_from_tags c username uuid tags) _ n2 h2 in
      let all : rs ≡ r ∷ rs' = cc h3 in
      let final : n' ≡ n3 = cc h3 in
      let fine = failed_parts r rs' rs all good in
      let done : n2.hash ≡ remove_user_from_inbound_hash tag uuid n.hash =
        after_removal r n n1 n2 tag uuid fine.0 (call-hash _ n n1 r e1) e2 in
      rw final (
        remove_from_tags-Absent username uuid tags n2 n3 rs' u e3 fine.1 j jn
          (step_Absent tag uuid j tags n.hash n2.hash u jn done before))

  collect_user_ips-hash :
      (username : Str) (n n' : Node World) (ips : List Str)
      → collect_user_ips c username n ≡ (ok ips, n')
      → n'.hash ≡ n.hash
  unfolding collect_user_ips
  collect_user_ips-hash username n n' ips h = elim (Bool-cases (username == [])) [
    | inl skip ↦ ap (λ p. p.1.hash) (sym (rw skip at h))
    | inr go ↦
        let (r, n1, e1, h1) =
          inv_bind (call c (get_user_ip_list c username true)) _ n (rw go at h) in
        ap (λ p. p.1.hash) (sym h1) ∙ call-hash (get_user_ip_list c username true) n n1 r e1
  ]

  remove_user_from-Absent :
      (dropper : Option Dropper) (req : RemoveUserRequest) (tags : List Str) (n n' : Node World)
      → (req.hash_data.vless_uuid == []) ≡ false
      → remove_user_from c dropper req tags n ≡ (ok (generic true none), n')
      → (j : Str) → (j == []) ≡ false
      → (has j tags ≡ true) ⊎ Absent j req.hash_data.vless_uuid n.hash
      → Absent j req.hash_data.vless_uuid n'.hash
  unfolding remove_user_from has drop_user_ips
  remove_user_from-Absent dropper req [] n n' u h j jn (inl m) = cc
  remove_user_from-Absent dropper req [] n n' u h j jn (inr a) = rw (ap (λ p. p.1.hash) (sym h)) a
  remove_user_from-Absent dropper req (tag ∷ tags) n n' u h j jn before =
      let uuid = req.hash_data.vless_uuid in
      let (ips, n1, e1, h1) = inv_bind (collect_user_ips c req.username) _ n h in
      let (rs, n2, e2, h2) = inv_bind (remove_from_tags c req.username uuid (tag ∷ tags)) _ n1 h1 in
      let same : n1.hash ≡ n.hash = collect_user_ips-hash req.username n n1 ips e1 in
      let good : aggregate_results rs ≡ generic true none = cc h2 in
      let final : n'.hash ≡ n2.hash = ap (λ p. p.1.hash) (sym h2) in
      rw final (
        remove_from_tags-Absent req.username uuid (tag ∷ tags) n1 n2 rs u e2
          (none_failed_of_success rs good) j jn (rw same before))

-- Where a `range` loop visits exactly the keys of a map, and the UUID of the request is not empty, a
-- remove-user request on a coherent hash state that is answered with success leaves that UUID in the
-- set of no inbound whose tag is not empty.
pub handle_remove_user-Absent :
    (c : Client) (dropper : Option Dropper) (req : RemoveUserRequest) (n n' : Node c.World)
    → ((w : c.World) (k : Str) (l : List Str) → has k (c.range_order w l) ≡ has k l)
    → IsCoherent n.hash
    → (req.hash_data.vless_uuid == []) ≡ false
    → handle_remove_user c dropper (some req) n ≡ (ok (generic true none), n')
    → (tag : Str) (set : HashedSet) → (tag == []) ≡ false
    → lookup tag (entries n'.hash.inbound_hashes) ≡ some set
    → has req.hash_data.vless_uuid set.members ≡ false
unfolding handle_remove_user inbound_tags inbound_tags_of
handle_remove_user-Absent c dropper req n n' visits coherent u h tag set tn found =
    remove_user_from-Absent c dropper req tags n n' u h tag tn covered set found
  where
    tags : List Str
    tags = c.range_order n.world (entries n.hash.inbound_tags)

    covered : (has tag tags ≡ true) ⊎ Absent tag req.hash_data.vless_uuid n.hash
    covered = elim (Bool-cases (has tag tags)) [
      | inl in_tags ↦ inl in_tags
      | inr out ↦ inr (λ s e. absurd (
          ground (
            arith,
            visits n.world tag (entries n.hash.inbound_tags),
            coherent.tagged tag,
            has-keys tag (entries n.hash.inbound_hashes),
          )))
    ]
