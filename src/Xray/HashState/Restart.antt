-- ===== src/Xray/HashState/Restart.antt =====
-- When `isNeedRestartCoreLocked` lets the running core stay.
use remnaplus_alpine_node.Prelude.{
  ◌∙◌, sym, length-map, ◌≡◌, refl, ◌≢◌, ◌↔◌, true, false, List, [], ◌∷◌, arith, Str, str_eq,
  str_beq_iff, inl, inr, some, Option-cases, length, map,
}
use remnaplus_alpine_node.Prelude.Map.{
  has, keys, lookup, Distinct, is_some, has-keys, has_of_subset,
}
use remnaplus_alpine_node.Xray.HashedSet.{HashedSet, hash64_string, hash64_from_items}
use remnaplus_alpine_node.Xray.HashedSet.XorAll.{SameMembers}
use remnaplus_alpine_node.Xray.HashedSet.Tracks.{hash64_of_users}
use remnaplus_alpine_node.Xray.HashState.{
  HashState, ConfigHash, InboundHash, entries, find_inbound, inbound_changed, any_changed,
  is_need_restart_core,
}
use remnaplus_alpine_node.Xray.HashState.Coherent.{IsCoherent}

-- The incoming hashes have an inbound with the tag, and the first one has the hash of the users.
abbrev pub Matches : List InboundHash → Str → HashedSet → Type 0
Matches incoming tag users =
    (inbound : InboundHash) × (find_inbound tag incoming ≡ some inbound)
    × (inbound.hash ≡ hash64_string users)

pub record UpToDate (m : HashState) (incoming : ConfigHash) : Type 0 where
  pub started : m.empty_config_hash ≢ []
  pub same_base : incoming.empty_config ≡ m.empty_config_hash
  pub same_count : length incoming.inbounds ≡ length (entries m.inbound_hashes)
  pub matches :
      (tag : Str) (users : HashedSet)
      → lookup tag (entries m.inbound_hashes) ≡ some users
      → Matches incoming.inbounds tag users

unchanged-Matches :
    (incoming : List InboundHash) (tag : Str) (users : HashedSet)
    → inbound_changed incoming tag users ≡ false
    → Matches incoming tag users
unfolding inbound_changed
unchanged-Matches incoming tag users h = elim (Option-cases (find_inbound tag incoming)) [
  | inl absent ↦ absurd (ground arith)
  | inr (inbound, found) ↦
      (inbound, found, ground (arith, str_beq_iff (hash64_string users) inbound.hash))
]

Matches-unchanged :
    (incoming : List InboundHash) (tag : Str) (users : HashedSet)
    → Matches incoming tag users
    → inbound_changed incoming tag users ≡ false
unfolding inbound_changed
Matches-unchanged incoming tag users (inbound, found, same) =
    ground (arith, str_beq_iff (hash64_string users) inbound.hash)

any_changed-false :
    (incoming : List InboundHash) (hashes : List (Str × HashedSet)) (tag : Str) (users : HashedSet)
    → any_changed incoming hashes ≡ false
    → lookup tag hashes ≡ some users
    → inbound_changed incoming tag users ≡ false
unfolding any_changed lookup
any_changed-false incoming [] tag users h found = cc
any_changed-false incoming ((t, u) ∷ rest) tag users h found =
    ground (arith, str_beq_iff t tag, any_changed-false incoming rest tag users)

all_unchanged :
    (incoming : List InboundHash) (hashes : List (Str × HashedSet))
    → Distinct (keys hashes)
    → ((tag : Str) (users : HashedSet)
        → lookup tag hashes ≡ some users
        → inbound_changed incoming tag users ≡ false)
    → any_changed incoming hashes ≡ false
unfolding any_changed lookup
all_unchanged incoming [] d same = refl
all_unchanged incoming ((t, u) ∷ rest) d same = ground (
  arith,
  same t u,
  str_beq_iff t t,
  all_unchanged incoming rest d.1
      (λ tag users found. ground (arith, same tag users, str_beq_iff t tag, has-keys t rest)),
)

need_restart-UpToDate :
    (m : HashState) (incoming : ConfigHash)
    → is_need_restart_core m incoming ≡ false
    → UpToDate m incoming
unfolding is_need_restart_core
need_restart-UpToDate m incoming h = record {
  started = λ e. ground (arith, str_beq_iff m.empty_config_hash []);
  same_base = ground (arith, str_beq_iff incoming.empty_config m.empty_config_hash);
  same_count = ground arith;
  matches = λ tag users found. unchanged-Matches incoming.inbounds tag users (
      any_changed-false incoming.inbounds (entries m.inbound_hashes) tag users (ground arith)
        found);
}

UpToDate-need_restart :
    (m : HashState) (incoming : ConfigHash)
    → Distinct (keys (entries m.inbound_hashes))
    → UpToDate m incoming
    → is_need_restart_core m incoming ≡ false
unfolding is_need_restart_core
UpToDate-need_restart m incoming d u = ground (
  arith,
  u.started,
  u.same_base,
  u.same_count,
  str_beq_iff m.empty_config_hash [],
  str_beq_iff incoming.empty_config m.empty_config_hash,
  all_unchanged incoming.inbounds (entries m.inbound_hashes) d (λ tag users found.
      Matches-unchanged incoming.inbounds tag users (u.matches tag users found)),
)

-- On a coherent state the running core is kept exactly when it has been started with a
-- base configuration of the incoming hash, the incoming hashes count as many inbounds as are
-- recorded, and for every recorded inbound the first incoming entry with its tag carries the hash
-- of its users.
pub is_need_restart_core_iff :
    (m : HashState) (incoming : ConfigHash)
    → IsCoherent m
    → (is_need_restart_core m incoming ≡ false) ↔ UpToDate m incoming
is_need_restart_core_iff m incoming c =
    (need_restart-UpToDate m incoming, UpToDate-need_restart m incoming c.distinct)

abbrev pub tags_of : List InboundHash → List Str
tags_of = map (λ inbound. inbound.tag)

has_of_find :
    (tag : Str) (incoming : List InboundHash)
    → has tag (tags_of incoming) ≡ is_some (find_inbound tag incoming)
unfolding has find_inbound
has_of_find tag [] = refl
has_of_find tag (inbound ∷ incoming) = ground (arith, has_of_find tag incoming)

recorded_incoming :
    (m : HashState) (incoming : ConfigHash) (tag : Str)
    → UpToDate m incoming
    → has tag (keys (entries m.inbound_hashes)) ≡ true
    → has tag (tags_of incoming.inbounds) ≡ true
recorded_incoming m incoming tag u p = elim (Option-cases (lookup tag (entries m.inbound_hashes))) [
  | inl absent ↦ absurd (ground (arith, has-keys tag (entries m.inbound_hashes)))
  | inr (users, found) ↦
      let (inbound, first, same) = u.matches tag users found in
      ground (arith, has_of_find tag incoming.inbounds, first)
]

-- The code never looks for an incoming inbound among the recorded ones. Still, on a coherent state,
-- where the core is kept and the incoming tags are distinct, every incoming tag is recorded.
pub incoming_recorded :
    (m : HashState) (incoming : ConfigHash)
    → IsCoherent m
    → Distinct (tags_of incoming.inbounds)
    → is_need_restart_core m incoming ≡ false
    → (tag : Str) → has tag (tags_of incoming.inbounds) ≡ true
    → has tag (keys (entries m.inbound_hashes)) ≡ true
incoming_recorded m incoming c d h =
    let u = need_restart-UpToDate m incoming h in
    has_of_subset (keys (entries m.inbound_hashes)) (tags_of incoming.inbounds) c.distinct d
      (λ tag p. recorded_incoming m incoming tag u p)
      (omega (
        arith,
        u.same_count,
        length-map (λ (i : InboundHash). i.tag) incoming.inbounds,
        length-map (λ (p : Str × HashedSet). p.0) (entries m.inbound_hashes),
      ))

-- The dashboard's hashes describe these users of these inbounds.
pub record Describes (incoming : ConfigHash) (users : Str → List Str) (m : HashState) : Type 0 where
  pub started : m.empty_config_hash ≢ []
  pub same_base : incoming.empty_config ≡ m.empty_config_hash
  pub same_count : length incoming.inbounds ≡ length (entries m.inbound_hashes)
  pub same_users :
      (tag : Str) (set : HashedSet)
      → lookup tag (entries m.inbound_hashes) ≡ some set
      → SameMembers set.members (users tag)
  pub hashed :
      (tag : Str)
      → has tag (keys (entries m.inbound_hashes)) ≡ true
      → (inbound : InboundHash) × (find_inbound tag incoming.inbounds ≡ some inbound)
        × (inbound.hash ≡ hash64_from_items (users tag))

-- On a coherent state whose base configuration is that of the incoming hashes and which records as
-- many inbounds as they count: where each recorded set has the members of the dashboard's list of
-- users for that inbound, in whatever order they are, and the first incoming entry with its tag has
-- the hash of that list, the core is not restarted.
pub no_restart_of_Describes :
    (m : HashState) (incoming : ConfigHash) (users : Str → List Str)
    → IsCoherent m
    → Describes incoming users m
    → is_need_restart_core m incoming ≡ false
no_restart_of_Describes m incoming users c d = UpToDate-need_restart m incoming c.distinct (record {
  started = d.started;
  same_base = d.same_base;
  same_count = d.same_count;
  matches = λ tag set found.
      let (inbound, first, hash) =
        d.hashed tag (ground (arith, has-keys tag (entries m.inbound_hashes))) in
      (
        inbound,
        first,
        hash
            ∙ sym (
                hash64_of_users set (users tag) (c.valid tag set found)
                  (d.same_users tag set found)),
      );
})
