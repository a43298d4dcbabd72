-- ===== src/Xray/HashState/Coherent.antt =====
-- What every operation on the hash state keeps: each inbound that has users is a known tag, so that
-- no write goes to a nil map, and each set keeps the invariant of `HashedSet`.
use remnaplus_alpine_node.Prelude.{
  nat_beq, ◌≡◌, refl, true, not, ◌||◌, List, [], ◌∷◌, arith, Str, str_eq, ◌==◌, str_beq_iff, lit,
  inl, inr, Bool-cases, Option, none, some, Option-cases,
}
use remnaplus_alpine_node.Prelude.Map.{
  has, add, discard, remove, add-Distinct, discard-Distinct, keys, lookup, insert, Distinct,
  has-add, has-discard, lookup-insert, lookup-remove, has-keys, has-keys-insert, has-keys-remove,
  insert-Distinct, remove-Distinct,
}
use remnaplus_alpine_node.Prelude.Json.{Json, Fields, get, as_arr, str_or_empty, to_list}
use remnaplus_alpine_node.Xray.HashedSet.{size, HashedSet, empty, add_value, delete_value}
use remnaplus_alpine_node.Xray.HashedSet.Invariant.{
  empty-IsValid, add_value-IsValid, delete_value-IsValid, new_hashed_set-IsValid,
}
use remnaplus_alpine_node.Xray.HashedSet.Invariant
use remnaplus_alpine_node.Xray.HashState.{
  discard_tag, HashState, ConfigHash, ok, entries, initial, extract_inbound, extract_inbounds,
  valid_tags, extract_users_from_config, add_user_to_inbound_hash, remove_user_from_inbound_hash,
  add_inbound_tag,
}

-- Of the two maps.
pub record Coheres (hashes : List (Str × HashedSet)) (tags : List Str) : Type 0 where
  pub tagged : (k : Str) → has k (keys hashes) ≡ true → has k tags ≡ true
  pub valid : (k : Str) (s : HashedSet) → lookup k hashes ≡ some s → Invariant.IsValid s
  pub distinct : Distinct (keys hashes)
  pub distinct_tags : Distinct tags

module _ (k : Str) (hashes : List (Str × HashedSet)) (tags : List Str)
    (c : Coheres hashes tags) where
  Coheres-insert : (s : HashedSet) → Invariant.IsValid s → Coheres (insert k s hashes) (add k tags)
  Coheres-insert s v = record {
    tagged = λ j h.
        ground (arith, c.tagged j, has-add j k tags, has-keys-insert j k s hashes, str_beq_iff k j);
    valid = λ j t h. ground (arith, c.valid j t, lookup-insert j k s hashes);
    distinct = insert-Distinct k s hashes c.distinct;
    distinct_tags = add-Distinct k tags c.distinct_tags;
  }

  -- A set of an inbound that is there is replaced.
  Coheres-update :
      (s t : HashedSet)
      → lookup k hashes ≡ some t
      → Invariant.IsValid s
      → Coheres (insert k s hashes) tags
  Coheres-update s t h v = record {
    tagged = λ j p. ground (
      arith,
      c.tagged j,
      c.tagged k,
      has-keys k hashes,
      has-keys-insert j k s hashes,
      str_beq_iff k j,
    );
    valid = λ j u p. ground (arith, c.valid j u, lookup-insert j k s hashes);
    distinct = insert-Distinct k s hashes c.distinct;
    distinct_tags = c.distinct_tags;
  }

  Coheres-remove : Coheres (remove k hashes) (discard k tags)
  Coheres-remove = record {
    tagged = λ j h.
        ground
          (arith, c.tagged j, has-discard j k tags, has-keys-remove j k hashes, str_beq_iff k j);
    valid = λ j t h. ground (arith, c.valid j t, lookup-remove j k hashes);
    distinct = remove-Distinct k hashes c.distinct;
    distinct_tags = discard-Distinct k tags c.distinct_tags;
  }

  Coheres-add : Coheres hashes (add k tags)
  Coheres-add = record {
    tagged = λ j h. ground (arith, c.tagged j, has-add j k tags);
    valid = c.valid;
    distinct = c.distinct;
    distinct_tags = add-Distinct k tags c.distinct_tags;
  }

abbrev pub IsCoherent : HashState → Type 0
IsCoherent m = Coheres (entries m.inbound_hashes) (entries m.inbound_tags)

pub initial-IsCoherent : IsCoherent initial
unfolding has lookup
initial-IsCoherent = record {
  tagged = λ k h. h;
  valid = λ k s h. cc;
  distinct = tt;
  distinct_tags = tt;
}

extract_inbound-Coheres :
    (valid : List Str) (item : Json) (hashes : List (Str × HashedSet)) (tags : List Str)
    → Coheres hashes tags
    → Coheres
        (extract_inbound valid item (hashes, tags)).0
        (extract_inbound valid item (hashes, tags)).1
unfolding extract_inbound
extract_inbound-Coheres valid (Json.obj inbound) hashes tags c =
    elim (Bool-cases (tag == [] || not (has tag valid))) [
      | inl skip ↦ rw skip c
      | inr take ↦ rw take (Coheres-insert tag hashes tags c _ (new_hashed_set-IsValid _))
    ]
  where
    tag : Str
    tag = str_or_empty (get (lit "tag") inbound)
extract_inbound-Coheres valid _ hashes tags c = c

extract_inbounds-Coheres :
    (valid : List Str) (items : List Json) (acc : List (Str × HashedSet) × List Str)
    → Coheres acc.0 acc.1
    → Coheres (extract_inbounds valid items acc).0 (extract_inbounds valid items acc).1
unfolding extract_inbounds
extract_inbounds-Coheres valid [] acc c = c
extract_inbounds-Coheres valid (item ∷ items) acc c =
    extract_inbounds-Coheres valid items (extract_inbound valid item acc)
      (extract_inbound-Coheres valid item acc.0 acc.1 c)

nil-Coheres : Coheres [] []
nil-Coheres = initial-IsCoherent

-- Whatever the configuration and the hashes are, the sets read from them are coherent: every inbound
-- with a set is a known tag, no tag occurs twice, and every set has the hash words of its members.
pub extract_users_from_config-IsCoherent :
    (m : HashState) (hashes : ConfigHash) (config : Fields)
    → IsCoherent (extract_users_from_config m hashes config)
unfolding extract_users_from_config
extract_users_from_config-IsCoherent m hashes config =
    elim (Option-cases (as_arr (get (lit "inbounds") config))) [
      | inl absent ↦ rw absent nil-Coheres
      | inr (raw, found) ↦
          rw found (
            extract_inbounds-Coheres (valid_tags hashes.inbounds) (to_list raw) ([], [])
              nil-Coheres)
    ]

entries-discard_tag :
    (tag : Str) (t : Option (List Str)) → entries (discard_tag tag t) ≡ discard tag (entries t)
unfolding discard
entries-discard_tag tag none = refl
entries-discard_tag tag (some tags) = refl

-- Removing a user from an inbound keeps the hash state coherent, also where the user was the last one
-- and the inbound and its tag go.
pub remove_user_from_inbound_hash-IsCoherent :
    (tag uuid : Str) (m : HashState)
    → IsCoherent m
    → IsCoherent (remove_user_from_inbound_hash tag uuid m)
unfolding remove_user_from_inbound_hash
remove_user_from_inbound_hash-IsCoherent tag uuid m c =
    elim (Bool-cases (tag == [] || uuid == [])) [
      | inl skip ↦ rw skip c
      | inr go ↦ rw go (elim (Option-cases (lookup tag (entries m.inbound_hashes))) [
        | inl absent ↦ rw absent c
        | inr (set, found) ↦
            rw found (elim (Bool-cases (nat_beq (size (delete_value set uuid).0) 0)) [
              | inl last ↦
                  rw (last, entries-discard_tag tag m.inbound_tags) (Coheres-remove tag _ _ c)
              | inr more ↦ rw more (
                  Coheres-update tag _ _ c _ set found
                    (delete_value-IsValid set uuid (c.valid tag set found)))
            ])
      ])
    ]

-- A tag write on a coherent state finds a map.
tags_made :
    (tag : Str) (m : HashState) (set : HashedSet)
    → IsCoherent m
    → lookup tag (entries m.inbound_hashes) ≡ some set
    → (tags : List Str) × (m.inbound_tags ≡ some tags)
unfolding has
tags_made tag m set c found = elim (Option-cases m.inbound_tags) [
  | inl absent ↦ absurd (ground (arith, c.tagged tag, has-keys tag (entries m.inbound_hashes)))
  | inr made ↦ made
]

-- On a coherent hash state, adding a user to an inbound does not write to a nil map, and it keeps the
-- state coherent.
pub add_user_to_inbound_hash-ok :
    (tag uuid : Str) (m : HashState)
    → IsCoherent m
    → (m' : HashState) × (add_user_to_inbound_hash tag uuid m ≡ ok m') × IsCoherent m'
unfolding add_user_to_inbound_hash
add_user_to_inbound_hash-ok tag uuid m c = elim (Bool-cases (tag == [] || uuid == [])) [
  | inl skip ↦ rw skip (m, refl, c)
  | inr go ↦ rw go (elim (Option-cases (lookup tag (entries m.inbound_hashes))) [
    | inl absent ↦
        rw absent (_, refl, Coheres-insert tag _ _ c _ (add_value-IsValid empty uuid empty-IsValid))
    | inr (set, found) ↦
        let (tags, made) = tags_made tag m set c found in
        rw (found, made)
          (
            record m {
              inbound_hashes = some (insert tag (add_value set uuid) (entries m.inbound_hashes));
              inbound_tags = some (add tag tags);
            },
            refl,
            Coheres-insert tag _ tags (rw made at c) _
                (add_value-IsValid set uuid (c.valid tag set found)),
          )
  ])
]

pub add_inbound_tag-IsCoherent :
    (tag : Str) (m : HashState) → IsCoherent m → IsCoherent (add_inbound_tag tag m)
unfolding add_inbound_tag
add_inbound_tag-IsCoherent tag m c = elim (Bool-cases (tag == [])) [
  | inl skip ↦ rw skip c
  | inr go ↦ rw go (Coheres-add tag _ _ c)
]
