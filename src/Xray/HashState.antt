-- ===== src/Xray/HashState.antt =====
-- internal/xray/hashstate.go and inbounds.go: the manager's record of which users each inbound has,
-- kept as one `HashedSet` to a tag, and of the inbound tags. A map field of Go that is nil is `none`.
pub mod Coherent
pub mod Restart
use remnaplus_alpine_node.Prelude.{
  ℕ, ◌≡◌, refl, Bool, true, false, not, ◌&&◌, ◌||◌, List, [], ◌∷◌, ltb, nat_beq, if◌then◌else◌, Str,
  str_eq, ◌==◌, lit, length, Option, none, some,
}
use remnaplus_alpine_node.Prelude.Map.{has, add, discard, lookup, insert, remove}
use remnaplus_alpine_node.Prelude.Json.{Json, Fields, get, as_obj, as_arr, str_or_empty, to_list}
use remnaplus_alpine_node.Prelude.Sort.{sort_strings}
use remnaplus_alpine_node.Xray.HashedSet.{
  HashedSet, empty, add_value, delete_value, new_hashed_set, size, hash64_string,
}

pub record InboundHash : Type 0 where
  pub users_count : ℕ
  pub hash : Str
  pub tag : Str

pub record ConfigHash : Type 0 where
  pub empty_config : Str
  pub inbounds : List InboundHash

pub record HashState : Type 0 where
  pub empty_config_hash : Str
  pub inbound_hashes : Option (List (Str × HashedSet))
  pub inbound_tags : Option (List Str)

abbrev pub initial : HashState
initial = record { empty_config_hash = []; inbound_hashes = none; inbound_tags = none }

-- Reading a nil map is reading an empty one.
abbrev pub entries {ℓ} : {A : Type ℓ} → Option (List A) → List A
entries none = []
entries (some m) = m

-- Writing to a nil map panics.
pub data Outcome {ℓ} (A : Type ℓ) : Type ℓ where
  ok : A → Outcome A
  panic : Outcome A

abbrev write_tag : Str → HashState → Outcome HashState
write_tag tag m = elim m.inbound_tags [
  | none ↦ panic
  | some tags ↦ ok (record m { inbound_tags = some (add tag tags) })
]

client_ids : List Json → List Str
client_ids [] = []
client_ids (item ∷ items) =
    let rest = client_ids items in
    elim (as_obj item) [
      | none ↦ rest
      | some client ↦
          let id = str_or_empty (get (lit "id") client) in if id == [] then rest else id ∷ rest
    ]

unfoldable pub extract_client_ids : Fields → List Str
unfolding client_ids
extract_client_ids inbound = elim (as_obj (get (lit "settings") inbound)) [
  | none ↦ []
  | some settings ↦ elim (as_arr (get (lit "clients") settings)) [
    | none ↦ []
    | some clients ↦ sort_strings (client_ids (to_list clients))
  ]
]

valid_tags : List InboundHash → List Str
valid_tags [] = []
valid_tags (inbound ∷ inbounds) =
    let rest = valid_tags inbounds in if inbound.tag == [] then rest else add inbound.tag rest

-- One round of the loop over the inbounds of the configuration.
extract_inbound :
    List Str → Json → List (Str × HashedSet) × List Str → List (Str × HashedSet) × List Str
extract_inbound valid item (hashes, tags) = elim (as_obj item) [
  | none ↦ (hashes, tags)
  | some inbound ↦
      let tag = str_or_empty (get (lit "tag") inbound) in
      if tag == [] || not (has tag valid)
      then (hashes, tags)
      else (insert tag (new_hashed_set (extract_client_ids inbound)) hashes, add tag tags)
]

extract_inbounds :
    List Str → List Json → List (Str × HashedSet) × List Str → List (Str × HashedSet) × List Str
extract_inbounds valid [] acc = acc
extract_inbounds valid (item ∷ items) acc =
    extract_inbounds valid items (extract_inbound valid item acc)

unfoldable pub extract_users_from_config : HashState → ConfigHash → Fields → HashState
unfolding extract_inbounds extract_inbound valid_tags
extract_users_from_config m hashes config =
    let found : List (Str × HashedSet) × List Str = elim (as_arr (get (lit "inbounds") config)) [
      | none ↦ ([], [])
      | some raw ↦ extract_inbounds (valid_tags hashes.inbounds) (to_list raw) ([], [])
    ] in
    record {
      empty_config_hash = hashes.empty_config;
      inbound_hashes = some found.0;
      inbound_tags = some found.1;
    }

-- The first incoming inbound with the tag.
unfoldable pub find_inbound : Str → List InboundHash → Option InboundHash
find_inbound tag [] = none
find_inbound tag (inbound ∷ inbounds) =
    if inbound.tag == tag then some inbound else find_inbound tag inbounds

inbound_changed : List InboundHash → Str → HashedSet → Bool
inbound_changed incoming tag users = elim (find_inbound tag incoming) [
  | none ↦ true
  | some inbound ↦ not (hash64_string users == inbound.hash)
]

any_changed : List InboundHash → List (Str × HashedSet) → Bool
any_changed incoming [] = false
any_changed incoming ((tag, users) ∷ rest) =
    if inbound_changed incoming tag users then true else any_changed incoming rest

unfoldable pub is_need_restart_core : HashState → ConfigHash → Bool
unfolding any_changed inbound_changed
is_need_restart_core m incoming =
    if m.empty_config_hash == []
    then true
    else if not (incoming.empty_config == m.empty_config_hash)
    then true
    else if not (nat_beq (length incoming.inbounds) (length (entries m.inbound_hashes)))
    then true
    else any_changed incoming.inbounds (entries m.inbound_hashes)

make_maps : HashState → HashState
make_maps m = record m {
  inbound_hashes = some (entries m.inbound_hashes);
  inbound_tags = some (entries m.inbound_tags);
}

unfoldable pub add_user_to_inbound_hash : Str → Str → HashState → Outcome HashState
unfolding make_maps
add_user_to_inbound_hash inbound_tag user_uuid m =
    if inbound_tag == [] || user_uuid == []
    then ok m
    else elim (lookup inbound_tag (entries m.inbound_hashes)) [
      | some set ↦ write_tag inbound_tag (record m {
        inbound_hashes =
            some (insert inbound_tag (add_value set user_uuid) (entries m.inbound_hashes));
      })
      | none ↦
          let m' = make_maps m in
          write_tag inbound_tag (record m' {
            inbound_hashes =
                some (insert inbound_tag (add_value empty user_uuid) (entries m'.inbound_hashes));
          })
    ]

-- `delete` on a nil map does nothing.
abbrev discard_tag : Str → Option (List Str) → Option (List Str)
discard_tag tag none = none
discard_tag tag (some tags) = some (discard tag tags)

unfoldable pub remove_user_from_inbound_hash : Str → Str → HashState → HashState
remove_user_from_inbound_hash inbound_tag user_uuid m =
    if inbound_tag == [] || user_uuid == []
    then m
    else elim (lookup inbound_tag (entries m.inbound_hashes)) [
      | none ↦ m
      | some set ↦
          let set' = (delete_value set user_uuid).0 in
          if nat_beq (size set') 0
          then record m {
            inbound_hashes = some (remove inbound_tag (entries m.inbound_hashes));
            inbound_tags = discard_tag inbound_tag m.inbound_tags;
          }
          else record m {
            inbound_hashes = some (insert inbound_tag set' (entries m.inbound_hashes));
          }
    ]

-- clearHashStateLocked
unfoldable pub clear_hash_state : HashState → HashState
clear_hash_state m = record m { empty_config_hash = []; inbound_hashes = none }

-- clearInboundTagsLocked
unfoldable pub clear_inbound_tags : HashState → HashState
clear_inbound_tags m = record m { inbound_tags = none }

unfoldable pub add_inbound_tag : Str → HashState → HashState
add_inbound_tag tag m =
    if tag == [] then m else record m { inbound_tags = some (add tag (entries m.inbound_tags)) }

unfoldable pub inbound_tags_of : HashState → List Str
inbound_tags_of m = entries m.inbound_tags

-- extractInboundTags
inbound_tag_list : List Json → List Str
inbound_tag_list [] = []
inbound_tag_list (item ∷ items) =
    let rest = inbound_tag_list items in
    elim (as_obj item) [
      | none ↦ rest
      | some inbound ↦
          let tag = str_or_empty (get (lit "tag") inbound) in if tag == [] then rest else tag ∷ rest
    ]

unfoldable pub extract_inbound_tags : Fields → List Str
unfolding inbound_tag_list
extract_inbound_tags config = elim (as_arr (get (lit "inbounds") config)) [
  | none ↦ []
  | some items ↦ inbound_tag_list (to_list items)
]

add_tags : List Str → List Str → List Str
add_tags [] set = set
add_tags (tag ∷ tags) set = add_tags tags (add tag set)

unfoldable pub reset_inbound_tags : List Str → HashState → HashState
unfolding add_tags
reset_inbound_tags tags m = record m { inbound_tags = some (add_tags tags []) }
