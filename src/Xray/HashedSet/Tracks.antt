-- ===== src/Xray/HashedSet/Tracks.antt =====
-- A set that is updated user by user against a set built anew from the list of users.
use remnaplus_alpine_node.Prelude.{◌≡◌, List, [], ◌∷◌, arith, Str, str_eq}
use remnaplus_alpine_node.Prelude.Map.{has, discard, has-discard}
use remnaplus_alpine_node.Prelude.Sort.{sort_strings, has-sort_strings}
use remnaplus_alpine_node.Xray.HashedSet.{
  HashedSet, add_value, delete_value, new_hashed_set, hash64_string, hash64_from_items,
}
use remnaplus_alpine_node.Xray.HashedSet.XorAll.{SameMembers}
use remnaplus_alpine_node.Xray.HashedSet.Invariant.{
  IsValid, add_value-IsValid, delete_value-IsValid, new_hashed_set-IsValid, has-add_value,
  has-delete_value, has-new_hashed_set, hash64_string_same,
}

pub data Update : Type 0 where
  added removed : Str → Update

-- What the node does to its set.
pub update_set : Update → HashedSet → HashedSet
update_set (added user) s = add_value s user
update_set (removed user) s = (delete_value s user).0

pub update_sets : List Update → HashedSet → HashedSet
update_sets [] s = s
update_sets (u ∷ us) s = update_sets us (update_set u s)

-- What it means for the list of users.
pub update_users : List Update → List Str → List Str
update_users [] users = users
update_users (added user ∷ us) users = update_users us (user ∷ users)
update_users (removed user ∷ us) users = update_users us (discard user users)

-- A valid set with the members of a list of users has the hash of that list.
pub hash64_of_users :
    (s : HashedSet) (users : List Str)
    → IsValid s
    → SameMembers s.members users
    → hash64_string s ≡ hash64_from_items users
unfolding hash64_from_items
hash64_of_users s users v same =
    hash64_string_same s (new_hashed_set (sort_strings users)) v (new_hashed_set-IsValid _)
      (λ k. cc (same k, has-new_hashed_set (sort_strings users) k, has-sort_strings k users))

tracks :
    (us : List Update) (s : HashedSet) (users : List Str)
    → IsValid s
    → SameMembers s.members users
    → hash64_string (update_sets us s) ≡ hash64_from_items (update_users us users)
unfolding update_sets update_users update_set has
tracks [] s users v same = hash64_of_users s users v same
tracks (added user ∷ us) s users v same =
    tracks us (add_value s user) (user ∷ users) (add_value-IsValid s user v)
      (λ k. ground (arith, same k, has-add_value s k user))
tracks (removed user ∷ us) s users v same =
    tracks us (delete_value s user).0 (discard user users) (delete_value-IsValid s user v)
      (λ k. ground (arith, same k, has-delete_value s k user, has-discard k user users))

-- A set built from a list of users and then updated by any sequence of additions and deletions has
-- the hash string that is computed from scratch for the list of users with the same updates.
pub hash64_string-update_sets :
    (us : List Update) (items : List Str)
    → hash64_string (update_sets us (new_hashed_set items))
      ≡ hash64_from_items (update_users us items)
hash64_string-update_sets us items =
    tracks us (new_hashed_set items) items (new_hashed_set-IsValid items) (has-new_hashed_set items)
