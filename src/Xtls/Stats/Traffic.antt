-- ===== src/Xtls/Stats/Traffic.antt =====
-- What the loops over the counters of the core collect.
use mathlib.Core.Path.{subst}
use remnaplus_alpine_node.Prelude.{
  str_beq, ap, ◌∙◌, sym, ◌≡◌, refl, ℕ, ◌+◌, ◌<◌, ◌^◌, ◌%◌, Bool, true, false, ◌&&◌, ◌||◌, lit, List,
  [], ◌∷◌, if◌then◌else◌, Str, str_eq, ◌==◌, str_beq_iff, Option, none, some, arith, inl, inr,
  Bool-cases,
}
use remnaplus_alpine_node.Prelude.Map.{
  has, add, lookup, lookup-insert, Distinct, add-Distinct, has-add,
}
use remnaplus_alpine_node.Xtls.Client.{Stat}
use remnaplus_alpine_node.Xtls.Stats.{
  UserTraffic, user_or_new, count_user, count_users, counted, wrap64, parts_of, user_counter,
  extract_online_user_id, unique_from, unique_online_user_ids,
}

-- The traffic of one user: each counter of that user's, in turn.
counted_for : Str → Option (Str × Str) → ℕ → UserTraffic → UserTraffic
counted_for user none value traffic = traffic
counted_for user (some (username, direction)) value traffic =
    if username == user then counted direction value traffic else traffic

traffic_of : Str → List Stat → UserTraffic → UserTraffic
traffic_of user [] traffic = traffic
traffic_of user (stat ∷ stats) traffic =
    traffic_of user stats (counted_for user (user_counter (parts_of stat.name)) stat.value traffic)

abbrev recorded : Str → List (Str × UserTraffic) → UserTraffic
recorded user users = user_or_new user (lookup user users)

count_user-recorded :
    (user : Str) (key : Option (Str × Str)) (value : ℕ) (users : List (Str × UserTraffic))
    → recorded user (count_user key value users) ≡ counted_for user key value (recorded user users)
unfolding count_user counted_for
count_user-recorded user none value users = refl
count_user-recorded user (some (username, direction)) value users =
    elim (Bool-cases (str_beq username user)) [
      | inl own ↦ ground (
        arith,
        (str_beq_iff username user).0 own,
        lookup-insert user username
            (counted direction value (user_or_new username (lookup username users))) users,
      )
      | inr other ↦ ground (
        arith,
        other,
        lookup-insert user username
            (counted direction value (user_or_new username (lookup username users))) users,
      )
    ]

count_users-traffic_of :
    (user : Str) (stats : List Stat) (users : List (Str × UserTraffic))
    → recorded user (count_users stats users) ≡ traffic_of user stats (recorded user users)
unfolding count_users traffic_of
count_users-traffic_of user [] users = refl
count_users-traffic_of user (stat ∷ stats) users =
    count_users-traffic_of user stats
      (count_user (user_counter (parts_of stat.name)) stat.value users)
    ∙ ap (traffic_of user stats)
        (count_user-recorded user (user_counter (parts_of stat.name)) stat.value users)

-- What a counter adds to the traffic of a user in a direction.
pub share : Str → Str → Option (Str × Str) → ℕ → ℕ
share user way none value = 0
share user way (some (username, direction)) value =
    if username == user && direction == way then value else 0

-- The sum of a user's counters of a direction.
pub total : Str → Str → List Stat → ℕ
total user way [] = 0
total user way (stat ∷ stats) =
    share user way (user_counter (parts_of stat.name)) stat.value + total user way stats

-- The traffic with these amounts added, as words of 64 bits.
abbrev IsMore : UserTraffic → ℕ → ℕ → UserTraffic → Type 0
IsMore old down up new =
    (new.username ≡ old.username)
    × (new.downlink ≡ wrap64 (old.downlink + down))
    × (new.uplink ≡ wrap64 (old.uplink + up))

abbrev if_way : Str → Str → ℕ → ℕ
if_way direction way value = if direction == way then value else 0

one_way :
    (direction : Str) → (direction == lit "downlink") ≡ true → (direction == lit "uplink") ≡ false
unfolding str_beq
one_way direction h =
    ap (λ d. str_beq d (lit "uplink")) ((str_beq_iff direction (lit "downlink")).0 h)

counted-IsMore :
    (direction : Str) (value : ℕ) (t : UserTraffic)
    → t.downlink < 2 ^ 64
    → t.uplink < 2 ^ 64
    → IsMore t
        (if_way direction (lit "downlink") value)
        (if_way direction (lit "uplink") value)
        (counted direction value t)
unfolding counted
counted-IsMore direction value t h k = elim (Bool-cases (direction == lit "downlink")) [
  | inl down ↦ rw down (rw (one_way direction down) (refl, refl, omega (arith, k)))
  | inr other ↦ rw other (elim (Bool-cases (direction == lit "uplink")) [
    | inl up ↦ rw up (refl, omega (arith, h), refl)
    | inr neither ↦ rw neither (refl, omega (arith, h), omega (arith, k))
  ])
]

counted_for-IsMore :
    (user : Str) (key : Option (Str × Str)) (value : ℕ) (t : UserTraffic)
    → t.downlink < 2 ^ 64
    → t.uplink < 2 ^ 64
    → IsMore t
        (share user (lit "downlink") key value)
        (share user (lit "uplink") key value)
        (counted_for user key value t)
unfolding counted_for share
counted_for-IsMore user none value t h k = (refl, omega (arith, h), omega (arith, k))
counted_for-IsMore user (some (username, direction)) value t h k =
    elim (Bool-cases (username == user)) [
      | inl own ↦ rw own (counted-IsMore direction value t h k)
      | inr other ↦ rw other (refl, omega (arith, h), omega (arith, k))
    ]

wrap64-bound : (n : ℕ) → wrap64 n < 2 ^ 64
wrap64-bound n = omega arith

traffic_of-IsMore :
    (user : Str) (stats : List Stat) (t : UserTraffic)
    → t.downlink < 2 ^ 64
    → t.uplink < 2 ^ 64
    → IsMore t
        (total user (lit "downlink") stats)
        (total user (lit "uplink") stats)
        (traffic_of user stats t)
unfolding traffic_of total
traffic_of-IsMore user [] t h k = (refl, omega (arith, h), omega (arith, k))
traffic_of-IsMore user (stat ∷ stats) t h k =
    let key = user_counter (parts_of stat.name) in
    let next = counted_for user key stat.value t in
    let (name, down, up) = counted_for-IsMore user key stat.value t h k in
    let rest = traffic_of-IsMore user stats next (omega (arith, down)) (omega (arith, up)) in
    (rest.0 ∙ name, omega (arith, down, rest.1), omega (arith, up, rest.2))

-- The entry that the loop over the counters keeps for a user, or a new one where it keeps none, has the
-- name it began with, and its downlink and uplink are those it began with, each a word of 64 bits, plus
-- the sum of that user's counters of the direction, modulo 2^64.
pub count_users-recorded :
    (user : Str) (stats : List Stat) (users : List (Str × UserTraffic))
    → (user_or_new user (lookup user users)).downlink < 2 ^ 64
    → (user_or_new user (lookup user users)).uplink < 2 ^ 64
    → ((user_or_new user (lookup user (count_users stats users))).username
        ≡ (user_or_new user (lookup user users)).username)
      × ((user_or_new user (lookup user (count_users stats users))).downlink
          ≡ ((user_or_new user (lookup user users)).downlink + total user (lit "downlink") stats)
            % 2 ^ 64)
      × ((user_or_new user (lookup user (count_users stats users))).uplink
          ≡ ((user_or_new user (lookup user users)).uplink + total user (lit "uplink") stats)
            % 2 ^ 64)
count_users-recorded user stats users h k =
    subst
      (IsMore (recorded user users) (total user (lit "downlink") stats)
        (total user (lit "uplink") stats))
      (sym (count_users-traffic_of user stats users))
      (traffic_of-IsMore user stats (recorded user users) h k)

-- Some metric names the user.
pub named : Str → List Str → Bool
named user [] = false
named user (metric ∷ metrics) = extract_online_user_id metric == user || named user metrics

unique_from-Distinct :
    (metrics users : List Str) → Distinct users → Distinct (unique_from users metrics)
unfolding unique_from
unique_from-Distinct [] users d = d
unique_from-Distinct (metric ∷ metrics) users d =
    elim (Bool-cases (extract_online_user_id metric == [])) [
      | inl absent ↦ rw absent (unique_from-Distinct metrics users d)
      | inr present ↦
          rw present (unique_from-Distinct metrics (add _ users) (add-Distinct _ users d))
    ]

has-unique_from :
    (metrics users : List Str) (user : Str)
    → (user == []) ≡ false
    → has user (unique_from users metrics) ≡ (has user users || named user metrics)
unfolding unique_from named
has-unique_from [] users user h = ground arith
has-unique_from (metric ∷ metrics) users user h = ground (
  arith,
  has-unique_from metrics users user h,
  has-unique_from metrics (add (extract_online_user_id metric) users) user h,
  has-add user (extract_online_user_id metric) users,
  str_beq_iff (extract_online_user_id metric) user,
  str_beq_iff (extract_online_user_id metric) [],
  str_beq_iff user [],
)

-- No user occurs twice among the users that are online, and a user with a name that is not empty is
-- among them exactly when some metric names that user.
pub unique_online_user_ids_lem :
    (metrics : List Str) (user : Str)
    → (user == []) ≡ false
    → Distinct (unique_online_user_ids metrics)
      × (has user (unique_online_user_ids metrics) ≡ named user metrics)
unfolding unique_online_user_ids has
unique_online_user_ids_lem metrics user h =
    (unique_from-Distinct metrics [] tt, has-unique_from metrics [] user h)
