-- ===== src/Xtls/Stats.antt =====
-- internal/xtls/stats.go: the traffic counters of the core and the users that are online.
pub mod Traffic
use Prim.Native.Nat.{zero, suc}
use remnaplus_alpine_node.Prelude.{
  suc, ℕ, ◌+◌, ◌-◌, ◌%◌, ◌^◌, Bool, true, false, not, ◌&&◌, ◌||◌, List, [], ◌∷◌, ◌++◌, map, length,
  take, drop, ltb, nat_beq, if◌then◌else◌, Str, str_eq, ◌==◌, lit, Option, none, some,
}
use remnaplus_alpine_node.Prelude.Map.{add, lookup, insert}
use remnaplus_alpine_node.Prelude.Text.{split, contains, to_lower}
use remnaplus_alpine_node.Xtls.Client.{
  Client, RpcError, status, plain, not_found, Stat, Reply, reply, failure,
}

pub record UserTraffic : Type 0 where
  pub username : Str
  pub downlink : ℕ
  pub uplink : ℕ

pub record TagTraffic : Type 0 where
  pub tag : Str
  pub downlink : ℕ
  pub uplink : ℕ

-- int64 arithmetic on two's complement words
abbrev pub wrap64 : ℕ → ℕ
wrap64 n = n % 2 ^ 64

-- The part at an index that is in range.
unfoldable pub part : ℕ → List Str → Str
part n [] = []
part zero (p ∷ parts) = p
part (suc n) (p ∷ parts) = part n parts

abbrev pub parts_of : Str → List Str
parts_of name = split name (lit ">>>")

-- The user and the direction of a counter's name, if the loop of parseUserTrafficStats takes it.
unfoldable pub user_counter : List Str → Option (Str × Str)
unfolding part
user_counter parts =
    if ltb (length parts) 3 || not (part 0 parts == lit "user")
    then none
    else let username = part 1 parts in
      let direction = part (length parts - 1) parts in
      let middle = take (length parts - 2) (drop 1 parts) in
      if username == [] || (not (direction == lit "uplink") && not (direction == lit "downlink"))
      then none
      else if not (nat_beq (length middle) 1)
          && not (nat_beq (length middle) 2 && part 1 middle == lit "traffic")
      then none
      else some (username, direction)

unfoldable pub counted : Str → ℕ → UserTraffic → UserTraffic
counted direction value entry =
    if direction == lit "downlink"
    then record entry { downlink = wrap64 (entry.downlink + value) }
    else if direction == lit "uplink"
    then record entry { uplink = wrap64 (entry.uplink + value) }
    else entry

abbrev pub user_or_new : Str → Option UserTraffic → UserTraffic
user_or_new username none = record { username = username; downlink = 0; uplink = 0 }
user_or_new username (some entry) = entry

unfoldable pub count_user :
    Option (Str × Str) → ℕ → List (Str × UserTraffic) → List (Str × UserTraffic)
count_user none value users = users
count_user (some (username, direction)) value users =
    insert username (counted direction value (user_or_new username (lookup username users))) users

unfoldable pub count_users : List Stat → List (Str × UserTraffic) → List (Str × UserTraffic)
count_users [] users = users
count_users (stat ∷ stats) users =
    count_users stats (count_user (user_counter (parts_of stat.name)) stat.value users)

unfoldable pub parse_user_traffic_stats : List Stat → List UserTraffic
parse_user_traffic_stats stats = map (λ entry. entry.1) (count_users stats [])

-- A counter's name belongs to the loops over tags.
is_tag_counter : Str → List Str → Bool
unfolding part
is_tag_counter prefix parts = not (ltb (length parts) 4) && part 0 parts == prefix

unfoldable pub set_direction : Str → ℕ → TagTraffic → TagTraffic
set_direction direction value traffic =
    if direction == lit "downlink"
    then record traffic { downlink = value }
    else if direction == lit "uplink"
    then record traffic { uplink = value }
    else traffic

count_tag : Str → List Str → ℕ → TagTraffic → TagTraffic
unfolding is_tag_counter part
count_tag prefix parts value traffic =
    if not (is_tag_counter prefix parts)
    then traffic
    else set_direction (part 3 parts) value
        (if traffic.tag == [] then record traffic { tag = part 1 parts } else traffic)

tag_loop : Str → List Stat → TagTraffic → TagTraffic
unfolding count_tag
tag_loop prefix [] traffic = traffic
tag_loop prefix (stat ∷ stats) traffic =
    tag_loop prefix stats (count_tag prefix (parts_of stat.name) stat.value traffic)

unfoldable pub parse_tag_traffic : List Stat → Str → TagTraffic
unfolding tag_loop
parse_tag_traffic stats prefix =
    tag_loop prefix stats (record { tag = []; downlink = 0; uplink = 0 })

abbrev tag_or_new : Str → Option TagTraffic → TagTraffic
tag_or_new tag none = record { tag = tag; downlink = 0; uplink = 0 }
tag_or_new tag (some entry) = entry

tags_loop : Str → List Stat → List (Str × TagTraffic) → List (Str × TagTraffic)
unfolding is_tag_counter part
tags_loop prefix [] tags = tags
tags_loop prefix (stat ∷ stats) tags =
    let parts = parts_of stat.name in
    let tag = part 1 parts in
    tags_loop prefix stats (
      if not (is_tag_counter prefix parts)
      then tags
      else insert tag (set_direction (part 3 parts) stat.value (tag_or_new tag (lookup tag tags)))
          tags)

unfoldable pub parse_all_tag_traffic : List Stat → Str → List TagTraffic
unfolding tags_loop
parse_all_tag_traffic stats prefix = map (λ entry. entry.1) (tags_loop prefix stats [])

-- The user of a metric, or an empty text.
unfoldable pub extract_online_user_id : Str → Str
unfolding part
extract_online_user_id raw =
    let parts = parts_of raw in
    if ltb (length parts) 3 || not (part 0 parts == lit "user") then [] else part 1 parts

-- The users seen so far, in the order in which they came.
unfoldable pub unique_from : List Str → List Str → List Str
unique_from users [] = users
unique_from users (metric ∷ metrics) =
    let user_id = extract_online_user_id metric in
    unique_from (if user_id == [] then users else add user_id users) metrics

unfoldable pub unique_online_user_ids : List Str → List Str
unique_online_user_ids metrics = unique_from [] metrics

abbrev on_reply : {A : Type 0} → (List Stat → A) → Reply (List Stat) → Reply A
on_reply f (reply stats) = reply (f stats)
on_reply f (failure err) = failure err

-- GetAccountingCounters keeps the last value of each name.
unfoldable pub counters_of : List Stat → List (Str × ℕ) → List (Str × ℕ)
counters_of [] counters = counters
counters_of (stat ∷ stats) counters = counters_of stats (insert stat.name stat.value counters)

module _ (c : Client) where
  open c use {World, query_stats, stats_online, error_text}

  queried : {A : Type 0} → (List Stat → A) → Str → Bool → World → Reply A × World
  queried f pattern reset w = let (r, w') = query_stats pattern reset w in (on_reply f r, w')

  unfoldable pub get_all_users_stats : Bool → World → Reply (List UserTraffic) × World
  unfolding queried
  get_all_users_stats reset = queried parse_user_traffic_stats (lit "user>>>") reset

  unfoldable pub get_accounting_counters : World → Reply (List (Str × ℕ)) × World
  unfolding queried
  get_accounting_counters = queried (λ stats. counters_of stats []) [] false

  unfoldable pub get_inbound_stats : Str → Bool → World → Reply TagTraffic × World
  unfolding queried
  get_inbound_stats tag reset =
      queried (λ stats. record (parse_tag_traffic stats (lit "inbound")) { tag = tag })
        (lit "inbound>>>" ++ tag ++ lit ">>>") reset

  unfoldable pub get_outbound_stats : Str → Bool → World → Reply TagTraffic × World
  unfolding queried
  get_outbound_stats tag reset =
      queried (λ stats. record (parse_tag_traffic stats (lit "outbound")) { tag = tag })
        (lit "outbound>>>" ++ tag ++ lit ">>>") reset

  unfoldable pub get_all_inbounds_stats : Bool → World → Reply (List TagTraffic) × World
  unfolding queried
  get_all_inbounds_stats reset =
      queried (λ stats. parse_all_tag_traffic stats (lit "inbound")) (lit "inbound>>>") reset

  unfoldable pub get_all_outbounds_stats : Bool → World → Reply (List TagTraffic) × World
  unfolding queried
  get_all_outbounds_stats reset =
      queried (λ stats. parse_all_tag_traffic stats (lit "outbound")) (lit "outbound>>>") reset

  online_of : Option RpcError → Reply Bool
  online_of none = reply true
  online_of (some (status code message)) =
      if nat_beq code not_found
      then reply false
      else if contains (to_lower (error_text (status code message))) (lit "not found")
      then reply false
      else failure (status code message)
  online_of (some (plain message)) =
      if contains (to_lower (error_text (plain message))) (lit "not found")
      then reply false
      else failure (plain message)

  unfoldable pub get_user_online_status : Str → World → Reply Bool × World
  unfolding online_of
  get_user_online_status username w =
      let (r, w') = stats_online (lit "user>>>" ++ username ++ lit ">>>online") false w in
      (online_of r, w')
