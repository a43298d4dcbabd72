-- ===== src/Xtls/Tests.antt =====
-- The module of internal/xtls at concrete inputs.
use remnaplus_alpine_node.Prelude.{arith, ◌^◌, ◌%◌, ◌+◌, ◌≡◌, lit, List, [], ◌∷◌, Str, str_eq}
use remnaplus_alpine_node.Prelude.Map.{lookup}
use remnaplus_alpine_node.Xtls.Client.{Stat}
use remnaplus_alpine_node.Xtls.Stats.{user_or_new, count_users}
use remnaplus_alpine_node.Xtls.Stats.Traffic.{total, count_users-recorded}

abbrev counters : List Stat
counters =
    record { name = lit "user>>>ann>>>traffic>>>uplink"; value = 7 }
    ∷ record { name = lit "user>>>bob>>>uplink"; value = 2 }
    ∷ record { name = lit "user>>>ann>>>uplink"; value = 1 }
    ∷ []

count_users-recorded_example :
    ((user_or_new (lit "ann") (lookup (lit "ann") (count_users counters []))).username
      ≡ (user_or_new (lit "ann") (lookup (lit "ann") [])).username)
    × ((user_or_new (lit "ann") (lookup (lit "ann") (count_users counters []))).downlink
        ≡ ((user_or_new (lit "ann") (lookup (lit "ann") [])).downlink
            + total (lit "ann") (lit "downlink") counters)
          % 2 ^ 64)
    × ((user_or_new (lit "ann") (lookup (lit "ann") (count_users counters []))).uplink
        ≡ ((user_or_new (lit "ann") (lookup (lit "ann") [])).uplink
            + total (lit "ann") (lit "uplink") counters)
          % 2 ^ 64)
unfolding lookup
count_users-recorded_example =
    count_users-recorded (lit "ann") counters [] (omega arith) (omega arith)

abbrev metrics : List Str
metrics = lit "user>>>ann>>>online" ∷ lit "user>>>ann>>>online" ∷ []
