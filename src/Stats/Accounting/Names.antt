-- ===== src/Stats/Accounting/Names.antt =====
-- internal/stats/accounting_snapshot.go: the names of the counters that the journal accounts for, and
-- those of internal/xtls/stats.go.
use remnaplus_alpine_node.Prelude.{
  inl, inr, Bool-cases, suc, suc, ◌≡◌, refl, ap, ℕ, ◌-◌, Bool, false, not, ◌&&◌, ◌||◌, List, [],
  ◌∷◌, length, take, drop, ltb, nat_beq, if◌then◌else◌, Str, str_eq, ◌==◌, lit, Option, some, none,
  arith,
}
use remnaplus_alpine_node.Prelude.Text.{split}
use remnaplus_alpine_node.Xtls.Stats.{part, user_counter}

-- The kind, the name and the direction of a counter.
unfoldable pub parse_parts : List Str → Option (Str × Str × Str)
parse_parts parts =
    if ltb (length parts) 3
    then none
    else let kind = part 0 parts in
      let direction = part (length parts - 1) parts in
      let middle = take (length parts - 2) (drop 1 parts) in
      if not (kind == lit "user") && not (kind == lit "inbound") && not (kind == lit "outbound")
      then none
      else if not (direction == lit "downlink") && not (direction == lit "uplink")
      then none
      else if nat_beq (length middle) 2
          && part 1 middle == lit "traffic"
          && not (part 0 middle == [])
      then some (kind, part 0 middle, direction)
      else if nat_beq (length middle) 1 && not (part 0 middle == [])
      then some (kind, part 0 middle, direction)
      else none

unfoldable pub parse_accounting_counter_name : Str → Option (Str × Str × Str)
parse_accounting_counter_name raw = parse_parts (split raw (lit ">>>"))

-- The part before the first separator; SplitN and Split agree on it.
unfoldable pub is_accounting_counter_name : Str → Bool
is_accounting_counter_name raw =
    let family = part 0 (split raw (lit ">>>")) in
    family == lit "user" || family == lit "inbound" || family == lit "outbound"

-- The user and the direction, where the counter is a user's.
pub user_part : Option (Str × Str × Str) → Option (Str × Str)
user_part none = none
user_part (some (kind, name, direction)) =
    if kind == lit "user" then some (name, direction) else none

middle_first :
    (parts : List Str)
    → ltb (length parts) 3 ≡ false
    → part 0 (take (length parts - 2) (drop 1 parts)) ≡ part 1 parts
unfolding part
middle_first [] h = refl
middle_first (a ∷ []) h = cc
middle_first (a ∷ b ∷ []) h = cc
middle_first (a ∷ b ∷ c ∷ parts) h =
    ap (λ n. part 0 (take n (b ∷ c ∷ parts))) (n_suc (length parts))
  where
    n_suc : (n : ℕ) → suc (suc (suc n)) - 2 ≡ suc n
    n_suc n = omega arith

-- The tests on a name with enough parts.
names_agree :
    (kind name direction : Str) (middle : List Str)
    → user_part (
        if not (kind == lit "user") && not (kind == lit "inbound") && not (kind == lit "outbound")
        then none
        else if not (direction == lit "downlink") && not (direction == lit "uplink")
        then none
        else if nat_beq (length middle) 2 && part 1 middle == lit "traffic" && not (name == [])
        then some (kind, name, direction)
        else if nat_beq (length middle) 1 && not (name == [])
        then some (kind, name, direction)
        else none)
      ≡ (if not (kind == lit "user")
          then none
          else if name == []
              || (not (direction == lit "uplink") && not (direction == lit "downlink"))
          then none
          else if not (nat_beq (length middle) 1)
              && not (nat_beq (length middle) 2 && part 1 middle == lit "traffic")
          then none
          else some (name, direction))
unfolding user_part
names_agree kind name direction middle = ground arith

parse_parts-agrees : (parts : List Str) → user_part (parse_parts parts) ≡ user_counter parts
unfolding user_part parse_parts user_counter
parse_parts-agrees parts = elim (Bool-cases (ltb (length parts) 3)) [
  | inl short ↦ rw short refl
  | inr long ↦
      rw (long, middle_first parts long)
        (names_agree (part 0 parts) (part 1 parts) (part (length parts - 1) parts)
          (take (length parts - 2) (drop 1 parts)))
]

-- The journal and the statistics of the core read the names of counters alike: a name that the journal
-- takes as a user's counter is one that the loop over the users' traffic takes, with the same user and
-- direction, and the other way round.
pub user_counter-parse :
    (raw : Str)
    → user_part (parse_accounting_counter_name raw) ≡ user_counter (split raw (lit ">>>"))
unfolding parse_accounting_counter_name
user_counter-parse raw = parse_parts-agrees (split raw (lit ">>>"))
