-- ===== src/Stats/Accounting/Response.antt =====
-- internal/stats/accounting_snapshot.go: accountingResponse, the report on a sample. Sums do not depend
-- on the order of Go's maps, so that lists in any order stand for them.
use remnaplus_alpine_node.Prelude.{
  ℕ, ◌+◌, ◌-◌, Bool, true, false, ◌&&◌, List, [], ◌∷◌, ◌++◌, if◌then◌else◌, ltb, nat_beq, Str,
  str_eq, ◌==◌, lit, Option, none, some,
}
use remnaplus_alpine_node.Prelude.Int.{ℤ, pos, ◌+ℤ◌, pos_part, neg_part}
use remnaplus_alpine_node.Prelude.Map.{lookup, insert, keys}
use remnaplus_alpine_node.Prelude.Sort.{sort_strings}
use remnaplus_alpine_node.Prelude.Text.{has_prefix, format_uint}
use remnaplus_alpine_node.Stats.Accounting.{
  Diagnostic, Counters, Pending, Journal, Environment, snapshot,
}
use remnaplus_alpine_node.Stats.Accounting.Names.{
  parse_accounting_counter_name, is_accounting_counter_name,
}

-- AccountingUser, AccountingInbound and AccountingOutbound
pub record AccountingEntry : Type 0 where
  pub name : Str
  pub downlink : Str
  pub uplink : Str

pub record AccountingResponse : Type 0 where
  pub contract_version : ℕ
  pub diagnostics : List Diagnostic
  pub generation : Str
  pub inbounds : List AccountingEntry
  pub outbounds : List AccountingEntry
  pub pending : Bool
  pub sample_id : Str
  pub sampled_at : Str
  pub users : List AccountingEntry

pub record CounterKey : Type 0 where
  pub kind : Str
  pub name : Str
  pub direction : Str

pub record AccountingRow : Type 0 where
  pub name : Str
  pub downlink : ℕ
  pub uplink : ℕ

unfoldable pub same_key : CounterKey → CounterKey → Bool
same_key a b = a.kind == b.kind && a.name == b.name && a.direction == b.direction

unfoldable pub add_counter : CounterKey → ℤ → List (CounterKey × ℤ) → List (CounterKey × ℤ)
add_counter key value [] = (key, value) ∷ []
add_counter key value ((other, sum) ∷ sums) =
    let rest = add_counter key value sums in
    if same_key other key then (other, sum +ℤ value) ∷ sums else (other, sum) ∷ rest

abbrev pub with_name : Option (Str × Str × Str) → ℤ → List (CounterKey × ℤ) → List (CounterKey × ℤ)
with_name none value sums = sums
with_name (some (kind, name, direction)) value sums =
    add_counter (record { kind = kind; name = name; direction = direction }) value sums

-- The loops over p.To and p.From that add up the counters whose names are read alike.
unfoldable pub sum_counters : Counters → List (CounterKey × ℤ) → List (CounterKey × ℤ)
sum_counters [] sums = sums
sum_counters ((name, value) ∷ counters) sums =
    sum_counters counters (with_name (parse_accounting_counter_name name) value sums)

abbrev is_unread : Option (Str × Str × Str) → Bool
is_unread none = true
is_unread (some key) = false

-- unsupportedCounterCount
unfoldable pub unsupported_count : Counters → ℕ
unsupported_count [] = 0
unsupported_count ((name, value) ∷ counters) =
    let rest = unsupported_count counters in
    if is_unread (parse_accounting_counter_name name) && is_accounting_counter_name name
    then rest + 1
    else rest

unfoldable pub previous_of : CounterKey → List (CounterKey × ℤ) → ℤ
previous_of key [] = pos 0
previous_of key ((other, sum) ∷ sums) =
    let rest = previous_of key sums in if same_key other key then sum else rest

-- The difference, or 0 where it is negative.
abbrev pub delta : ℤ → ℤ → ℕ
delta current previous =
    (pos_part current + neg_part previous) - (neg_part current + pos_part previous)

abbrev pub row_or_new : Str → Option AccountingRow → AccountingRow
row_or_new name none = record { name = name; downlink = 0; uplink = 0 }
row_or_new name (some row) = row

abbrev pub row_key : CounterKey → Str
row_key key = key.kind ++ lit ">>>" ++ key.name

abbrev pub grown_row : CounterKey → ℕ → AccountingRow → AccountingRow
grown_row key amount row =
    if key.direction == lit "downlink"
    then record row { downlink = row.downlink + amount }
    else record row { uplink = row.uplink + amount }

unfoldable pub rows_from :
    List (CounterKey × ℤ)
    → List (CounterKey × ℤ)
    → List (Str × AccountingRow)
    → List (Str × AccountingRow)
rows_from [] previous rows = rows
rows_from ((key, current) ∷ counters) previous rows = rows_from counters previous (
    insert (row_key key)
      (grown_row key (delta current (previous_of key previous))
        (row_or_new key.name (lookup (row_key key) rows)))
      rows)

abbrev pub entry_of : Option AccountingRow → List AccountingEntry → List AccountingEntry
entry_of none rest = rest
entry_of (some row) rest =
    if nat_beq row.downlink 0 && nat_beq row.uplink 0
    then rest
    else record {
      name = row.name;
      downlink = format_uint 10 row.downlink;
      uplink = format_uint 10 row.uplink;
    }
      ∷ rest

-- The rows with traffic of one kind, by the sorted keys.
unfoldable pub traffic_with : Str → List (Str × AccountingRow) → List Str → List AccountingEntry
traffic_with prefix rows [] = []
traffic_with prefix rows (key ∷ keys) =
    let rest = traffic_with prefix rows keys in
    if has_prefix key prefix then entry_of (lookup key rows) rest else rest

-- ACCOUNTING_COUNTER_FORMAT_UNSUPPORTED
abbrev pub unsupported : ℕ → List Diagnostic
unsupported count =
    if ltb 0 count
    then record {
      code = lit "ACCOUNTING_COUNTER_FORMAT_UNSUPPORTED";
      message =
          lit "Skipped "
          ++ format_uint 10 count
          ++ lit " Xray accounting counter(s) with unsupported names.";
    }
      ∷ []
    else []

unfoldable pub accounting_response : Pending → List Diagnostic → AccountingResponse
accounting_response p extra =
    let rows = rows_from (sum_counters p.to []) (sum_counters p.from []) [] in
    let sorted = sort_strings (keys rows) in
    record {
      contract_version = 1;
      diagnostics = p.diagnostics ++ extra ++ unsupported (unsupported_count p.to);
      generation = p.generation;
      inbounds = traffic_with (lit "inbound>>>") rows sorted;
      outbounds = traffic_with (lit "outbound>>>") rows sorted;
      pending = true;
      sample_id = p.sample_id;
      sampled_at = p.sampled_at;
      users = traffic_with (lit "user>>>") rows sorted;
    }

abbrev pub answer : Option (Pending × List Diagnostic) → Option AccountingResponse
answer none = none
answer (some (p, extra)) = some (accounting_response p extra)

-- Snapshot up to its answer.
unfoldable pub snapshot_response :
    Environment → Str → Str → Journal → Option AccountingResponse × Journal
snapshot_response env acknowledge quarantine journal =
    let returned = snapshot env acknowledge quarantine journal in (answer returned.0, returned.1)
