-- ===== src/Stats/Accounting/Baseline.antt =====
-- internal/stats/accounting_snapshot.go: the report on a sample that starts at its own end.
use mathlib.Core.Path.{subst}
use remnaplus_alpine_node.Prelude.{
  Bool, true, false, ◌&&◌, ◌||◌, List, [], ◌∷◌, nat_beq, Str, str_eq, str_beq_self, lit, Option,
  none, some, ◌≡◌, refl, sym, ap, ◌∙◌, inl, inr, Bool-cases, arith,
}
use remnaplus_alpine_node.Prelude.Int.{ℤ}
use remnaplus_alpine_node.Prelude.Map.{lookup, insert, lookup-insert}
use remnaplus_alpine_node.Prelude.Text.{has_prefix}
use remnaplus_alpine_node.Stats.Accounting.{Diagnostic, Counters, Pending}
use remnaplus_alpine_node.Stats.Accounting.Names.{parse_accounting_counter_name}
use remnaplus_alpine_node.Stats.Accounting.Response.{
  AccountingEntry, AccountingRow, CounterKey, same_key, add_counter, with_name, sum_counters,
  previous_of, delta, row_or_new, row_key, grown_row, rows_from, entry_of, traffic_with,
  accounting_response,
}

has_key : CounterKey → List (CounterKey × ℤ) → Bool
has_key key [] = false
has_key key ((other, sum) ∷ sums) = same_key key other || has_key key sums

-- No two entries have the same key.
Distinct : List (CounterKey × ℤ) → Type 0
Distinct [] = Unit {0}
Distinct ((key, sum) ∷ sums) = (has_key key sums ≡ false) × Distinct sums

-- Each entry is what the other list has for its key.
Matches : List (CounterKey × ℤ) → List (CounterKey × ℤ) → Type 0
Matches [] previous = Unit {0}
Matches ((key, current) ∷ counters) previous =
    (previous_of key previous ≡ current) × Matches counters previous

same_key_self : (key : CounterKey) → same_key key key ≡ true
unfolding same_key
same_key_self key =
    ground (arith, str_beq_self key.kind, str_beq_self key.name, str_beq_self key.direction)

has_key-add_counter :
    (k key : CounterKey) (value : ℤ) (sums : List (CounterKey × ℤ))
    → same_key k key ≡ false
    → has_key k (add_counter key value sums) ≡ has_key k sums
unfolding has_key add_counter
has_key-add_counter k key value [] h = ground (arith, h)
has_key-add_counter k key value ((other, sum) ∷ sums) h = elim (Bool-cases (same_key other key)) [
  | inl same ↦ rw same refl
  | inr new ↦ rw new (ap (λ b. same_key k other || b) (has_key-add_counter k key value sums h))
]

add_counter-Distinct :
    (key : CounterKey) (value : ℤ) (sums : List (CounterKey × ℤ))
    → Distinct sums
    → Distinct (add_counter key value sums)
unfolding Distinct add_counter has_key
add_counter-Distinct key value [] d = (refl, tt)
add_counter-Distinct key value ((other, sum) ∷ sums) d = elim (Bool-cases (same_key other key)) [
  | inl same ↦ rw same d
  | inr new ↦
      rw new (
        has_key-add_counter other key value sums new ∙ d.0,
        add_counter-Distinct key value sums d.1,
      )
]

with_name-Distinct :
    (name : Option (Str × Str × Str)) (value : ℤ) (sums : List (CounterKey × ℤ))
    → Distinct sums
    → Distinct (with_name name value sums)
with_name-Distinct none value sums d = d
with_name-Distinct (some (kind, name, direction)) value sums d =
    add_counter-Distinct (record { kind = kind; name = name; direction = direction }) value sums d

sum_counters-Distinct :
    (counters : Counters) (sums : List (CounterKey × ℤ))
    → Distinct sums
    → Distinct (sum_counters counters sums)
unfolding sum_counters
sum_counters-Distinct [] sums d = d
sum_counters-Distinct ((name, value) ∷ counters) sums d =
    sum_counters-Distinct counters (with_name (parse_accounting_counter_name name) value sums)
      (with_name-Distinct (parse_accounting_counter_name name) value sums d)

Matches-cons :
    (key : CounterKey) (sum : ℤ) (counters previous : List (CounterKey × ℤ))
    → has_key key counters ≡ false
    → Matches counters previous
    → Matches counters ((key, sum) ∷ previous)
unfolding Matches has_key previous_of
Matches-cons key sum [] previous h m = tt
Matches-cons key sum ((other, current) ∷ counters) previous h m =
    let new : same_key key other ≡ false = ground (arith, h) in
    (rw new m.0, Matches-cons key sum counters previous (ground (arith, h)) m.1)

Distinct-Matches : (sums : List (CounterKey × ℤ)) → Distinct sums → Matches sums sums
unfolding Distinct Matches previous_of
Distinct-Matches [] d = tt
Distinct-Matches ((key, sum) ∷ sums) d =
    (rw (same_key_self key) refl, Matches-cons key sum sums sums d.0 (Distinct-Matches sums d.1))

abbrev zero_row : AccountingRow → Bool
zero_row row = nat_beq row.downlink 0 && nat_beq row.uplink 0

abbrev zero_entry : Option AccountingRow → Bool
zero_entry none = true
zero_entry (some row) = zero_row row

-- No row has traffic.
abbrev Zero : List (Str × AccountingRow) → Type 0
Zero rows = (key : Str) → zero_entry (lookup key rows) ≡ true

new-zero :
    (name : Str) (o : Option AccountingRow)
    → zero_entry o ≡ true
    → zero_row (row_or_new name o) ≡ true
new-zero name none h = refl
new-zero name (some row) h = h

delta_self : (value : ℤ) → delta value value ≡ 0
delta_self value = omega arith

grown-zero :
    (key : CounterKey) (row : AccountingRow)
    → zero_row row ≡ true
    → zero_row (grown_row key 0 row) ≡ true
grown-zero key row h = ground (arith, h)

insert-Zero :
    (key : Str) (row : AccountingRow) (rows : List (Str × AccountingRow))
    → Zero rows
    → zero_row row ≡ true
    → Zero (insert key row rows)
insert-Zero key row rows z h other = ground (arith, lookup-insert other key row rows, z other, h)

rows_from-Zero :
    (counters previous : List (CounterKey × ℤ)) (rows : List (Str × AccountingRow))
    → Matches counters previous
    → Zero rows
    → Zero (rows_from counters previous rows)
unfolding rows_from Matches
rows_from-Zero [] previous rows m z = z
rows_from-Zero ((key, current) ∷ counters) previous rows m z =
    let row = row_or_new key.name (lookup (row_key key) rows) in
    let none_new : delta current (previous_of key previous) ≡ 0 =
      ap (delta current) m.0 ∙ delta_self current in
    rows_from-Zero counters previous _ m.1 (
      insert-Zero (row_key key) _ rows z (
        ap (λ n. zero_row (grown_row key n row)) none_new
        ∙ grown-zero key row (new-zero key.name (lookup (row_key key) rows) (z (row_key key)))))

entry-zero :
    (o : Option AccountingRow) (rest : List AccountingEntry)
    → zero_entry o ≡ true
    → entry_of o rest ≡ rest
entry-zero none rest h = refl
entry-zero (some row) rest h = rw h refl

traffic_with-Zero :
    (prefix : Str) (rows : List (Str × AccountingRow)) (keys : List Str)
    → Zero rows
    → traffic_with prefix rows keys ≡ []
unfolding traffic_with
traffic_with-Zero prefix rows [] z = refl
traffic_with-Zero prefix rows (key ∷ keys) z = elim (Bool-cases (has_prefix key prefix)) [
  | inl own ↦ rw own (entry-zero (lookup key rows) _ (z key) ∙ traffic_with-Zero prefix rows keys z)
  | inr other ↦ rw other (traffic_with-Zero prefix rows keys z)
]

rows-Zero :
    (counters : Counters)
    → Zero (rows_from (sum_counters counters []) (sum_counters counters []) [])
unfolding Distinct lookup
rows-Zero counters =
    rows_from-Zero (sum_counters counters []) (sum_counters counters []) []
      (Distinct-Matches _ (sum_counters-Distinct counters [] tt)) (λ key. refl)

-- The report on a sample whose counters at its start are those at its end, whichever diagnostics the call
-- adds, attributes no traffic to any user, inbound or outbound.
pub accounting_response-baseline :
    (p : Pending) (extra : List Diagnostic)
    → p.from ≡ p.to
    → ((accounting_response p extra).users ≡ [])
      × ((accounting_response p extra).inbounds ≡ [])
      × ((accounting_response p extra).outbounds ≡ [])
unfolding accounting_response
accounting_response-baseline p extra h =
    let zero = rows_zero p.from p.to h in
    (
      traffic_with-Zero (lit "user>>>") _ _ zero,
      traffic_with-Zero (lit "inbound>>>") _ _ zero,
      traffic_with-Zero (lit "outbound>>>") _ _ zero,
    )
  where
    rows_zero :
        (from to : Counters)
        → from ≡ to
        → Zero (rows_from (sum_counters to []) (sum_counters from []) [])
    rows_zero from to e =
        subst (λ c. Zero (rows_from (sum_counters to []) (sum_counters c []) [])) (sym e)
          (rows-Zero to)
