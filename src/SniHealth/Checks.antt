-- ===== src/SniHealth/Checks.antt =====
-- internal/snihealth: the helpers of probe.go and network_policy.go.
use remnaplus_alpine_node.Prelude.{
  ℕ, ◌-◌, ◌/◌, Bool, true, false, not, ◌||◌, ◌&&◌, List, [], ◌∷◌, ◌++◌, if◌then◌else◌, nat_beq, ltb,
  leb, Str, str_eq, ◌==◌, lit, Option, none, some, length, take, drop,
}
use remnaplus_alpine_node.Prelude.Text.{
  format_uint, to_lower, trim_space, has_prefix, has_suffix, contains,
}
use remnaplus_alpine_node.SniHealth.{
  Verdict, usable, verdict_warning, unusable, unverified, CheckStatus, pass, warning, fail,
  unavailable, Observed, nothing, count, text, Check, Address, Target, Result, ResolvedAddress,
  Adapters,
}

-- newCheck, with hintFor
unfoldable pub new_check : Str → CheckStatus → Observed → Str → Check
new_check id status value reason = record {
  id = id;
  status = status;
  observed_value = value;
  reason = reason;
  hint = lit "Review the target configuration and retry this check.";
}

-- passWhen, and boolStatus
unfoldable pub pass_when : Bool → CheckStatus
pass_when value = if value then pass else fail

-- conditionalReason
abbrev pub conditional_reason : Bool → Str → Str → Str
conditional_reason value on_true on_false = if value then on_true else on_false

unfoldable pub same_address : ResolvedAddress → List ResolvedAddress → Bool
same_address a [] = false
same_address a (b ∷ seen) =
    (nat_beq a.family b.family && a.address == b.address) || same_address a seen

-- deduplicateAddresses; the key `<family>:<address>` tells the family and the address apart.
unfoldable pub deduplicate_from : List ResolvedAddress → List ResolvedAddress → List ResolvedAddress
unfolding same_address
deduplicate_from seen [] = []
deduplicate_from seen (a ∷ values) =
    let rest = deduplicate_from seen values in
    let more = deduplicate_from (a ∷ seen) values in if same_address a seen then rest else a ∷ more

unfoldable pub deduplicate_addresses : List ResolvedAddress → List ResolvedAddress
unfolding deduplicate_from
deduplicate_addresses = deduplicate_from []

unfoldable pub insert_nat : ℕ → List ℕ → List ℕ
insert_nat n [] = n ∷ []
insert_nat n (m ∷ ms) = let rest = insert_nat n ms in if leb n m then n ∷ m ∷ ms else m ∷ rest

-- `sort.Ints`
unfoldable pub sort_ints : List ℕ → List ℕ
unfolding insert_nat
sort_ints [] = []
sort_ints (n ∷ ns) = insert_nat n (sort_ints ns)

unfoldable pub first_of : List ℕ → Option ℕ
first_of [] = none
first_of (n ∷ ns) = some n

-- medianInt
unfoldable pub median_int : List ℕ → Option ℕ
unfolding sort_ints first_of
median_int values = first_of (drop (length values / 2) (sort_ints values))

unfoldable pub range_from : ℕ → ℕ → List ℕ → ℕ
range_from least most [] = most - least
range_from least most (n ∷ ns) =
    range_from (if ltb n least then n else least) (if ltb most n then n else most) ns

-- rangeInt
unfoldable pub range_int : List ℕ → Option ℕ
unfolding range_from
range_int [] = none
range_int (n ∷ ns) = some (range_from n n ns)

-- metricStatus
unfoldable pub metric_status : ℕ → Option ℕ → ℕ → CheckStatus
metric_status samples none limit = fail
metric_status samples (some value) limit =
    if ltb samples 3 then fail else if ltb limit value then warning else pass

-- metricReason
unfoldable pub metric_reason : Str → Option ℕ → Str
metric_reason label none = label ++ lit " was unavailable."
metric_reason label (some value) = label ++ lit " was " ++ format_uint 10 value ++ lit " ms."

-- nullableInt, nullableString
abbrev pub nullable_int : Option ℕ → Observed
nullable_int none = nothing
nullable_int (some value) = count value

abbrev pub nullable_string : Str → Observed
nullable_string value = if value == [] then nothing else text value

-- `strings.TrimSuffix(s, suffix)` where the suffix is there
unfoldable pub before_suffix : Str → Str → Str
before_suffix s suffix = take (length s - length suffix) s

unfoldable pub name_covers : Str → Str → Bool
unfolding before_suffix
name_covers hostname name =
    let suffix = drop 1 name in
    let prefix = before_suffix hostname suffix in
    name == hostname
    || (has_prefix name (lit "*.")
        && has_suffix hostname suffix
        && not (prefix == [])
        && not (contains prefix (lit ".")))

-- certificateCovers
unfoldable pub certificate_covers : List Str → Str → Bool
unfolding name_covers
certificate_covers [] hostname = false
certificate_covers (name ∷ names) hostname =
    name_covers (to_lower hostname) (to_lower (trim_space name))
    || certificate_covers names hostname

abbrev pub blocked_prefixes : List Str
blocked_prefixes =
    lit "0.0.0.0/8"
    ∷ lit "10.0.0.0/8"
    ∷ lit "100.64.0.0/10"
    ∷ lit "127.0.0.0/8"
    ∷ lit "169.254.0.0/16"
    ∷ lit "172.16.0.0/12"
    ∷ lit "192.0.0.0/24"
    ∷ lit "192.0.2.0/24"
    ∷ lit "192.88.99.0/24"
    ∷ lit "192.168.0.0/16"
    ∷ lit "198.18.0.0/15"
    ∷ lit "198.51.100.0/24"
    ∷ lit "203.0.113.0/24"
    ∷ lit "224.0.0.0/4"
    ∷ lit "240.0.0.0/4"
    ∷ lit "::/128"
    ∷ lit "::1/128"
    ∷ lit "::ffff:0:0/96"
    ∷ lit "64:ff9b::/96"
    ∷ lit "100::/64"
    ∷ lit "2001:2::/48"
    ∷ lit "2001:10::/28"
    ∷ lit "2001:db8::/32"
    ∷ lit "fc00::/7"
    ∷ lit "fe80::/10"
    ∷ lit "ff00::/8"
    ∷ []

unfoldable pub in_some_prefix : Adapters → List Str → Str → Bool
in_some_prefix a [] value = false
in_some_prefix a (prefix ∷ prefixes) value =
    a.prefix_contains prefix value || in_some_prefix a prefixes value

-- IsPublicAddress
unfoldable pub is_public_address : Adapters → Str → Bool
unfolding in_some_prefix
is_public_address a value = a.parse_addr value && not (in_some_prefix a blocked_prefixes value)

-- firstNonempty
unfoldable pub first_nonempty : List Str → Str
first_nonempty [] = []
first_nonempty (value ∷ values) =
    let rest = first_nonempty values in if value == [] then rest else value

-- hasStatus, for the statuses that the verdict asks for
abbrev pub is_fail : CheckStatus → Bool
is_fail fail = true
is_fail _ = false

abbrev pub is_unavailable : CheckStatus → Bool
is_unavailable unavailable = true
is_unavailable _ = false

abbrev pub is_warning : CheckStatus → Bool
is_warning warning = true
is_warning _ = false

unfoldable pub any_check : (Check → Bool) → List Check → Bool
any_check test [] = false
any_check test (c ∷ checks) = test c || any_check test checks

abbrev pub is_independent_failure : Check → Bool
is_independent_failure c =
    is_fail c.status
    && not (c.id == lit "jitter")
    && not (c.id == lit "latency")
    && not (c.id == lit "tls-samples")

abbrev pub is_real_warning : Check → Bool
is_real_warning c = is_warning c.status && not (c.id == lit "alpn")

unfoldable pub first_problem : List Check → Option Str
first_problem [] = none
first_problem (c ∷ checks) =
    let rest = first_problem checks in
    if is_fail c.status || is_real_warning c then some c.reason else rest

unfoldable pub verdict_of : List Check → Verdict
unfolding any_check
verdict_of checks =
    if any_check (λ c. is_unavailable c.status) checks
      && not (any_check is_independent_failure checks)
    then unverified
    else if any_check (λ c. is_fail c.status) checks
    then unusable
    else if any_check is_real_warning checks
    then verdict_warning
    else usable

abbrev pub is_usable : Verdict → Bool
is_usable usable = true
is_usable _ = false

-- ProbeEngine.finish
unfoldable pub finish : Adapters → Target → List Check → List Address → List ℕ → Option ℕ → Result
unfolding verdict_of first_problem range_int first_nonempty
finish a target checks addresses latencies latency = record {
  correlation_id = target.correlation_id;
  inbound_tag = target.inbound_tag;
  sni = target.sni;
  dest = target.dest;
  hostname = first_nonempty (target.normalized_sni ∷ target.sni ∷ []);
  port = target.port;
  verdict = verdict_of checks;
  healthy = is_usable (verdict_of checks);
  latency_ms = latency;
  error = first_problem checks;
  checks = checks;
  addresses = addresses;
  latency_samples = latencies;
  jitter_ms = range_int latencies;
  checked_at = a.now 2;
}
