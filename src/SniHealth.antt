-- ===== src/SniHealth.antt =====
-- internal/snihealth/model.go and probe.go: what a probe of a TLS destination works on.
pub mod Checks
pub mod Clean
pub mod Engine
pub mod Parts
pub mod Probe
mod Tests
pub mod Usable
use remnaplus_alpine_node.Prelude.{ℕ, Bool, List, Str, Option}

pub data Verdict : Type 0 where
  usable : Verdict
  verdict_warning : Verdict
  unusable : Verdict
  unverified : Verdict

pub data CheckStatus : Type 0 where
  pass : CheckStatus
  warning : CheckStatus
  fail : CheckStatus
  unavailable : CheckStatus

-- The `any` of a check: nothing, or one of the values that the probe puts there.
pub data Observed : Type 0 where
  nothing : Observed
  flag : Bool → Observed
  count : ℕ → Observed
  text : Str → Observed
  texts : List Str → Observed

pub record Check : Type 0 where
  pub id : Str
  pub status : CheckStatus
  pub observed_value : Observed
  pub reason : Str
  pub hint : Str

pub record Address : Type 0 where
  pub address : Str
  pub family : ℕ
  pub is_public : Bool
  pub status : CheckStatus
  pub error : Option Str

pub record Target : Type 0 where
  pub correlation_id : Option Str
  pub inbound_tag : Option Str
  pub sni : Str
  pub normalized_sni : Str
  pub host : Str
  pub normalized_host : Str
  pub port : ℕ
  pub dest : Str
  pub destination_matches_sni : Bool

pub record Result : Type 0 where
  pub correlation_id : Option Str
  pub inbound_tag : Option Str
  pub sni : Str
  pub dest : Str
  pub hostname : Str
  pub port : ℕ
  pub verdict : Verdict
  pub healthy : Bool
  pub latency_ms : Option ℕ
  pub error : Option Str
  pub checks : List Check
  pub addresses : List Address
  pub latency_samples : List ℕ
  pub jitter_ms : Option ℕ
  pub checked_at : ℕ

pub record ResolvedAddress : Type 0 where
  pub address : Str
  pub family : ℕ

-- Latencies are durations, so not negative; a moment is a number of nanoseconds.
pub record TlsObservation : Type 0 where
  pub handshake_succeeded : Bool
  pub authorized : Bool
  pub authorization_error : Str
  pub protocol : Str
  pub alpn : Str
  pub certificate_valid_from : Option ℕ
  pub certificate_valid_to : Option ℕ
  pub certificate_names : List Str
  pub latency_ms : Option ℕ
  pub error : Str

-- What the probe reads of an XrayResult.
pub record XrayResult : Type 0 where
  pub handshake_succeeded : Bool
  pub key_exchange : Str
  pub command_error : Str

pub data Resolution : Type 0 where
  resolve_error : Str → Resolution
  resolved : List ResolvedAddress → Resolution

pub record ProbeLimits : Type 0 where
  pub address_limit : ℕ
  pub latency_warning_ms : ℕ
  pub jitter_warning_ms : ℕ

-- ProbeAdapters, with the clock and the functions of the standard library. `tls` has the number of the
-- call to an address, since three calls may differ, and `now` the number of the reading.
pub record Adapters : Type 0 where
  pub resolve : Str → Resolution
  pub tcp : Str → ℕ → Option Str
  pub tls : ℕ → Str → Str → ℕ → TlsObservation
  pub xray : Str → Str → ℕ → XrayResult
  pub now : ℕ → ℕ
  -- IsPublicAddress's `netip.ParseAddr` and `Contains`: whether an address is in a prefix
  pub parse_addr : Str → Bool
  pub prefix_contains : Str → Str → Bool
  -- `Format(time.RFC3339)`
  pub format_time : ℕ → Str
