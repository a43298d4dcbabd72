-- ===== src/SniHealth/Tests.antt =====
-- The module of internal/snihealth at concrete inputs.
use remnaplus_alpine_node.Prelude.{
  ℕ, Bool, true, false, List, [], ◌∷◌, Str, str_eq, ◌==◌, lit, Option, none, some, ◌≡◌, refl,
}
use remnaplus_alpine_node.SniHealth.Engine.{probe}
use remnaplus_alpine_node.SniHealth.{
  usable, Adapters, ProbeLimits, Target, TlsObservation, XrayResult, ResolvedAddress, Resolution,
  resolved,
}
use remnaplus_alpine_node.SniHealth.Checks.{deduplicate_addresses}
use remnaplus_alpine_node.SniHealth.Usable.{Sound, probe-Usable}

abbrev observation : TlsObservation
observation = record {
  handshake_succeeded = true;
  authorized = true;
  authorization_error = [];
  protocol = lit "TLSv1.3";
  alpn = lit "h2";
  certificate_valid_from = some 10;
  certificate_valid_to = some 20;
  certificate_names = lit "*.example.com" ∷ [];
  latency_ms = some 30;
  error = [];
}

abbrev core_answer : XrayResult
core_answer = record { handshake_succeeded = true; key_exchange = lit "X25519"; command_error = [] }

abbrev adapters : Adapters
adapters = record {
  resolve = λ host. resolved (
      record { address = lit "8.8.8.8"; family = 4 }
      ∷ record { address = lit "8.8.8.8"; family = 4 }
      ∷ []);
  tcp = λ address port. none;
  tls = λ number address sni port. observation;
  xray = λ address sni port. core_answer;
  now = λ reading. 15;
  parse_addr = λ value. true;
  prefix_contains = λ prefix value. false;
  format_time = λ t. lit "t";
}

abbrev limits : ProbeLimits
limits = record { address_limit = 8; latency_warning_ms = 1000; jitter_warning_ms = 500 }

abbrev target : Target
target = record {
  correlation_id = none;
  inbound_tag = none;
  sni = lit "www.example.com";
  normalized_sni = lit "www.example.com";
  host = lit "www.example.com";
  normalized_host = lit "www.example.com";
  port = 443;
  dest = lit "www.example.com:443";
  destination_matches_sni = true;
}

usable_target : (probe adapters limits target).verdict ≡ usable
unfolding remnaplus_alpine_node.Prelude.str_beq remnaplus_alpine_node.SniHealth.Checks.new_check
    remnaplus_alpine_node.SniHealth.Checks.pass_when
    remnaplus_alpine_node.SniHealth.Checks.same_address
    remnaplus_alpine_node.SniHealth.Checks.deduplicate_from
    remnaplus_alpine_node.SniHealth.Checks.deduplicate_addresses
    remnaplus_alpine_node.SniHealth.Checks.insert_nat
    remnaplus_alpine_node.SniHealth.Checks.sort_ints remnaplus_alpine_node.SniHealth.Checks.first_of
    remnaplus_alpine_node.SniHealth.Checks.median_int
    remnaplus_alpine_node.SniHealth.Checks.range_from
    remnaplus_alpine_node.SniHealth.Checks.range_int
    remnaplus_alpine_node.SniHealth.Checks.metric_status
    remnaplus_alpine_node.SniHealth.Checks.metric_reason
    remnaplus_alpine_node.SniHealth.Checks.before_suffix
    remnaplus_alpine_node.SniHealth.Checks.name_covers
    remnaplus_alpine_node.SniHealth.Checks.certificate_covers
    remnaplus_alpine_node.SniHealth.Checks.in_some_prefix
    remnaplus_alpine_node.SniHealth.Checks.is_public_address
    remnaplus_alpine_node.SniHealth.Checks.first_nonempty
    remnaplus_alpine_node.SniHealth.Checks.any_check
    remnaplus_alpine_node.SniHealth.Checks.first_problem
    remnaplus_alpine_node.SniHealth.Checks.verdict_of remnaplus_alpine_node.SniHealth.Checks.finish
    remnaplus_alpine_node.SniHealth.Probe.selectable
    remnaplus_alpine_node.SniHealth.Probe.tally_xray remnaplus_alpine_node.SniHealth.Probe.tally_tls
    remnaplus_alpine_node.SniHealth.Probe.tally_tcp
    remnaplus_alpine_node.SniHealth.Probe.tally_selected
    remnaplus_alpine_node.SniHealth.Probe.tally_probes
    remnaplus_alpine_node.SniHealth.Probe.handshake_error
    remnaplus_alpine_node.SniHealth.Probe.refused_address
    remnaplus_alpine_node.SniHealth.Probe.reached_address
    remnaplus_alpine_node.SniHealth.Probe.dialled_address
    remnaplus_alpine_node.SniHealth.Probe.probe_address
    remnaplus_alpine_node.SniHealth.Probe.probe_addresses
    remnaplus_alpine_node.SniHealth.Probe.sample remnaplus_alpine_node.SniHealth.Probe.first_latency
    remnaplus_alpine_node.SniHealth.Probe.latencies_of
    remnaplus_alpine_node.SniHealth.Parts.values_of
    remnaplus_alpine_node.SniHealth.Parts.public_values
    remnaplus_alpine_node.SniHealth.Parts.addresses_of
    remnaplus_alpine_node.SniHealth.Parts.xray_status
    remnaplus_alpine_node.SniHealth.Parts.key_exchange_of
    remnaplus_alpine_node.SniHealth.Parts.key_status
    remnaplus_alpine_node.SniHealth.Parts.is_authorized
    remnaplus_alpine_node.SniHealth.Parts.authorization_value
    remnaplus_alpine_node.SniHealth.Parts.certificate_names_of
    remnaplus_alpine_node.SniHealth.Parts.covers remnaplus_alpine_node.SniHealth.Parts.all_pass
    remnaplus_alpine_node.SniHealth.Engine.within_dates
    remnaplus_alpine_node.SniHealth.Engine.is_current
    remnaplus_alpine_node.SniHealth.Engine.window_text
    remnaplus_alpine_node.SniHealth.Engine.certificate_window
    remnaplus_alpine_node.SniHealth.Engine.security_checks
    remnaplus_alpine_node.SniHealth.Engine.metric_checks
    remnaplus_alpine_node.SniHealth.Engine.later_checks
    remnaplus_alpine_node.SniHealth.Engine.probe_resolved
    remnaplus_alpine_node.SniHealth.Engine.probe_resolution
    remnaplus_alpine_node.SniHealth.Engine.probe remnaplus_alpine_node.SniHealth.Engine.probe_within
    remnaplus_alpine_node.Prelude.Text.to_lower remnaplus_alpine_node.Prelude.Text.has_prefix
    remnaplus_alpine_node.Prelude.Text.has_suffix remnaplus_alpine_node.Prelude.Text.contains
    remnaplus_alpine_node.Prelude.Text.trim_space remnaplus_alpine_node.Prelude.Map.has
usable_target = refl

probe-Usable_example :
    (values : List ResolvedAddress) × (adapters.resolve target.host ≡ resolved values)
    × Sound adapters limits target (deduplicate_addresses values)
unfolding remnaplus_alpine_node.Prelude.str_beq
probe-Usable_example = probe-Usable adapters limits target refl usable_target
