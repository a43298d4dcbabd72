-- ===== src/SniHealth/Engine.antt =====
-- internal/snihealth/probe.go: ProbeEngine.
use remnaplus_alpine_node.Prelude.{
  ℕ, ◌-◌, Bool, false, not, ◌||◌, ◌&&◌, List, [], ◌∷◌, ◌++◌, if◌then◌else◌, nat_beq, leb, str_eq,
  ◌==◌, lit, Option, none, some, length, take,
}
use remnaplus_alpine_node.SniHealth.{
  unavailable, Observed, nothing, text, Check, Target, Result, ResolvedAddress, TlsObservation,
  XrayResult, Adapters, ProbeLimits, Resolution, resolve_error, resolved,
}
use remnaplus_alpine_node.SniHealth.Checks.{
  new_check, pass_when, conditional_reason, deduplicate_addresses, median_int, finish,
}
use remnaplus_alpine_node.SniHealth.Probe.{
  AddressProbe, Tally, empty_tally, tally_probes, probe_addresses, latencies_of,
}
use remnaplus_alpine_node.SniHealth.Parts.{
  public_check, dns_error_check, no_public_check, jitter_check, latency_check, san_check,
  samples_check, trust_check, match_check, dns_check, public_values, addresses_of, tcp_check,
  capability_check, handshake_check, version_check, alpn_check, key_check, coverage_check,
}

module _ (a : Adapters) where
  unfoldable pub within_dates : Option ℕ → Option ℕ → Bool
  within_dates (some from) (some to) = leb from (a.now 0) && leb (a.now 1) to
  within_dates none to = false
  within_dates (some from) none = false

  unfoldable pub is_current : Option TlsObservation → Bool
  is_current none = false
  is_current (some o) = within_dates o.certificate_valid_from o.certificate_valid_to

  -- certificateWindow
  unfoldable pub window_text : Option ℕ → Option ℕ → Observed
  window_text (some from) (some to) = text (a.format_time from ++ lit " - " ++ a.format_time to)
  window_text none to = nothing
  window_text (some from) none = nothing

  unfoldable pub certificate_window : Option TlsObservation → Observed
  certificate_window none = nothing
  certificate_window (some o) = window_text o.certificate_valid_from o.certificate_valid_to

  abbrev pub validity_check : Option TlsObservation → Check
  validity_check o =
      new_check (lit "certificate-validity") (pass_when (is_current o)) (certificate_window o) (
        conditional_reason (is_current o)
          (lit "The certificate is currently within its validity dates.")
          (lit "The certificate is expired, not yet valid, or missing validity dates."))

  -- securityChecks
  unfoldable pub security_checks : Target → Option XrayResult → Option TlsObservation → List Check
  security_checks target x o =
      key_check x ∷ trust_check o ∷ validity_check o ∷ san_check target o ∷ []

  module _ (limits : ProbeLimits) where
    unfoldable pub metric_checks : List ℕ → List Check
    metric_checks latencies =
        samples_check latencies
        ∷ latency_check limits latencies
        ∷ jitter_check limits latencies
        ∷ []

    -- The checks that follow the one on public addresses.
    unfoldable pub later_checks : Target → ℕ → List AddressProbe → Tally → List ℕ → List Check
    unfolding security_checks metric_checks
    later_checks target omitted probes t latencies =
        tcp_check t
        ∷ capability_check t
        ∷ handshake_check t
        ∷ version_check t
        ∷ alpn_check t
        ∷ (security_checks target t.selected_xray t.selected_tls
            ++ metric_checks latencies
            ++ coverage_check omitted (addresses_of probes) ∷ [])

    -- ProbeEngine.probe once the name is resolved
    unfoldable pub probe_resolved : Target → List ResolvedAddress → Result
    unfolding later_checks
    probe_resolved target unique =
        let inspected = take limits.address_limit unique in
        let omitted = length unique - length inspected in
        let probes = probe_addresses a target inspected in
        let tally = tally_probes probes empty_tally in
        let latencies = latencies_of a target tally.selected in
        let first = match_check target ∷ dns_check unique ∷ [] in
        if nat_beq (length (public_values probes)) 0
        then finish a target (first ++ no_public_check ∷ []) (addresses_of probes) [] none
        else finish a target
            (first
              ++ public_check (public_values probes)
                ∷ later_checks target omitted probes tally latencies)
            (addresses_of probes) latencies (median_int latencies)

    unfoldable pub probe_resolution : Target → Resolution → Result
    unfolding probe_resolved
    probe_resolution target (resolve_error error) =
        finish a target (match_check target ∷ dns_error_check error ∷ []) [] [] none
    probe_resolution target (resolved values) = probe_resolved target (deduplicate_addresses values)

    -- ProbeEngine.probe
    unfoldable pub probe : Target → Result
    unfolding probe_resolution
    probe target =
        if not target.destination_matches_sni
          || target.normalized_sni == []
          || target.normalized_host == []
        then finish a target (match_check target ∷ []) [] [] none
        else probe_resolution target (a.resolve target.host)

    -- ProbeEngine.Probe: the result of a probe that its deadline has passed is replaced.
    unfoldable pub probe_within : Bool → Target → Result
    unfolding probe new_check
    probe_within deadline_exceeded target =
        if deadline_exceeded
        then finish a target
            (new_check (lit "probe-timeout") unavailable nothing
                (lit "The composite probe exceeded its 45-second deadline.")
              ∷ [])
            [] [] none
        else probe target
