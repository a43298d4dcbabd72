-- ===== src/SniHealth/Usable.antt =====
-- What the verdict `usable` of a probe says of its destination.
use remnaplus_alpine_node.Prelude.{
  ℕ, ◌+◌, ◌-◌, ◌≤◌, Bool, true, false, not, ◌||◌, ◌&&◌, List, [], ◌∷◌, ◌++◌, if◌then◌else◌, nat_beq,
  ltb, leb, Str, str_eq, ◌==◌, lit, Option, none, some, length, take, map, ◌≡◌, refl, sym, ap, ◌∙◌,
  arith, nat_beq_iff, Bool-cases, inl, inr,
}
use remnaplus_alpine_node.Prelude.Map.{has}
use remnaplus_alpine_node.SniHealth.{
  usable, Check, Address, Target, ResolvedAddress, Adapters, ProbeLimits, Resolution, resolve_error,
  resolved,
}
use remnaplus_alpine_node.SniHealth.Checks.{
  new_check, pass_when, deduplicate_addresses, is_public_address, finish, verdict_of,
}
use remnaplus_alpine_node.SniHealth.Probe.{
  AddressProbe, Tally, empty_tally, tally_probes, probe_addresses, probe_address, dialled_address,
  refused_address, reached_address, latencies_of, is_none,
}
use remnaplus_alpine_node.SniHealth.Engine.{
  validity_check, is_current, probe, probe_resolution, probe_resolved, later_checks,
  security_checks, metric_checks,
}
use remnaplus_alpine_node.SniHealth.Parts.{
  no_public_check, public_check, dns_error_check, trust_check, san_check, samples_check,
  latency_check, jitter_check, all_pass, is_pass, addresses_of, covers, is_authorized,
  public_values, coverage_check, tcp_check, capability_check, handshake_check, version_check,
  alpn_check, match_check, dns_check, key_check,
}
use remnaplus_alpine_node.SniHealth.Clean.{
  clean, usable-clean, fine-pass, fine-warning, clean-each, clean-after, failed-second,
  failed-third, unmatched, if_usable,
}

module _ (a : Adapters) where
  -- Whether an address is public, takes connections, and passes both handshakes.
  unfoldable pub reached : Target → ResolvedAddress → Bool
  reached target r =
      is_public_address a r.address
      && is_none (a.tcp r.address target.port)
      && (a.xray r.address target.normalized_sni target.port).handshake_succeeded
      && (a.tls 0 r.address target.normalized_sni target.port).handshake_succeeded

  unfoldable pub all_reached : Target → List ResolvedAddress → Bool
  unfolding reached
  all_reached target [] = true
  all_reached target (r ∷ rs) = reached target r && all_reached target rs

  dialled-pass :
      (target : Target) (r : ResolvedAddress) (answer : Option Str)
      → is_pass (dialled_address a target r answer).address.status ≡ (
          is_none answer
          && (a.xray r.address target.normalized_sni target.port).handshake_succeeded
          && (a.tls 0 r.address target.normalized_sni target.port).handshake_succeeded)
  unfolding dialled_address refused_address reached_address pass_when
  dialled-pass target r none = ground arith
  dialled-pass target r (some error) = refl

  probe_address-pass :
      (target : Target) (r : ResolvedAddress)
      → is_pass (probe_address a target r).address.status ≡ reached target r
  unfolding probe_address reached refused_address
  probe_address-pass target r = ground (arith, dialled-pass target r (a.tcp r.address target.port))

  probes-pass :
      (target : Target) (rs : List ResolvedAddress)
      → all_pass (addresses_of (probe_addresses a target rs)) ≡ all_reached target rs
  unfolding all_pass addresses_of probe_addresses all_reached
  probes-pass target [] = refl
  probes-pass target (r ∷ rs) = ground (arith, probe_address-pass target r, probes-pass target rs)

  module _ (limits : ProbeLimits) where
    -- What a probe has seen of the addresses of a usable destination.
    abbrev pub Sound : Target → List ResolvedAddress → Type 0
    Sound target unique =
        let inspected = take limits.address_limit unique in
        let tally = tally_probes (probe_addresses a target inspected) empty_tally in
        (length unique ≤ length inspected)
        × (all_reached target inspected ≡ true)
        × (has (lit "TLSv1.3") tally.tls_versions ≡ true)
        × (is_authorized tally.selected_tls ≡ true)
        × (is_current a tally.selected_tls ≡ true)
        × (covers target tally.selected_tls ≡ true)
        × (length (latencies_of a target tally.selected) ≡ 3)

    coverage_id :
        (omitted : ℕ) (addresses : List Address)
        → ((coverage_check omitted addresses).id == lit "alpn") ≡ false
    unfolding new_check remnaplus_alpine_node.Prelude.str_beq
    coverage_id omitted addresses = refl

    later-Clean :
        (target : Target) (omitted : ℕ) (probes : List AddressProbe) (t : Tally)
        (latencies : List ℕ)
        → clean (later_checks a limits target omitted probes t latencies) ≡ true
        → (ltb 0 omitted ≡ false)
          × (all_pass (addresses_of probes) ≡ true)
          × (has (lit "TLSv1.3") t.tls_versions ≡ true)
          × (is_authorized t.selected_tls ≡ true)
          × (is_current a t.selected_tls ≡ true)
          × (covers target t.selected_tls ≡ true)
          × (length latencies ≡ 3)
    unfolding later_checks security_checks metric_checks new_check
    later-Clean target omitted probes t latencies h =
        let o = t.selected_tls in
        let coverage = coverage_check omitted (addresses_of probes) in
        let each =
          clean-each (tcp_check t) (capability_check t) (handshake_check t) (version_check t)
            (alpn_check t) (key_check t.selected_xray) (trust_check o) (validity_check a o)
            (san_check target o) (samples_check latencies) (latency_check limits latencies)
            (jitter_check limits latencies) coverage h in
        let covered =
          fine-warning (ltb 0 omitted || not (all_pass (addresses_of probes))) coverage refl
            (coverage_id omitted (addresses_of probes)) each.5 in
        let sampled =
          fine-pass (nat_beq (length latencies) 3) (samples_check latencies) refl each.4 in
        (
          ground (arith, covered),
          ground (arith, covered),
          fine-pass (has (lit "TLSv1.3") t.tls_versions) (version_check t) refl each.0,
          fine-pass (is_authorized o) (trust_check o) refl each.1,
          fine-pass (is_current a o) (validity_check a o) refl each.2,
          fine-pass (covers target o) (san_check target o) refl each.3,
          (nat_beq_iff (length latencies) 3).0 sampled,
        )

    omitted_none :
        (limit : ℕ) (unique : List ResolvedAddress)
        → ltb 0 (length unique - length (take limit unique)) ≡ false
        → length unique ≤ length (take limit unique)
    omitted_none limit unique h = ground arith

    public-Sound :
        (target : Target) (unique : List ResolvedAddress) (first second third : Check)
        → (let inspected = take limits.address_limit unique in
            let probes = probe_addresses a target inspected in
            let tally = tally_probes probes empty_tally in
            verdict_of (
              first
              ∷ second
              ∷ third
              ∷ later_checks a limits target
                  (length unique - length inspected)
                  probes
                  tally
                  (latencies_of a target tally.selected)))
          ≡ usable
        → Sound target unique
    public-Sound target unique first second third h =
        let inspected = take limits.address_limit unique in
        let probes = probe_addresses a target inspected in
        let tally = tally_probes probes empty_tally in
        let latencies = latencies_of a target tally.selected in
        let omitted = length unique - length inspected in
        let later = later_checks a limits target omitted probes tally latencies in
        let seen = later-Clean target omitted probes tally latencies (
          clean-after first second third later (usable-clean (first ∷ second ∷ third ∷ later) h)) in
        (
          omitted_none limits.address_limit unique seen.0,
          sym (probes-pass target inspected) ∙ seen.1,
          seen.2,
          seen.3,
          seen.4,
          seen.5,
          seen.6,
        )

    resolved-Sound :
        (target : Target) (unique : List ResolvedAddress)
        → (probe_resolved a limits target unique).verdict ≡ usable
        → Sound target unique
    unfolding probe_resolved finish new_check
    resolved-Sound target unique h =
        let probes = probe_addresses a target (take limits.address_limit unique) in
        if_usable (nat_beq (length (public_values probes)) 0) _ _ h
          (λ closed none_public.
            absurd (
              failed-third (match_check target) (dns_check unique) no_public_check refl
                none_public))
          (λ open_to some_public.
            public-Sound target unique (match_check target) (dns_check unique)
              (public_check (public_values probes)) some_public)

    resolution-Sound :
        (target : Target) (answer : Resolution)
        → (probe_resolution a limits target answer).verdict ≡ usable
        → (values : List ResolvedAddress) × (answer ≡ resolved values)
          × Sound target (deduplicate_addresses values)
    unfolding probe_resolution finish new_check
    resolution-Sound target (resolve_error error) h =
        absurd (failed-second (match_check target) (dns_error_check error) refl h)
    resolution-Sound target (resolved values) h =
        (values, refl, resolved-Sound target (deduplicate_addresses values) h)

    -- Where the destination of a target that matches its SNI has normalized names, a probe whose verdict
    -- is `usable` has resolved the host, to no more addresses than the limit; every one of them is public,
    -- takes connections and passes the handshakes of both the core and the node; TLS 1.3 was negotiated;
    -- the certificate is trusted, within its dates and covers the SNI; and three latencies were measured.
    pub probe-Usable :
        (target : Target)
        → (not target.destination_matches_sni
            || (not (target.normalized_sni == []) && not (target.normalized_host == [])))
          ≡ true
        → (probe a limits target).verdict ≡ usable
        → (values : List ResolvedAddress) × (a.resolve target.host ≡ resolved values)
          × Sound target (deduplicate_addresses values)
    unfolding probe finish new_check
    probe-Usable target named h =
        if_usable
          (not target.destination_matches_sni
            || target.normalized_sni == []
            || target.normalized_host == [])
          _ _ h
          (λ unnamed alone. absurd (
            unmatched (match_check target) target.destination_matches_sni refl (ground arith)
              alone))
          (λ matched rest. resolution-Sound target (a.resolve target.host) rest)
