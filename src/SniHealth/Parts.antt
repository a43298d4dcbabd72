-- ===== src/SniHealth/Parts.antt =====
-- internal/snihealth/probe.go: the checks that a probe makes of what it has collected.
use remnaplus_alpine_node.Prelude.{
  ℕ, Bool, true, false, not, ◌||◌, ◌&&◌, List, [], ◌∷◌, ◌++◌, if◌then◌else◌, nat_beq, ltb, Str,
  str_eq, ◌==◌, lit, Option, none, some, length, map,
}
use remnaplus_alpine_node.Prelude.Map.{has}
use remnaplus_alpine_node.Prelude.Text.{format_uint}
use remnaplus_alpine_node.SniHealth.{
  ProbeLimits, CheckStatus, pass, warning, fail, unavailable, Observed, nothing, flag, count, texts,
  Check, Address, Target, ResolvedAddress, TlsObservation, XrayResult,
}
use remnaplus_alpine_node.SniHealth.Checks.{
  metric_reason, nullable_int, range_int, median_int, metric_status, new_check, pass_when,
  conditional_reason, nullable_string, certificate_covers, first_nonempty,
}
use remnaplus_alpine_node.SniHealth.Probe.{AddressProbe, Tally}

abbrev pub match_check : Target → Check
match_check target =
    new_check (lit "destination-sni-match") (pass_when target.destination_matches_sni)
      (flag target.destination_matches_sni)
      (conditional_reason target.destination_matches_sni
        (lit "Destination hostname matches the configured SNI.")
        (lit "Destination hostname and configured SNI differ."))

unfoldable pub values_of : List ResolvedAddress → List Str
values_of = map (λ r. r.address)

abbrev pub dns_check : List ResolvedAddress → Check
dns_check unique =
    new_check (lit "dns-resolution") (pass_when (not (nat_beq (length unique) 0)))
      (texts (values_of unique))
      (conditional_reason (nat_beq (length unique) 0) (lit "DNS returned no addresses.")
        (lit "Resolved " ++ format_uint 10 (length unique) ++ lit " address(es)."))

unfoldable pub public_values : List AddressProbe → List Str
public_values [] = []
public_values (p ∷ probes) =
    let rest = public_values probes in
    if p.address.is_public then p.resolved_address.address ∷ rest else rest

unfoldable pub addresses_of : List AddressProbe → List Address
addresses_of = map (λ p. p.address)

abbrev pub tcp_check : Tally → Check
tcp_check t =
    let ok = not (nat_beq (length t.reachable) 0) in
    new_check (lit "tcp-reachability") (pass_when ok) (texts t.reachable) (
      conditional_reason ok
        (lit "At least one public destination address accepted TCP connections.")
        (lit "No public destination address accepted a TCP connection."))

unfoldable pub xray_status : Tally → CheckStatus
xray_status t =
    if nat_beq t.xray_success 0 && t.xray_unavailable
    then unavailable
    else pass_when (not (nat_beq t.xray_success 0))

abbrev pub capability_check : Tally → Check
capability_check t = new_check (lit "xray-capability") (xray_status t) (count t.xray_success) (
    conditional_reason (not (nat_beq t.xray_success 0))
      (lit "Xray tls ping completed successfully.")
      (first_nonempty (t.xray_error ∷ lit "Xray tls ping did not complete a handshake." ∷ [])))

abbrev pub handshake_check : Tally → Check
handshake_check t = new_check (lit "xray-handshake") (xray_status t) (count t.xray_success) (
    conditional_reason (not (nat_beq t.xray_success 0)) (lit "Xray completed the SNI handshake.")
      (lit "Xray did not complete the SNI handshake."))

abbrev pub version_check : Tally → Check
version_check t =
    let ok = has (lit "TLSv1.3") t.tls_versions in
    new_check (lit "tls-version") (pass_when ok) (texts t.tls_versions)
      (conditional_reason ok (lit "TLS 1.3 was negotiated.") (lit "TLS 1.3 was not negotiated."))

abbrev pub alpn_check : Tally → Check
alpn_check t =
    let ok = nat_beq (length t.alpns) 0 || has (lit "h2") t.alpns || has (lit "http/1.1") t.alpns in
    new_check (lit "alpn") (if ok then pass else warning) (texts t.alpns) (
      conditional_reason ok (lit "An accepted or empty ALPN was negotiated.")
        (lit "The negotiated ALPN is non-standard for this probe."))

unfoldable pub key_exchange_of : Option XrayResult → Str
key_exchange_of none = []
key_exchange_of (some x) = x.key_exchange

unfoldable pub key_status : Str → CheckStatus
key_status key =
    if key == lit "X25519" || key == lit "X25519MLKEM768"
    then pass
    else if key == lit "RSA Exchange"
    then fail
    else unavailable

abbrev pub is_pass : CheckStatus → Bool
is_pass pass = true
is_pass _ = false

abbrev pub key_check : Option XrayResult → Check
key_check x =
    let status = key_status (key_exchange_of x) in
    new_check (lit "key-exchange") status (nullable_string (key_exchange_of x)) (
      conditional_reason (is_pass status) (lit "A supported key exchange was negotiated.")
        (lit "A supported key exchange was not reported."))

unfoldable pub is_authorized : Option TlsObservation → Bool
is_authorized none = false
is_authorized (some o) = o.authorized

-- authorizationValue
unfoldable pub authorization_value : Option TlsObservation → Observed
authorization_value none = nothing
authorization_value (some o) = nullable_string o.authorization_error

-- certificateNames
unfoldable pub certificate_names_of : Option TlsObservation → Observed
certificate_names_of none = nothing
certificate_names_of (some o) = texts o.certificate_names

unfoldable pub covers : Target → Option TlsObservation → Bool
covers target none = false
covers target (some o) = certificate_covers o.certificate_names target.normalized_sni

unfoldable pub all_pass : List Address → Bool
all_pass [] = true
all_pass (address ∷ addresses) = is_pass address.status && all_pass addresses

abbrev pub coverage_check : ℕ → List Address → Check
coverage_check omitted addresses =
    new_check (lit "address-coverage")
      (if ltb 0 omitted || not (all_pass addresses) then warning else pass) (count omitted)
      (lit "Address coverage completed with " ++ format_uint 10 omitted ++ lit " omitted.")

abbrev pub trust_check : Option TlsObservation → Check
trust_check o =
    new_check (lit "certificate-trust") (pass_when (is_authorized o)) (authorization_value o) (
      conditional_reason (is_authorized o) (lit "The certificate chains to the node trust store.")
        (lit "The certificate is not trusted."))

abbrev pub san_check : Target → Option TlsObservation → Check
san_check target o =
    new_check (lit "certificate-san") (pass_when (covers target o)) (certificate_names_of o) (
      conditional_reason (covers target o) (lit "The certificate SAN covers the configured SNI.")
        (lit "The certificate SAN does not cover the configured SNI."))

abbrev pub samples_check : List ℕ → Check
samples_check latencies =
    new_check (lit "tls-samples") (pass_when (nat_beq (length latencies) 3))
      (count (length latencies))
      (lit "Collected " ++ format_uint 10 (length latencies) ++ lit " complete TLS sample(s).")

abbrev pub latency_check : ProbeLimits → List ℕ → Check
latency_check limits latencies =
    new_check (lit "latency")
      (metric_status (length latencies) (median_int latencies) limits.latency_warning_ms)
      (nullable_int (median_int latencies))
      (metric_reason (lit "Median TLS handshake latency") (median_int latencies))

abbrev pub jitter_check : ProbeLimits → List ℕ → Check
jitter_check limits latencies =
    new_check (lit "jitter")
      (metric_status (length latencies) (range_int latencies) limits.jitter_warning_ms)
      (nullable_int (range_int latencies)) (metric_reason (lit "TLS jitter") (range_int latencies))

abbrev pub no_public_check : Check
no_public_check =
    new_check (lit "public-address") fail (texts [])
      (lit "No resolved destination address is public.")

abbrev pub public_check : List Str → Check
public_check values =
    new_check (lit "public-address") pass (texts values)
      (lit "At least one resolved destination address is public.")

abbrev pub dns_error_check : Str → Check
dns_error_check error = new_check (lit "dns-resolution") fail nothing error
