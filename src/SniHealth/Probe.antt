-- ===== src/SniHealth/Probe.antt =====
-- internal/snihealth/probe.go: the probe of one destination.
use remnaplus_alpine_node.Prelude.{
  ℕ, ◌+◌, Bool, true, false, not, ◌||◌, ◌&&◌, List, [], ◌∷◌, ◌++◌, if◌then◌else◌, Str, str_eq, ◌==◌,
  lit, Option, none, some, map,
}
use remnaplus_alpine_node.SniHealth.{
  fail, Address, Target, ResolvedAddress, TlsObservation, XrayResult, Adapters,
}
use remnaplus_alpine_node.SniHealth.Checks.{pass_when, is_public_address, first_nonempty}

pub record AddressProbe : Type 0 where
  pub resolved_address : ResolvedAddress
  pub address : Address
  pub tcp_ok : Bool
  pub xray : Option XrayResult
  pub tls : Option TlsObservation

-- What the loop over the probes collects.
pub record Tally : Type 0 where
  pub reachable : List Str
  pub xray_success : ℕ
  pub xray_unavailable : Bool
  pub xray_error : Str
  pub tls_versions : List Str
  pub alpns : List Str
  pub selected : Option AddressProbe
  pub selected_xray : Option XrayResult
  pub selected_tls : Option TlsObservation

abbrev pub empty_tally : Tally
empty_tally = record {
  reachable = [];
  xray_success = 0;
  xray_unavailable = false;
  xray_error = [];
  tls_versions = [];
  alpns = [];
  selected = none;
  selected_xray = none;
  selected_tls = none;
}

abbrev pub or_first {ℓ} : {A : Type ℓ} → Option A → Option A → Option A
or_first none other = other
or_first (some a) other = some a

abbrev pub xray_ok : Option XrayResult → Bool
xray_ok none = false
xray_ok (some x) = x.handshake_succeeded

abbrev pub tls_ok : Option TlsObservation → Bool
tls_ok none = false
tls_ok (some o) = o.handshake_succeeded && o.authorized && o.protocol == lit "TLSv1.3"

-- The condition under which the loop selects a probe
unfoldable pub selectable : AddressProbe → Bool
selectable p = p.tcp_ok && xray_ok p.xray && tls_ok p.tls

unfoldable pub tally_xray : Option XrayResult → Tally → Tally
tally_xray none t = t
tally_xray (some x) t = record t {
  xray_success = if x.handshake_succeeded then t.xray_success + 1 else t.xray_success;
  xray_unavailable = t.xray_unavailable || not (x.command_error == []);
  xray_error = first_nonempty (t.xray_error ∷ x.command_error ∷ []);
  selected_xray = or_first t.selected_xray (some x);
}

unfoldable pub tally_tls : Option TlsObservation → Tally → Tally
tally_tls none t = t
tally_tls (some o) t = record t {
  tls_versions =
      if o.handshake_succeeded && not (o.protocol == [])
      then t.tls_versions ++ o.protocol ∷ []
      else t.tls_versions;
  alpns = if o.handshake_succeeded && not (o.alpn == []) then t.alpns ++ o.alpn ∷ [] else t.alpns;
  selected_tls = or_first t.selected_tls (some o);
}

unfoldable pub tally_tcp : AddressProbe → Tally → Tally
tally_tcp p t =
    if p.tcp_ok then record t { reachable = t.reachable ++ p.resolved_address.address ∷ [] } else t

abbrev pub is_none {ℓ} : {A : Type ℓ} → Option A → Bool
is_none none = true
is_none (some a) = false

unfoldable pub tally_selected : AddressProbe → Tally → Tally
unfolding selectable
tally_selected p t =
    if is_none t.selected && selectable p
    then record t { selected = some p; selected_xray = p.xray; selected_tls = p.tls }
    else t

unfoldable pub tally_probes : List AddressProbe → Tally → Tally
unfolding tally_selected tally_tls tally_xray tally_tcp
tally_probes [] t = t
tally_probes (p ∷ probes) t =
    tally_probes probes (tally_selected p (tally_tls p.tls (tally_xray p.xray (tally_tcp p t))))

module _ (a : Adapters) where
  -- probeAddress; the error of an address that was reached and not taken
  unfoldable pub handshake_error : XrayResult → TlsObservation → Str
  handshake_error x o = first_nonempty (x.command_error ∷ o.error ∷ lit "TLS probe failed." ∷ [])

  unfoldable pub refused_address : ResolvedAddress → Bool → Str → AddressProbe
  refused_address r is_public error = record {
    resolved_address = r;
    address = record {
      address = r.address;
      family = r.family;
      is_public = is_public;
      status = fail;
      error = some error;
    };
    tcp_ok = false;
    xray = none;
    tls = none;
  }

  unfoldable pub reached_address : ResolvedAddress → XrayResult → TlsObservation → AddressProbe
  unfolding pass_when handshake_error
  reached_address r x o = record {
    resolved_address = r;
    address = record {
      address = r.address;
      family = r.family;
      is_public = true;
      status = pass_when (x.handshake_succeeded && o.handshake_succeeded);
      error =
          if x.handshake_succeeded && o.handshake_succeeded
          then none
          else some (handshake_error x o);
    };
    tcp_ok = true;
    xray = some x;
    tls = some o;
  }

  unfoldable pub dialled_address : Target → ResolvedAddress → Option Str → AddressProbe
  unfolding refused_address reached_address
  dialled_address target r (some error) = refused_address r true error
  dialled_address target r none =
      reached_address r (a.xray r.address target.normalized_sni target.port)
        (a.tls 0 r.address target.normalized_sni target.port)

  unfoldable pub probe_address : Target → ResolvedAddress → AddressProbe
  unfolding dialled_address is_public_address
  probe_address target r =
      if is_public_address a r.address
      then dialled_address target r (a.tcp r.address target.port)
      else refused_address r false (lit "Resolved address is private or reserved.")

  -- probeAddresses; the workers write each result to the place of its address.
  unfoldable pub probe_addresses : Target → List ResolvedAddress → List AddressProbe
  unfolding probe_address
  probe_addresses target = map (probe_address target)

  -- The two further samples of the selected address.
  unfoldable pub sample : Target → AddressProbe → ℕ → List ℕ
  sample target p number =
      taken (a.tls number p.resolved_address.address target.normalized_sni target.port)
    where
      latency_of : Bool → Option ℕ → List ℕ
      latency_of true (some latency) = latency ∷ []
      latency_of _ _ = []

      taken : TlsObservation → List ℕ
      taken o = latency_of o.handshake_succeeded o.latency_ms

  unfoldable pub first_latency : Option TlsObservation → Option ℕ
  first_latency none = none
  first_latency (some o) = o.latency_ms

  unfoldable pub latencies_of : Target → Option AddressProbe → List ℕ
  unfolding first_latency sample
  latencies_of target none = []
  latencies_of target (some p) = sampled (first_latency p.tls)
    where
      sampled : Option ℕ → List ℕ
      sampled none = []
      sampled (some latency) = latency ∷ sample target p 1 ++ sample target p 2
