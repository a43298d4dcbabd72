-- ===== src/Xray/Config/Generate.antt =====
-- generateAPIConfig of internal/xray/apiconfig.go.
use remnaplus_alpine_node.Prelude.{ℕ, Bool, true, false, List, [], ◌∷◌, ◌++◌, Str, str_eq, lit}
use remnaplus_alpine_node.Prelude.Int.{ℤ}
use remnaplus_alpine_node.Prelude.Json.{Json, str, obj, Fields, get, put}
use remnaplus_alpine_node.Xray.Config.Warp.{
  Network, Guarded, accepted, refused, guard_warp_outbounds,
}
use remnaplus_alpine_node.Xray.Config.{
  api_tag, TorrentBlockerOptions, array_from, array, object, api_inbound, fields_or_empty,
  policy_from, routing_from, webhook, torrent_rule, torrent_outbound, probe_inbound, probe_rule,
  probe_port, second, second_or_first, hooks,
}

abbrev pub inbounds_key : Str
inbounds_key = lit "inbounds"

abbrev pub outbounds_key : Str
outbounds_key = lit "outbounds"

abbrev pub routing_key : Str
routing_key = lit "routing"

abbrev pub rules_key : Str
rules_key = lit "rules"

-- The configuration, its outbounds, and whether one is a WARP outbound that was guarded.
abbrev pub checked_outbounds : Guarded (List Json × Bool) → Fields → Fields × List Json × Bool
checked_outbounds (accepted (outbounds, has_warp)) config = (config, outbounds, has_warp)
checked_outbounds (refused message) config = (
  put (lit "__warpGuardError") (str message) config,
  array_from (get outbounds_key config),
  false,
)

abbrev pub api_services : Json
api_services = object (
    (
      lit "services",
      array
          (str (lit "HandlerService") ∷ str (lit "StatsService") ∷ str (lit "RoutingService") ∷ []),
    )
    ∷ (lit "tag", str api_tag)
    ∷ [])

abbrev pub with_probe_inbound : Bool → ℕ → List Json → List Json
with_probe_inbound true port (first ∷ inbounds) = first ∷ probe_inbound port ∷ inbounds
with_probe_inbound true port [] = []
with_probe_inbound false port inbounds = inbounds

abbrev pub with_probe_rule : Bool → List Json → List Json
with_probe_rule true rules = second (object []) probe_rule rules
with_probe_rule false rules = rules

abbrev pub put_rules : List Json → Fields → Fields
put_rules rules routing = put rules_key (array rules) routing

abbrev pub rules_of : Fields → List Json
rules_of routing = array_from (get rules_key routing)

-- The rule of the probe is written only where there is a WARP outbound.
abbrev pub add_probe_rule : Bool → Fields → Fields
add_probe_rule true routing = put_rules (with_probe_rule true (rules_of routing)) routing
add_probe_rule false routing = routing

abbrev pub add_torrent_rules : TorrentBlockerOptions → Fields → Fields
add_torrent_rules torrent routing =
    put_rules
      (hooks torrent.include_rule_tags (webhook torrent.socket_path)
        (second_or_first (torrent_rule torrent.socket_path) (rules_of routing)))
      routing

abbrev pub routing_of : Fields → Fields
routing_of config = fields_or_empty (get routing_key config)

unfoldable pub with_torrent : Bool → TorrentBlockerOptions → Fields → Fields
with_torrent false torrent config = config
with_torrent true torrent config =
    let blocked =
      put outbounds_key (array (array_from (get outbounds_key config) ++ torrent_outbound ∷ []))
        config in
    put routing_key (obj (add_torrent_rules torrent (routing_of blocked))) blocked

unfoldable pub assemble : ℕ → Bool → Str → Fields × List Json × Bool → Fields
assemble port net_admin socket (config, outbounds, has_warp) =
    let with_api = put (lit "api") api_services (put (lit "stats") (object []) config) in
    let inbounds =
      with_probe_inbound has_warp port
        (api_inbound socket ∷ array_from (get inbounds_key with_api)) in
    let bounds = put outbounds_key (array outbounds) (put inbounds_key (array inbounds) with_api) in
    let policed = put (lit "policy") (policy_from (get (lit "policy") bounds) net_admin) bounds in
    put routing_key (obj (add_probe_rule has_warp (routing_from (get routing_key policed)))) policed

unfoldable pub generate_api_config :
    Network → ℤ → Bool → Str → TorrentBlockerOptions → Fields → Fields
generate_api_config net configured net_admin socket torrent input =
    with_torrent torrent.enabled torrent (
      assemble (probe_port net configured) net_admin socket
        (checked_outbounds (guard_warp_outbounds net (array_from (get outbounds_key input))) input))
