-- ===== src/Xray/Config/Tests.antt =====
-- The generated configuration at a concrete input.
use remnaplus_alpine_node.Prelude.{
  ◌≡◌, refl, lit, List, [], ◌∷◌, ◌++◌, str_eq, str_beq, none, some, Bool, true, false,
}
use remnaplus_alpine_node.Prelude.Int.{pos}
use remnaplus_alpine_node.Prelude.Text.{split}
use remnaplus_alpine_node.Prelude.Json.{Json, str, Fields, field, end, get, put, exists_key}
use remnaplus_alpine_node.Xray.Config.Warp.{
  Network, Guarded, accepted, refused, valid_port, valid_ipv4_endpoint, valid_endpoint, first_ipv4,
  with_reserved, guard_peer, guard_outbound, guard_from, guard_warp_outbounds,
}
use remnaplus_alpine_node.Xray.Config.{
  TorrentBlockerOptions, array, array_from, object, api_inbound, probe_inbound, probe_port,
  torrent_outbound,
}
use remnaplus_alpine_node.Xray.Config.Generate.{
  inbounds_key, outbounds_key, routing_of, rules_of, generate_api_config,
}
use remnaplus_alpine_node.Xray.Config.Assembled.{Has, if_warp, if_enabled}
use remnaplus_alpine_node.Xray.Config.Generated.{RulesFrom, generate_api_config-Has}

abbrev net : Network
net = record {
  is_ip = λ host. true;
  is_ipv4 = λ host. true;
  split_host_port = λ endpoint. some (lit "1.2.3.4", lit "9");
  atoi = λ text. some (pos 9);
  decode_base64 = λ text. none;
  warp_client_id = [];
  warp_probe_port = [];
}

abbrev warp : Json
warp = object (
    (lit "tag", str (lit "WARP"))
    ∷ (lit "protocol", str (lit "wireguard"))
    ∷ (
      lit "settings",
      object (
          (lit "address", array (str (lit "10.0.0.2") ∷ []))
          ∷ (lit "peers", array (object ((lit "endpoint", str (lit "1.2.3.4:9")) ∷ []) ∷ []))
          ∷ []),
    )
    ∷ [])

abbrev outbounds : List Json
outbounds = object ((lit "tag", str (lit "direct")) ∷ []) ∷ warp ∷ []

abbrev list_of : Guarded (List Json × Bool) → List Json
list_of (accepted (values, applied)) = values
list_of (refused message) = []

abbrev guarded : List Json
guarded = list_of (guard_warp_outbounds net outbounds)

abbrev is_accepted : Guarded (List Json × Bool) → Bool
is_accepted (accepted (values, applied)) = applied
is_accepted (refused message) = false

passes : guard_warp_outbounds net outbounds ≡ accepted (guarded, true)
unfolding guard_warp_outbounds guard_from guard_outbound guard_peer first_ipv4 with_reserved
    valid_endpoint valid_ipv4_endpoint valid_port get put exists_key str_beq split
passes = refl

abbrev input : Fields
input = field (lit "outbounds") (array outbounds) (
    field (lit "routing")
      (object ((lit "rules", array (object ((lit "ruleTag", str (lit "x")) ∷ []) ∷ [])) ∷ [])) end)

abbrev torrent : TorrentBlockerOptions
torrent = record { enabled = true; include_rule_tags = lit "x" ∷ []; socket_path = lit "s" }

passes_input :
    guard_warp_outbounds net (array_from (get outbounds_key input)) ≡ accepted (guarded, true)
unfolding get str_beq
passes_input = passes

generate_api_config-Has_example :
    (kept : List Json) × (rules : List Json) × RulesFrom torrent true
      (rules_of (routing_of input))
      kept
      rules
    × Has
        (generate_api_config net (pos 5) true (lit "sock") torrent input)
        (api_inbound (lit "sock") ∷ if_warp true (probe_inbound (probe_port net (pos 5)))
          ++ array_from (get inbounds_key input))
        (guarded ++ if_enabled true torrent_outbound)
        rules
generate_api_config-Has_example =
    generate_api_config-Has net (pos 5) true (lit "sock") torrent input guarded true passes_input
