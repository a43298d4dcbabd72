-- ===== src/Xray/Config/Generated.antt =====
-- What a generated configuration has.
use remnaplus_alpine_node.Prelude.{
  Bool, true, false, if◌then◌else◌, List, [], ◌∷◌, ◌++◌, Str, str_eq, ◌≡◌,
}
use remnaplus_alpine_node.Prelude.Int.{ℤ}
use remnaplus_alpine_node.Prelude.Json.{Json, Fields, get}
use remnaplus_alpine_node.Xray.Config.Warp.{Network, accepted, guard_warp_outbounds}
use remnaplus_alpine_node.Xray.Config.{
  TorrentBlockerOptions, array_from, api_inbound, api_rule, without_api_rules, webhook,
  torrent_rule, torrent_outbound, probe_inbound, probe_rule, probe_port,
}
use remnaplus_alpine_node.Xray.Config.Rules.{
  LessApi, AllHooked, without_api_rules-LessApi, none-AllHooked, hooks-AllHooked,
}
use remnaplus_alpine_node.Xray.Config.Generate.{
  inbounds_key, outbounds_key, rules_of, routing_of, generate_api_config,
}
use remnaplus_alpine_node.Xray.Config.Assembled.{
  Has, if_warp, if_enabled, torrent_rules, assemble-Has, with_torrent-Has,
}

torrent_rules-AllHooked :
    (enabled : Bool) (torrent : TorrentBlockerOptions) (first : Json) (rules : List Json)
    → AllHooked
        (if enabled then torrent.include_rule_tags else [])
        (webhook torrent.socket_path)
        (first ∷ if_enabled enabled (torrent_rule torrent.socket_path) ++ rules)
        (torrent_rules enabled torrent first rules)
torrent_rules-AllHooked true torrent first rules =
    hooks-AllHooked torrent.include_rule_tags (webhook torrent.socket_path)
      (first ∷ torrent_rule torrent.socket_path ∷ rules)
torrent_rules-AllHooked false torrent first rules =
    none-AllHooked (webhook torrent.socket_path) (first ∷ rules)

generated-Has :
    (net : Network) (configured : ℤ) (net_admin : Bool) (socket : Str)
    (torrent : TorrentBlockerOptions) (input : Fields) (outbounds : List Json) (has_warp : Bool)
    → guard_warp_outbounds net (array_from (get outbounds_key input))
      ≡ accepted (outbounds, has_warp)
    → Has
        (generate_api_config net configured net_admin socket torrent input)
        (api_inbound socket ∷ if_warp has_warp (probe_inbound (probe_port net configured))
          ++ array_from (get inbounds_key input))
        (outbounds ++ if_enabled torrent.enabled torrent_outbound)
        (torrent_rules torrent.enabled torrent api_rule
          (if_warp has_warp probe_rule ++ without_api_rules (rules_of (routing_of input))))
unfolding generate_api_config
generated-Has net configured net_admin socket torrent input outbounds has_warp guarded =
    rw guarded (
      with_torrent-Has torrent.enabled torrent _ _ outbounds api_rule _
        (assemble-Has (probe_port net configured) net_admin socket input outbounds has_warp))

-- What becomes of the rules of the panel: those for the API go, the rules of the node come before them,
-- and where the torrent blocker is on, its webhook is added to the rules whose tags are listed.
abbrev pub RulesFrom : TorrentBlockerOptions → Bool → List Json → List Json → List Json → Type 0
RulesFrom torrent has_warp panel kept rules =
    LessApi panel kept
    × AllHooked (if torrent.enabled then torrent.include_rule_tags else [])
        (webhook torrent.socket_path)
        (api_rule ∷ if_enabled torrent.enabled (torrent_rule torrent.socket_path)
          ++ (if_warp has_warp probe_rule ++ kept))
        rules

-- Where the guard takes the outbounds, the configuration that the core gets has the inbound of the API
-- first, then that of the WARP probe where there is a guarded WARP outbound, then those of the panel; the
-- guarded outbounds and, where the torrent blocker is on, its own; and the rule of the API, that of the
-- torrent blocker where it is on, that of the probe where there is a guarded WARP outbound, then those of
-- the panel in their order less exactly the ones whose outbound is that of the API. Where the torrent
-- blocker is on, each rule whose tag is listed has its webhook and is else as it was; every other rule
-- is as it was.
pub generate_api_config-Has :
    (net : Network) (configured : ℤ) (net_admin : Bool) (socket : Str)
    (torrent : TorrentBlockerOptions) (input : Fields) (outbounds : List Json) (has_warp : Bool)
    → guard_warp_outbounds net (array_from (get outbounds_key input))
      ≡ accepted (outbounds, has_warp)
    → (kept : List Json) × (rules : List Json) × RulesFrom torrent has_warp
        (rules_of (routing_of input))
        kept
        rules
      × Has
          (generate_api_config net configured net_admin socket torrent input)
          (api_inbound socket ∷ if_warp has_warp (probe_inbound (probe_port net configured))
            ++ array_from (get inbounds_key input))
          (outbounds ++ if_enabled torrent.enabled torrent_outbound)
          rules
generate_api_config-Has net configured net_admin socket torrent input outbounds has_warp guarded =
    let kept = without_api_rules (rules_of (routing_of input)) in
    let rules = if_warp has_warp probe_rule ++ kept in
    (
      kept,
      torrent_rules torrent.enabled torrent api_rule rules,
      (
        without_api_rules-LessApi (rules_of (routing_of input)),
        torrent_rules-AllHooked torrent.enabled torrent api_rule rules,
      ),
      generated-Has net configured net_admin socket torrent input outbounds has_warp guarded,
    )
