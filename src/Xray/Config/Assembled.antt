-- ===== src/Xray/Config/Assembled.antt =====
-- What the parts of a generated configuration have, before the rules are told apart.
use remnaplus_alpine_node.Prelude.{
  ℕ, Bool, true, false, List, [], ◌∷◌, ◌++◌, Str, str_eq, str_beq, lit, ◌≡◌, refl, sym, ap, ◌∙◌,
}
use mathlib.Core.List.{append-nil}
use remnaplus_alpine_node.Prelude.Json.{
  Json, obj, Fields, get, put, get-put_same, get-put_other, to_list-from_list,
}
use remnaplus_alpine_node.Xray.Config.{
  TorrentBlockerOptions, array_from, array, object, api_inbound, fields_or_empty, policy_from,
  api_rule, without_api_rules, routing_from, webhook, torrent_rule, torrent_outbound, probe_inbound,
  probe_rule, second, second_or_first, hooks,
}
use remnaplus_alpine_node.Xray.Config.Generate.{
  inbounds_key, outbounds_key, routing_key, rules_key, api_services, with_probe_inbound, put_rules,
  rules_of, add_probe_rule, add_torrent_rules, routing_of, with_torrent, assemble,
}

rules_of-put_rules :
    (rules : List Json) (routing : Fields) → rules_of (put_rules rules routing) ≡ rules
rules_of-put_rules rules routing =
    ap array_from (get-put_same rules_key (array rules) routing) ∙ to_list-from_list rules

abbrev kept_rules : Fields → List Json
kept_rules input = without_api_rules (rules_of (routing_of input))

-- What the WARP outbound adds to a list.
abbrev pub if_warp : Bool → Json → List Json
if_warp true value = value ∷ []
if_warp false value = []

rules_of-routing_from :
    (existing : Json)
    → rules_of (routing_from existing)
      ≡ api_rule ∷ without_api_rules (rules_of (fields_or_empty existing))
unfolding routing_from
rules_of-routing_from existing =
    rules_of-put_rules (api_rule ∷ without_api_rules (rules_of (fields_or_empty existing)))
      (fields_or_empty existing)

rules_of-add_probe_rule :
    (has_warp : Bool) (routing : Fields) (first : Json) (rules : List Json)
    → rules_of routing ≡ first ∷ rules
    → rules_of (add_probe_rule has_warp routing) ≡ first ∷ if_warp has_warp probe_rule ++ rules
rules_of-add_probe_rule true routing first rules h =
    rules_of-put_rules (second (object []) probe_rule (rules_of routing)) routing
    ∙ ap (second (object []) probe_rule) h
rules_of-add_probe_rule false routing first rules h = h

-- A configuration that has the given inbounds, outbounds and rules.
pub record Has (config : Fields) (inbounds outbounds rules : List Json) : Type 0 where
  pub inbounds_are : array_from (get inbounds_key config) ≡ inbounds
  pub outbounds_are : array_from (get outbounds_key config) ≡ outbounds
  pub rules_are : rules_of (routing_of config) ≡ rules

with_probe_inbound_lem :
    (has_warp : Bool) (port : ℕ) (first : Json) (inbounds : List Json)
    → with_probe_inbound has_warp port (first ∷ inbounds)
      ≡ first ∷ if_warp has_warp (probe_inbound port) ++ inbounds
with_probe_inbound_lem true port first inbounds = refl
with_probe_inbound_lem false port first inbounds = refl

pub assemble-Has :
    (port : ℕ) (net_admin : Bool) (socket : Str) (config : Fields) (outbounds : List Json)
    (has_warp : Bool)
    → Has
        (assemble port net_admin socket (config, outbounds, has_warp))
        (api_inbound socket ∷ if_warp has_warp (probe_inbound port)
          ++ array_from (get inbounds_key config))
        outbounds
        (api_rule ∷ if_warp has_warp probe_rule ++ without_api_rules (rules_of (routing_of config)))
unfolding assemble str_beq
assemble-Has port net_admin socket config outbounds has_warp =
    let stats = put (lit "stats") (object []) config in
    let with_api = put (lit "api") api_services stats in
    let inbounds =
      with_probe_inbound has_warp port
        (api_inbound socket ∷ array_from (get inbounds_key with_api)) in
    let bounded = put inbounds_key (array inbounds) with_api in
    let bounds = put outbounds_key (array outbounds) bounded in
    let policy = policy_from (get (lit "policy") bounds) net_admin in
    let policed = put (lit "policy") policy bounds in
    let routing = obj (add_probe_rule has_warp (routing_from (get routing_key policed))) in
    let inbounds_kept : get inbounds_key with_api ≡ get inbounds_key config =
      get-put_other inbounds_key (lit "api") api_services stats refl
      ∙ get-put_other inbounds_key (lit "stats") (object []) config refl in
    let routing_kept : get routing_key policed ≡ get routing_key config =
      get-put_other routing_key (lit "policy") policy bounds refl
      ∙ get-put_other routing_key outbounds_key (array outbounds) bounded refl
      ∙ get-put_other routing_key inbounds_key (array inbounds) with_api refl
      ∙ get-put_other routing_key (lit "api") api_services stats refl
      ∙ get-put_other routing_key (lit "stats") (object []) config refl in
    record {
      inbounds_are =
          ap array_from (
            get-put_other inbounds_key routing_key routing policed refl
            ∙ get-put_other inbounds_key (lit "policy") policy bounds refl
            ∙ get-put_other inbounds_key outbounds_key (array outbounds) bounded refl
            ∙ get-put_same inbounds_key (array inbounds) with_api)
          ∙ to_list-from_list inbounds
          ∙ with_probe_inbound_lem has_warp port (api_inbound socket)
              (array_from (get inbounds_key with_api))
          ∙ ap (λ v. api_inbound socket ∷ if_warp has_warp (probe_inbound port) ++ array_from v)
              inbounds_kept;
      outbounds_are =
          ap array_from (
            get-put_other outbounds_key routing_key routing policed refl
            ∙ get-put_other outbounds_key (lit "policy") policy bounds refl
            ∙ get-put_same outbounds_key (array outbounds) bounded)
          ∙ to_list-from_list outbounds;
      rules_are =
          ap (λ v. rules_of (fields_or_empty v)) (get-put_same routing_key routing policed)
          ∙ rules_of-add_probe_rule has_warp (routing_from (get routing_key policed)) api_rule _
              (rules_of-routing_from (get routing_key policed))
          ∙ ap
              (λ v.
                api_rule ∷ if_warp has_warp probe_rule
                ++ without_api_rules (rules_of (fields_or_empty v)))
              routing_kept;
    }

-- The rules with that of the torrent blocker behind the first one, and the webhooks.
abbrev pub torrent_rules : Bool → TorrentBlockerOptions → Json → List Json → List Json
torrent_rules false torrent first rules = first ∷ rules
torrent_rules true torrent first rules =
    hooks torrent.include_rule_tags (webhook torrent.socket_path)
      (first ∷ torrent_rule torrent.socket_path ∷ rules)

abbrev pub if_enabled : Bool → Json → List Json
if_enabled true value = value ∷ []
if_enabled false value = []

pub with_torrent-Has :
    (enabled : Bool) (torrent : TorrentBlockerOptions) (config : Fields)
    (inbounds outbounds : List Json) (first : Json) (rules : List Json)
    → Has config inbounds outbounds (first ∷ rules)
    → Has
        (with_torrent enabled torrent config)
        inbounds
        (outbounds ++ if_enabled enabled torrent_outbound)
        (torrent_rules enabled torrent first rules)
unfolding with_torrent str_beq
with_torrent-Has false torrent config inbounds outbounds first rules has = record {
  inbounds_are = has.inbounds_are;
  outbounds_are = has.outbounds_are ∙ sym (append-nil outbounds);
  rules_are = has.rules_are;
}
with_torrent-Has true torrent config inbounds outbounds first rules has =
    let blocked_outbounds =
      array (array_from (get outbounds_key config) ++ torrent_outbound ∷ []) in
    let blocked = put outbounds_key blocked_outbounds config in
    let routing = obj (add_torrent_rules torrent (routing_of blocked)) in
    record {
      inbounds_are =
          ap array_from (
            get-put_other inbounds_key routing_key routing blocked refl
            ∙ get-put_other inbounds_key outbounds_key blocked_outbounds config refl)
          ∙ has.inbounds_are;
      outbounds_are =
          ap array_from (
            get-put_other outbounds_key routing_key routing blocked refl
            ∙ get-put_same outbounds_key blocked_outbounds config)
          ∙ to_list-from_list (array_from (get outbounds_key config) ++ torrent_outbound ∷ [])
          ∙ ap (λ l. l ++ torrent_outbound ∷ []) has.outbounds_are;
      rules_are =
          ap (λ v. rules_of (fields_or_empty v)) (get-put_same routing_key routing blocked)
          ∙ rules_of-put_rules _ (routing_of blocked)
          ∙ ap
              (λ v.
                hooks torrent.include_rule_tags (webhook torrent.socket_path) (
                  second_or_first (torrent_rule torrent.socket_path)
                    (rules_of (fields_or_empty v))))
              (get-put_other routing_key outbounds_key blocked_outbounds config refl)
          ∙ ap
              (λ l.
                hooks torrent.include_rule_tags (webhook torrent.socket_path)
                  (second_or_first (torrent_rule torrent.socket_path) l))
              has.rules_are;
    }
