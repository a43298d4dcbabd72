-- ===== src/Xray/Config.antt =====
-- internal/xray/apiconfig.go: what the node adds to the configuration that it gets from the panel.
-- Maps are copied by their values, so that cloneMap is the identity.
pub mod Warp
pub mod Held
pub mod Guard
pub mod Rules
pub mod Generate
pub mod Assembled
pub mod Generated
mod Tests
use remnaplus_alpine_node.Prelude.{
  ℕ, suc, Bool, true, false, not, ◌&&◌, ◌||◌, List, [], ◌∷◌, ◌++◌, map, if◌then◌else◌, Str, str_eq,
  ◌==◌, lit, Option, some, none, leb,
}
use remnaplus_alpine_node.Prelude.Int.{ℤ, pos}
use remnaplus_alpine_node.Prelude.Map.{has}
use remnaplus_alpine_node.Prelude.Json.{
  Json, null, bool, num, str, arr, obj, Items, Fields, field, end, get, put, as_obj, as_arr,
  to_list, from_list, str_or_empty,
}
use remnaplus_alpine_node.Xray.Config.Warp.{
  Network, Guarded, accepted, refused, text_is, guard_warp_outbounds,
}

abbrev pub api_tag : Str
api_tag = lit "REMNAWAVE_API"

abbrev pub api_inbound_tag : Str
api_inbound_tag = lit "REMNAWAVE_API_INBOUND"

abbrev pub torrent_blocker_outbound_tag : Str
torrent_blocker_outbound_tag = lit "RW_TB_OUTBOUND_BLOCK"

pub record TorrentBlockerOptions : Type 0 where
  pub enabled : Bool
  pub include_rule_tags : List Str
  pub socket_path : Str

abbrev pub array_from : Json → List Json
array_from (arr items) = to_list items
array_from _ = []

abbrev pub array : List Json → Json
array values = arr (from_list values)

abbrev object_fields : List (Str × Json) → Fields
object_fields [] = end
object_fields ((key, value) ∷ rest) = field key value (object_fields rest)

abbrev pub object : List (Str × Json) → Json
object fields = obj (object_fields fields)

abbrev pub api_inbound : Str → Json
api_inbound socket = object (
    (lit "tag", str api_inbound_tag)
    ∷ (lit "listen", str (lit "@" ++ socket))
    ∷ (lit "protocol", str (lit "tunnel"))
    ∷ [])

abbrev pub fields_or_empty : Json → Fields
fields_or_empty (obj fields) = fields
fields_or_empty _ = end

unfoldable pub policy_from : Json → Bool → Json
policy_from existing stats_user_online =
    let zero =
      fields_or_empty
        (get (lit "0") (fields_or_empty (get (lit "levels") (fields_or_empty existing)))) in
    let level_zero =
      put (lit "statsUserOnline") (bool stats_user_online) (
        put (lit "statsUserDownlink") (bool true) (put (lit "statsUserUplink") (bool true) zero)) in
    object (
      (lit "levels", object ((lit "0", obj level_zero) ∷ []))
      ∷ (
        lit "system",
        object (
            (lit "statsInboundDownlink", bool true)
            ∷ (lit "statsInboundUplink", bool true)
            ∷ (lit "statsOutboundDownlink", bool true)
            ∷ (lit "statsOutboundUplink", bool true)
            ∷ []),
      )
      ∷ [])

abbrev pub api_rule : Json
api_rule =
    object
      ((lit "inboundTag", array (str api_inbound_tag ∷ [])) ∷ (lit "outboundTag", str api_tag) ∷ [])

-- Whether a rule of the panel is one for the API.
abbrev pub is_api_rule : Json → Bool
is_api_rule (obj rule) = text_is api_tag (get (lit "outboundTag") rule)
is_api_rule _ = false

unfoldable pub without_api_rules : List Json → List Json
without_api_rules [] = []
without_api_rules (rule ∷ rules) =
    let rest = without_api_rules rules in if is_api_rule rule then rest else rule ∷ rest

unfoldable pub routing_from : Json → Fields
routing_from existing =
    let routing = fields_or_empty existing in
    put (lit "rules")
      (array (api_rule ∷ without_api_rules (array_from (get (lit "rules") routing)))) routing

abbrev pub build_webhook_url : Str → Str
build_webhook_url socket = lit "/" ++ socket ++ lit ":/internal/webhook"

abbrev whole_number : ℕ → Json
whole_number n = num (record { negative = false; whole = n; fractional = false })

abbrev pub webhook : Str → Json
webhook socket =
    object
      ((lit "url", str (build_webhook_url socket)) ∷ (lit "deduplication", whole_number 5) ∷ [])

abbrev pub torrent_rule : Str → Json
torrent_rule socket = object (
    (lit "protocol", array (str (lit "bittorrent") ∷ []))
    ∷ (lit "outboundTag", str torrent_blocker_outbound_tag)
    ∷ (lit "webhook", webhook socket)
    ∷ [])

abbrev pub torrent_outbound : Json
torrent_outbound =
    object
      ((lit "tag", str torrent_blocker_outbound_tag) ∷ (lit "protocol", str (lit "blackhole")) ∷ [])

abbrev pub probe_inbound : ℕ → Json
probe_inbound port = object (
    (lit "tag", str (lit "REMNAWAVE_WARP_PROBE_INBOUND"))
    ∷ (lit "listen", str (lit "127.0.0.1"))
    ∷ (lit "port", whole_number port)
    ∷ (lit "protocol", str (lit "socks"))
    ∷ (lit "settings", object ((lit "auth", str (lit "noauth")) ∷ (lit "udp", bool false) ∷ []))
    ∷ [])

abbrev pub probe_rule : Json
probe_rule = object (
    (lit "inboundTag", array (str (lit "REMNAWAVE_WARP_PROBE_INBOUND") ∷ []))
    ∷ (lit "outboundTag", str (lit "WARP"))
    ∷ [])

abbrev valid_port_or : ℕ → Option ℤ → ℕ
valid_port_or default (some (pos (suc n))) = if leb (suc n) 65535 then suc n else default
valid_port_or default _ = default

-- The port of the environment, unless the manager has one.
unfoldable pub probe_port : Network → ℤ → ℕ
probe_port net configured =
    valid_port_or
      (if net.warp_probe_port == []
        then 61001
        else valid_port_or 61001 (net.atoi net.warp_probe_port))
      (some configured)

-- A rule put behind the first one.
abbrev pub second : Json → Json → List Json → List Json
second first rule [] = first ∷ rule ∷ []
second first rule (other ∷ rules) = other ∷ rule ∷ rules

-- The same where there may be no first one.
abbrev pub second_or_first : Json → List Json → List Json
second_or_first rule [] = rule ∷ []
second_or_first rule (other ∷ rules) = other ∷ rule ∷ rules

-- A rule whose tag is listed gets the webhook.
abbrev pub hook : List Str → Json → Json → Json
hook tags target (obj rule) =
    if has (str_or_empty (get (lit "ruleTag") rule)) tags
    then obj (put (lit "webhook") target rule)
    else obj rule
hook tags target other = other

abbrev pub hooks : List Str → Json → List Json → List Json
hooks [] target rules = rules
hooks (tag ∷ tags) target rules = map (hook (tag ∷ tags) target) rules
