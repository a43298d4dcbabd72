-- ===== src/Plugin/Tests.antt =====
-- The module of internal/plugin at concrete inputs.
use remnaplus_alpine_node.Prelude.{
  ℕ, Bool, true, false, List, [], ◌∷◌, ◌++◌, if◌then◌else◌, Str, str_eq, str_beq, nat_eq, ◌==◌, lit,
  Option, none, some, ◌≡◌, refl, ◌⊎◌, inl, inr, arith, length, ◌≤◌,
}
use remnaplus_alpine_node.Prelude.Int.{pos}
use remnaplus_alpine_node.Prelude.Map.{has}
use remnaplus_alpine_node.Prelude.Text.{contains}
use remnaplus_alpine_node.Prelude.Json.{
  Json, str, num, arr, Items, cons, nil, Number, Fields, field, end, get,
}
use remnaplus_alpine_node.Plugin.{
  Library, Raw, raw_null, raw_bool, raw_number, raw_string, raw_array, raw_object, RawItems,
  no_items, raw_item, RawMembers, no_members, raw_member, SyncPlugin, State, TorrentReport,
  AsnResolver,
}
use remnaplus_alpine_node.Plugin.Lists.{parse_uint32, to_int_slice}
use remnaplus_alpine_node.Plugin.Settings.{new_state}
use remnaplus_alpine_node.Plugin.Source.{extract_webhook_ip}
use remnaplus_alpine_node.Plugin.Source.Extract.{tcp, source_text, extract_webhook_ip-source_text}
use remnaplus_alpine_node.Plugin.Service.{Service, Node, Answer, accepted, handle_sync}
use remnaplus_alpine_node.Plugin.Service.View.{View, idle, applied, state_of, sync_view, Valid}
use remnaplus_alpine_node.Plugin.Service.Refines.{handle_sync-refines}
use remnaplus_alpine_node.Plugin.Service.Restarts.{
  handle_sync-calls, expected_calls, torrent_settings,
}
use remnaplus_alpine_node.Plugin.Service.Stale.{joined_tags-Stale, tagged}
use remnaplus_alpine_node.Plugin.Hash.Joined.{tags_config}
use remnaplus_alpine_node.Plugin.Blocking.{handle_xray_webhook}
use remnaplus_alpine_node.Plugin.Blocking.Webhook.{Reported, handle_xray_webhook-Reported}
use remnaplus_alpine_node.Plugin.Runs.{Event, sync_request, collect_request, webhook_request, run}
use remnaplus_alpine_node.Plugin.Runs.Applied.{run-Viewed}
use remnaplus_alpine_node.Plugin.Runs.Delivered.{run-Delivers, webhooks}

-- A library that tells addresses by their punctuation, takes whole numbers, and keeps the scripts of
-- nft, each of which succeeds.
abbrev family : Str → Option Bool
family s =
    if contains s (lit ".") then some true else if contains s (lit ":") then some false else none

abbrev with_prefix : Str → Option Bool → Option (Bool × Str)
with_prefix s none = none
with_prefix s (some is_v4) = some (is_v4, s)

abbrev number_of : Option ℕ → Option Number
number_of none = none
number_of (some n) = some (record { negative = false; whole = n; fractional = false })

abbrev library : Library
library = record {
  Kernel = List Str;
  Prefix = Str;
  parse_ip = family;
  parse_cidr = λ s. none;
  parse_prefix = λ s. none;
  parse_addr = λ s. with_prefix s (family s);
  ip_set = λ ps. ps;
  sha256_hex = λ s. b'#' ∷ s;
  parse_float = λ s. number_of (parse_uint32 s);
  run_nft = λ script k. (true, k ++ script ∷ []);
  now = λ k. pos 1000;
}

digest : (s : Str) → (library.sha256_hex s == []) ≡ false
unfolding remnaplus_alpine_node.Prelude.str_beq
digest s = refl

abbrev service : Service
service = record { nft_available = true; dropper = some true; has_xray = true }

abbrev plugin : SyncPlugin
plugin =
    tagged library service (lit "u1") (lit "main") (lit "600") (lit "rule-a" ∷ lit "rule-b" ∷ [])

abbrev fresh_node : Node (List Str)
fresh_node = record { state = new_state none; kernel = []; killed = []; calls = [] }

-- The node on which the plugin was applied.
abbrev node : Node (List Str)
node = record {
  state = state_of library none (applied plugin []);
  kernel = [];
  killed = [];
  calls = [];
}

abbrev payload : Fields
payload =
    field (lit "email") (str (lit "7")) (field (lit "source") (str (lit "tcp:10.0.0.1:80")) end)

extract_webhook_ip-source_text_example :
    extract_webhook_ip library (source_text tcp (lit "10.0.0.1") (lit "80")) ≡ lit "10.0.0.1"
unfolding remnaplus_alpine_node.Prelude.str_beq contains has
    remnaplus_alpine_node.Plugin.Source.digits
extract_webhook_ip-source_text_example =
    extract_webhook_ip-source_text library tcp b'1' (lit "0.0.0.1") (lit "80") refl refl refl refl
      refl refl

handle_sync-refines_example :
    ((handle_sync library service (some (some plugin)) fresh_node).0
      ≡ (sync_view library (some (some plugin)) idle).0)
    × ((handle_sync library service (some (some plugin)) fresh_node).1.state
        ≡ state_of library none (sync_view library (some (some plugin)) idle).1)
    × Valid library (sync_view library (some (some plugin)) idle).1
unfolding state_of
handle_sync-refines_example =
    handle_sync-refines library service digest none idle (some (some plugin)) fresh_node tt refl

joined_tags-Stale_example :
    handle_sync library service
      (some (
        some
          (tagged library service (lit "u2") (lit "other") (lit "600") (lit "rule-a,rule-b" ∷ []))))
      node
    ≡ (accepted true, node)
unfolding remnaplus_alpine_node.Plugin.Hash.join remnaplus_alpine_node.Plugin.Hash.Joined.all_solid
    remnaplus_alpine_node.Prelude.Text.is_space
joined_tags-Stale_example =
    joined_tags-Stale library service digest none (lit "u1") (lit "main") (lit "u2") (lit "other")
      (lit "600") (lit "rule-a" ∷ lit "rule-b" ∷ []) [] node refl refl

handle_sync-calls_example :
    (handle_sync library service (some (some plugin)) fresh_node).1.calls
    ≡ []
      ++ expected_calls library service fresh_node.state.torrent
          (torrent_settings library service plugin fresh_node.state)
unfolding str_beq remnaplus_alpine_node.Plugin.Hash.hash_plugin_config tags_config
    remnaplus_alpine_node.Plugin.Service.View.is_valid
    remnaplus_alpine_node.Plugin.Validate.validate_plugin_config
    remnaplus_alpine_node.Plugin.Hash.extract_plugin_config
    remnaplus_alpine_node.Plugin.Hash.Joined.strings parse_uint32 get
    remnaplus_alpine_node.Prelude.Json.put remnaplus_alpine_node.Plugin.Lists.as_int
    remnaplus_alpine_node.Prelude.Json.exists_key
    remnaplus_alpine_node.Plugin.Checks.validate_pre_start_section
handle_sync-calls_example = handle_sync-calls library service plugin fresh_node refl refl

abbrev events : List Event
events = webhook_request payload ∷ collect_request ∷ webhook_request payload ∷ []

run-Viewed_example :
    (v : View) × Valid library v
    × ((run library service (sync_request (some (some plugin)) ∷ events) fresh_node).1.state
        ≡ state_of library none v)
run-Viewed_example =
    run-Viewed library service digest none (sync_request (some (some plugin)) ∷ events) fresh_node
      refl

run-Delivers_example :
    (new : List TorrentReport) × ((run library service events node).0
        ++ (run library service events node).1.state.reports
      ≡ node.state.reports ++ new)
    × (length new ≤ webhooks library service events)
unfolding remnaplus_alpine_node.Plugin.Runs.Delivered.all_keep
run-Delivers_example = run-Delivers library service events node refl

handle_xray_webhook-Reported_example :
    (handle_xray_webhook library service payload node ≡ node)
    ⊎ ((r : TorrentReport) × Reported library service payload node r
          (handle_xray_webhook library service payload node))
handle_xray_webhook-Reported_example = handle_xray_webhook-Reported library service payload node

-- The filter of port 443 and of one address.
abbrev egress : Fields
egress = field (lit "enabled") (Json.bool true) (
    field (lit "blockedIps") (arr (cons (str (lit "10.0.0.9")) nil)) (
      field (lit "blockedPorts")
        (arr (cons (num (record { negative = false; whole = 443; fractional = false })) nil)) end))
