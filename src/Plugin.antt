-- ===== src/Plugin.antt =====
-- internal/plugin: the plugin configuration that the panel sends, and the code it relies on.
pub mod Blocking
pub mod Checks
pub mod Hash
pub mod Lists
pub mod Nft
pub mod Runs
pub mod Script
pub mod Service
pub mod Settings
pub mod Source
mod Tests
pub mod Validate
use remnaplus_alpine_node.Prelude.{ℕ, Bool, List, Str, Option}
use remnaplus_alpine_node.Prelude.Int.{ℤ}
use remnaplus_alpine_node.Prelude.Json.{Number, Fields}

-- The libraries that the package calls. An address comes with whether it is an IPv4 one.
pub record Library : Type 1 where
  -- What a run of the program `nft` reads and changes, and the clock.
  pub Kernel : Type 0
  pub Prefix : Type 0
  -- `net.ParseIP`, with `To4() != nil` of its answer
  pub parse_ip : Str → Option Bool
  -- `net.ParseCIDR`, with `To4() != nil` of its address
  pub parse_cidr : Str → Option Bool
  -- `netip.ParsePrefix` and `Masked`, with `Addr().Is4()`
  pub parse_prefix : Str → Option (Bool × Prefix)
  -- `netip.ParseAddr` and `Unmap`, with `Is4()`
  pub parse_addr : Str → Option (Bool × Prefix)
  -- What an `IPSetBuilder` makes of what is added to it: the strings of the prefixes.
  pub ip_set : List Prefix → List Str
  -- `hex.EncodeToString` of `sha256.Sum256`
  pub sha256_hex : Str → Str
  -- `strconv.ParseFloat` of a JSON number, which fails out of range
  pub parse_float : Str → Option Number
  -- `nft -f -` with this script, and whether it succeeds
  pub run_nft : Str → Kernel → Bool × Kernel
  -- `time.Now()`, in nanoseconds
  pub now : Kernel → ℤ

-- A JSON text as `json.Decoder.Token` gives it: numbers as they are written, the members of an
-- object in their order.
mutual
  pub data Raw : Type 0 where
    raw_null : Raw
    raw_bool : Bool → Raw
    raw_number : Str → Raw
    raw_string : Str → Raw
    raw_array : RawItems → Raw
    raw_object : RawMembers → Raw

  pub data RawItems : Type 0 where
    no_items : RawItems
    raw_item : Raw → RawItems → RawItems

  pub data RawMembers : Type 0 where
    no_members : RawMembers
    raw_member : Str → Raw → RawMembers → RawMembers

-- The config is `none` where the request has none.
pub record SyncPlugin : Type 0 where
  pub uuid : Str
  pub name : Str
  pub config : Option Raw

-- ASNResolver.PrefixesByASN: the IPv4 and the IPv6 prefixes.
abbrev pub AsnResolver : Type 0
AsnResolver = ℕ → List Str × List Str

pub record TorrentReport : Type 0 where
  pub blocked : Bool
  pub ip : Str
  pub block_duration : ℤ
  pub will_unblock_at : ℤ
  pub user_id : Str
  pub processed_at : ℤ
  pub xray_report : Fields

pub record TorrentSettings : Type 0 where
  pub enabled : Bool
  pub block_duration : ℤ
  pub include_rule_tags : List Str
  pub ignored_ips : List Str
  pub ignored_users : List Str

pub record PreStartSettings : Type 0 where
  pub enabled : Bool
  pub cleanup_enabled : Bool
  pub files : List Str

pub record State : Type 0 where
  pub config_hash : Str
  pub plugin_uuid : Str
  pub plugin_name : Str
  pub has_active : Bool
  pub whitelist_ips : List Str
  pub reports : List TorrentReport
  pub torrent : TorrentSettings
  pub pre_start : PreStartSettings
  pub asn : Option AsnResolver
