-- ===== src/Xray/Config/Warp.antt =====
-- internal/xray/warp_guard.go: the outbound of WARP is held to IPv4.
use remnaplus_alpine_node.Prelude.{
  ℕ, Bool, true, false, not, ◌&&◌, ◌||◌, List, [], ◌∷◌, if◌then◌else◌, Str, str_eq, ◌==◌, nat_beq,
  lit, length, Option, some, none, leb, ltb,
}
use remnaplus_alpine_node.Prelude.Int.{ℤ, pos}
use remnaplus_alpine_node.Prelude.Text.{split}
use remnaplus_alpine_node.Prelude.Json.{
  Json, num, str, arr, obj, Items, Fields, get, put, exists_key, as_obj, to_list, from_list,
  str_or_empty,
}

-- What the packages net, strconv and base64 answer, and the environment.
pub record Network : Type 0 where
  pub is_ip : Str → Bool
  pub is_ipv4 : Str → Bool
  pub split_host_port : Str → Option (Str × Str)
  pub atoi : Str → Option ℤ
  pub decode_base64 : Str → Option (List ℕ)
  -- WARP_CLIENT_ID without the white space around it, and WARP_PROBE_PORT
  pub warp_client_id : Str
  pub warp_probe_port : Str

pub data Guarded (A : Type 0) : Type 0 where
  accepted : A → Guarded A
  refused : Str → Guarded A

infixl 5 ◌>>=◌
abbrev pub ◌>>=◌ : {A B : Type 0} → Guarded A → (A → Guarded B) → Guarded B
accepted a >>= f = f a
refused message >>= f = refused message

abbrev pub disabled_warp_endpoint : Str
disabled_warp_endpoint = lit "warp-is-disabled-on-this-remnanode.invalid:9"

abbrev valid_number : Option ℤ → Bool
valid_number (some (pos n)) = leb 1 n && leb n 65535
valid_number _ = false

unfoldable pub valid_port : Network → Str → Bool
valid_port net value = valid_number (net.atoi value)

abbrev ipv4_and_port : Network → Option (Str × Str) → Bool
ipv4_and_port net none = false
ipv4_and_port net (some (host, port)) = net.is_ip host && net.is_ipv4 host && valid_port net port

unfoldable pub valid_ipv4_endpoint : Network → Str → Bool
valid_ipv4_endpoint net endpoint = ipv4_and_port net (net.split_host_port endpoint)

is_alphanumeric : ℕ → Bool
is_alphanumeric c = (leb 48 c && leb c 57) || (leb 65 c && leb c 90) || (leb 97 c && leb c 122)

-- The rest of a label, whose last character is no `-`.
label_rest : Str → Bool
unfolding is_alphanumeric
label_rest [] = true
label_rest (c ∷ []) = is_alphanumeric c
label_rest (c ∷ s) = let rest = label_rest s in (is_alphanumeric c || nat_beq c 45) && rest

unfoldable pub is_label : Str → Bool
unfolding is_alphanumeric label_rest
is_label [] = false
is_label (c ∷ s) = is_alphanumeric c && label_rest s && leb (length (c ∷ s)) 63

all_labels : List Str → Bool
all_labels [] = true
all_labels (label ∷ labels) = is_label label && all_labels labels

abbrev hostname_and_port : Network → Option (Str × Str) → Bool
hostname_and_port net none = false
hostname_and_port net (some (host, port)) =
    not (host == [] || net.is_ip host || ltb 253 (length host) || not (valid_port net port))
    && all_labels (split host (lit "."))

unfoldable pub valid_hostname_endpoint : Network → Str → Bool
unfolding all_labels
valid_hostname_endpoint net endpoint = hostname_and_port net (net.split_host_port endpoint)

-- `value == text` for a value of any type
abbrev pub text_is : Str → Json → Bool
text_is text (str s) = s == text
text_is text _ = false

abbrev before_slash : List Str → Str
before_slash [] = []
before_slash (part ∷ parts) = part

-- The first address that is one of IPv4.
unfoldable pub first_ipv4 : Network → List Json → Str
first_ipv4 net [] = []
first_ipv4 net (value ∷ values) =
    let host = before_slash (split (str_or_empty value) (lit "/")) in
    let rest = first_ipv4 net values in
    if net.is_ip host && net.is_ipv4 host then str_or_empty value else rest

abbrev pub one_peer : Json → Option Fields
one_peer (arr (Items.cons (obj peer) Items.nil)) = some peer
one_peer _ = none

abbrev pub addresses_of : Json → List Json
addresses_of (arr items) = to_list items
addresses_of _ = []

abbrev pub whole : ℕ → Json
whole n = num (record { negative = false; whole = n; fractional = false })

abbrev pub reserved_from : Str → Option (List ℕ) → Fields → Guarded Fields
reserved_from client_id (some (a ∷ b ∷ c ∷ [])) settings =
    if nat_beq (length client_id) 4
    then accepted
        (put (lit "reserved") (arr (from_list (whole a ∷ whole b ∷ whole c ∷ []))) settings)
    else refused (lit "WARP_CLIENT_ID must encode exactly three bytes as base64")
reserved_from client_id _ settings =
    refused (lit "WARP_CLIENT_ID must encode exactly three bytes as base64")

-- `old` has the settings as they came.
unfoldable pub with_reserved : Network → Str → Fields → Fields → Guarded Fields
with_reserved net endpoint old settings =
    if endpoint == disabled_warp_endpoint
      || exists_key (lit "reserved") old
      || net.warp_client_id == []
    then accepted settings
    else reserved_from net.warp_client_id (net.decode_base64 net.warp_client_id) settings

abbrev pub with_sockopt : Option Fields → Option Fields → Fields → Fields
with_sockopt (some stream) (some sockopt) outbound =
    put (lit "streamSettings")
      (obj (
        put (lit "sockopt") (obj (put (lit "domainStrategy") (str (lit "ForceIPv4")) sockopt))
          stream))
      outbound
with_sockopt _ _ outbound = outbound

abbrev pub sockopt_of : Option Fields → Option Fields
sockopt_of (some stream) = as_obj (get (lit "sockopt") stream)
sockopt_of none = none

abbrev pub force_outbound : Fields → Fields → Json
force_outbound outbound settings = obj (
    with_sockopt (as_obj (get (lit "streamSettings") outbound))
      (sockopt_of (as_obj (get (lit "streamSettings") outbound)))
      (put (lit "targetStrategy") (str (lit "ForceIPv4"))
        (put (lit "settings") (obj settings) outbound)))

abbrev pub force_settings : Str → Fields → Fields → Fields
force_settings address peer settings =
    put (lit "peers")
      (arr (
        from_list
          (obj (put (lit "allowedIPs") (arr (from_list (str (lit "0.0.0.0/0") ∷ []))) peer) ∷ [])))
      (put (lit "domainStrategy") (str (lit "ForceIPv4"))
        (put (lit "address") (arr (from_list (str address ∷ []))) settings))

unfoldable pub valid_endpoint : Network → Str → Bool
valid_endpoint net endpoint =
    endpoint == disabled_warp_endpoint
    || valid_ipv4_endpoint net endpoint
    || valid_hostname_endpoint net endpoint

unfoldable pub guard_peer : Network → Fields → Fields → Option Fields → Guarded Json
guard_peer net outbound settings none = refused (lit "managed WARP requires exactly one peer")
guard_peer net outbound settings (some peer) =
    let endpoint = str_or_empty (get (lit "endpoint") peer) in
    let address = first_ipv4 net (addresses_of (get (lit "address") settings)) in
    if not (valid_endpoint net endpoint)
    then refused (lit "managed WARP requires an IPv4 or hostname peer endpoint")
    else if address == []
    then refused (lit "managed WARP requires an IPv4 tunnel address")
    else (with_reserved net endpoint settings (force_settings address peer settings) >>= λ forced.
        accepted (force_outbound outbound forced))

-- The outbound as it is to be, and whether it was changed.
abbrev pub guard_settings : Network → Fields → Json → Guarded (Json × Bool)
guard_settings net outbound (obj settings) =
    guard_peer net outbound settings (one_peer (get (lit "peers") settings)) >>= λ forced.
    accepted (forced, true)
guard_settings net outbound _ = accepted (obj outbound, false)

abbrev pub is_warp : Json → Bool
is_warp (obj outbound) = text_is (lit "WARP") (get (lit "tag") outbound)
is_warp _ = false

-- An outbound that is tagged as WARP, by whether one came before it.
unfoldable pub guard_outbound : Network → Bool → Json → Guarded (Json × Bool)
guard_outbound net seen (obj outbound) =
    if seen || not (text_is (lit "wireguard") (get (lit "protocol") outbound))
    then refused (lit "conflicting WARP outbound")
    else guard_settings net outbound (get (lit "settings") outbound)
guard_outbound net seen other = accepted (other, false)

abbrev pub consed : Json × Bool → Guarded (List Json × Bool) → Guarded (List Json × Bool)
consed (value, applied) (accepted (values, others)) = accepted (value ∷ values, applied || others)
consed (value, applied) (refused message) = refused message

unfoldable pub guard_from : Network → Bool → List Json → Guarded (List Json × Bool)
guard_from net seen [] = accepted ([], false)
guard_from net seen (value ∷ values) =
    let others = guard_from net seen values in
    let after_warp = guard_from net true values in
    if is_warp value
    then (guard_outbound net seen value >>= λ guarded. consed guarded after_warp)
    else consed (value, false) others

unfoldable pub guard_warp_outbounds : Network → List Json → Guarded (List Json × Bool)
guard_warp_outbounds net outbounds = guard_from net false outbounds
