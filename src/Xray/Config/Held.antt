-- ===== src/Xray/Config/Held.antt =====
-- An outbound that passes the guard of internal/xray/warp_guard.go.
use remnaplus_alpine_node.Prelude.{
  ℕ, Bool, true, false, not, ◌&&◌, ◌||◌, List, [], ◌∷◌, if◌then◌else◌, Str, str_eq, str_beq, ◌==◌,
  nat_beq, lit, length, Option, some, none, ◌≡◌, refl, ap, ◌∙◌,
}
use remnaplus_alpine_node.Prelude.Json.{
  Json, null, bool, num, str, arr, obj, Items, Fields, get, put, get-put_same, get-put_other,
  exists_key, as_obj, from_list, str_or_empty,
}
use remnaplus_alpine_node.Xray.Config.Warp.{
  Network, Guarded, accepted, refused, text_is, one_peer, whole, valid_endpoint,
  disabled_warp_endpoint, first_ipv4, addresses_of, reserved_from, with_reserved, with_sockopt,
  sockopt_of, force_outbound, force_settings, guard_peer, guard_settings, is_warp, ◌>>=◌,
}

abbrev only_ipv4 : Json → Bool
only_ipv4 (arr (Items.cons value Items.nil)) = text_is (lit "0.0.0.0/0") value
only_ipv4 _ = false

abbrev held_peer : Network → Option Fields → Bool
held_peer net none = false
held_peer net (some peer) =
    valid_endpoint net (str_or_empty (get (lit "endpoint") peer))
    && only_ipv4 (get (lit "allowedIPs") peer)

abbrev held_settings : Network → Fields → Bool
held_settings net settings =
    text_is (lit "ForceIPv4") (get (lit "domainStrategy") settings)
    && held_peer net (one_peer (get (lit "peers") settings))

abbrev held_outbound : Network → Json → Json → Bool
held_outbound net strategy (obj settings) =
    text_is (lit "ForceIPv4") strategy && held_settings net settings
held_outbound net strategy other = true

-- Whether an outbound is not that of WARP, has no settings, or is held to IPv4: by its strategies, and by
-- the routes and the endpoint of its one peer.
abbrev pub is_held : Network → Json → Bool
is_held net (obj outbound) =
    not (is_warp (obj outbound))
    || held_outbound net (get (lit "targetStrategy") outbound) (get (lit "settings") outbound)
is_held net other = true

abbrev settings_ok : Network → Guarded Fields → Bool
settings_ok net (accepted settings) = held_settings net settings
settings_ok net (refused message) = true

abbrev value_ok : Network → Guarded Json → Bool
value_ok net (accepted value) = is_held net value
value_ok net (refused message) = true

abbrev pub pair_ok : Network → Guarded (Json × Bool) → Bool
pair_ok net (accepted (value, applied)) = is_held net value
pair_ok net (refused message) = true

abbrev pub all_held : Network → List Json → Bool
all_held net [] = true
all_held net (value ∷ values) = is_held net value && all_held net values

abbrev list_ok : Network → Guarded (List Json × Bool) → Bool
list_ok net (accepted (values, applied)) = all_held net values
list_ok net (refused message) = true

pub both : (a b : Bool) → a ≡ true → b ≡ true → (a && b) ≡ true
both a b h k = rw h k

pub second_true : (a b : Bool) → b ≡ true → (a || b) ≡ true
second_true true b h = refl
second_true false b h = h

pub if_ok :
    {A : Type 0} (ok : A → Bool) (b : Bool) (x y : A)
    → (b ≡ true → ok x ≡ true)
    → (b ≡ false → ok y ≡ true)
    → ok (if b then x else y) ≡ true
if_ok ok true x y h k = h refl
if_ok ok false x y h k = k refl

force_settings-held :
    (net : Network) (address : Str) (peer settings : Fields)
    → valid_endpoint net (str_or_empty (get (lit "endpoint") peer)) ≡ true
    → held_settings net (force_settings address peer settings) ≡ true
unfolding str_beq
force_settings-held net address peer settings h =
    let ips = arr (from_list (str (lit "0.0.0.0/0") ∷ [])) in
    let peers = arr (from_list (obj (put (lit "allowedIPs") ips peer) ∷ [])) in
    let force = str (lit "ForceIPv4") in
    let first = put (lit "address") (arr (from_list (str address ∷ []))) settings in
    let second = put (lit "domainStrategy") force first in
    both _ _
      (ap (text_is (lit "ForceIPv4")) (
        get-put_other (lit "domainStrategy") (lit "peers") peers second refl
        ∙ get-put_same (lit "domainStrategy") force first))
      (ap (λ v. held_peer net (one_peer v)) (get-put_same (lit "peers") peers second)
        ∙ both _ _
            (ap (λ v. valid_endpoint net (str_or_empty v))
                (get-put_other (lit "endpoint") (lit "allowedIPs") ips peer refl)
              ∙ h)
            (ap only_ipv4 (get-put_same (lit "allowedIPs") ips peer)))

reserved-held :
    (net : Network) (value : Json) (settings : Fields)
    → held_settings net settings ≡ true
    → held_settings net (put (lit "reserved") value settings) ≡ true
unfolding str_beq
reserved-held net value settings h =
    rw (get-put_other (lit "domainStrategy") (lit "reserved") value settings refl)
      (rw (get-put_other (lit "peers") (lit "reserved") value settings refl) h)

reserved_from-ok :
    (net : Network) (client_id : Str) (bytes : Option (List ℕ)) (settings : Fields)
    → held_settings net settings ≡ true
    → settings_ok net (reserved_from client_id bytes settings) ≡ true
reserved_from-ok net client_id none settings h = refl
reserved_from-ok net client_id (some []) settings h = refl
reserved_from-ok net client_id (some (a ∷ [])) settings h = refl
reserved_from-ok net client_id (some (a ∷ b ∷ [])) settings h = refl
reserved_from-ok net client_id (some (a ∷ b ∷ c ∷ d ∷ l)) settings h = refl
reserved_from-ok net client_id (some (a ∷ b ∷ c ∷ [])) settings h =
    if_ok (settings_ok net) (nat_beq (length client_id) 4) _ _
      (λ k. reserved-held net (arr (from_list (whole a ∷ whole b ∷ whole c ∷ []))) settings h)
      (λ k. refl)

with_reserved-ok :
    (net : Network) (endpoint : Str) (old settings : Fields)
    → held_settings net settings ≡ true
    → settings_ok net (with_reserved net endpoint old settings) ≡ true
unfolding with_reserved
with_reserved-ok net endpoint old settings h =
    if_ok (settings_ok net)
      (endpoint == disabled_warp_endpoint
        || exists_key (lit "reserved") old
        || net.warp_client_id == [])
      _ _ (λ k. h)
      (λ k.
        reserved_from-ok net net.warp_client_id (net.decode_base64 net.warp_client_id) settings h)

get-with_sockopt :
    (key : Str) (stream sockopt : Option Fields) (outbound : Fields)
    → (lit "streamSettings" == key) ≡ false
    → get key (with_sockopt stream sockopt outbound) ≡ get key outbound
get-with_sockopt key none none outbound h = refl
get-with_sockopt key none (some o) outbound h = refl
get-with_sockopt key (some s) none outbound h = refl
get-with_sockopt key (some s) (some o) outbound h =
    get-put_other key (lit "streamSettings") _ outbound h

force_outbound-held :
    (net : Network) (outbound settings : Fields)
    → held_settings net settings ≡ true
    → is_held net (force_outbound outbound settings) ≡ true
unfolding str_beq
force_outbound-held net outbound settings h =
    let force = str (lit "ForceIPv4") in
    let stream = as_obj (get (lit "streamSettings") outbound) in
    let set = put (lit "settings") (obj settings) outbound in
    let forced = put (lit "targetStrategy") force set in
    let result = with_sockopt stream (sockopt_of stream) forced in
    let strategy : get (lit "targetStrategy") result ≡ force =
      get-with_sockopt (lit "targetStrategy") stream (sockopt_of stream) forced refl
      ∙ get-put_same (lit "targetStrategy") force set in
    let kept : get (lit "settings") result ≡ obj settings =
      get-with_sockopt (lit "settings") stream (sockopt_of stream) forced refl
      ∙ get-put_other (lit "settings") (lit "targetStrategy") force set refl
      ∙ get-put_same (lit "settings") (obj settings) outbound in
    second_true (not (is_warp (obj result))) _ (
      ap (λ v. held_outbound net v (get (lit "settings") result)) strategy
      ∙ ap (held_outbound net force) kept
      ∙ h)

forced-ok :
    (net : Network) (outbound : Fields) (forced : Guarded Fields)
    → settings_ok net forced ≡ true
    → value_ok net (forced >>= λ f. accepted (force_outbound outbound f)) ≡ true
forced-ok net outbound (accepted settings) h = force_outbound-held net outbound settings h
forced-ok net outbound (refused message) h = refl

guard_peer-ok :
    (net : Network) (outbound settings : Fields) (peer : Option Fields)
    → value_ok net (guard_peer net outbound settings peer) ≡ true
unfolding guard_peer
guard_peer-ok net outbound settings none = refl
guard_peer-ok net outbound settings (some peer) =
    let endpoint = str_or_empty (get (lit "endpoint") peer) in
    let address = first_ipv4 net (addresses_of (get (lit "address") settings)) in
    if_ok (value_ok net) (not (valid_endpoint net endpoint)) _ _ (λ k. refl)
      (λ valid.
        if_ok (value_ok net) (address == []) _ _ (λ k. refl)
          (λ k.
            forced-ok net outbound
              (with_reserved net endpoint settings (force_settings address peer settings))
              (with_reserved-ok net endpoint settings (force_settings address peer settings) (
                force_settings-held net address peer settings
                  (not_false (valid_endpoint net endpoint) valid)))))
  where
    not_false : (b : Bool) → not b ≡ false → b ≡ true
    not_false true h = refl
    not_false false h = cc

changed-ok :
    (net : Network) (value : Guarded Json)
    → value_ok net value ≡ true
    → pair_ok net (value >>= λ v. accepted (v, true)) ≡ true
changed-ok net (accepted value) h = h
changed-ok net (refused message) h = refl

pub guard_settings-ok :
    (net : Network) (outbound : Fields) (settings : Json)
    → get (lit "settings") outbound ≡ settings
    → pair_ok net (guard_settings net outbound settings) ≡ true
guard_settings-ok net outbound (obj settings) h =
    changed-ok net (guard_peer net outbound settings (one_peer (get (lit "peers") settings)))
      (guard_peer-ok net outbound settings (one_peer (get (lit "peers") settings)))
guard_settings-ok net outbound null h =
    second_true _ _ (ap (held_outbound net (get (lit "targetStrategy") outbound)) h)
guard_settings-ok net outbound (bool b) h =
    second_true _ _ (ap (held_outbound net (get (lit "targetStrategy") outbound)) h)
guard_settings-ok net outbound (num n) h =
    second_true _ _ (ap (held_outbound net (get (lit "targetStrategy") outbound)) h)
guard_settings-ok net outbound (str s) h =
    second_true _ _ (ap (held_outbound net (get (lit "targetStrategy") outbound)) h)
guard_settings-ok net outbound (arr l) h =
    second_true _ _ (ap (held_outbound net (get (lit "targetStrategy") outbound)) h)
