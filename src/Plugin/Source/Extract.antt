-- ===== src/Plugin/Source/Extract.antt =====
-- The address in a source as the core writes it: a scheme, the address, in brackets if it has a
-- colon, and a port.
use remnaplus_alpine_node.Prelude.{
  inr, inl, Bool-cases, ℕ, Bool, true, false, not, ◌||◌, ◌&&◌, List, [], ◌∷◌, ◌++◌, if◌then◌else◌,
  nat_beq, leb, Str, str_eq, nat_eq, ◌==◌, lit, Option, none, some, drop, ◌≡◌, refl, ap, ◌∙◌, arith,
  nat_beq_iff, str_beq_iff,
}
use remnaplus_alpine_node.Prelude.Map.{has, is_some}
use remnaplus_alpine_node.Prelude.Text.{has_prefix}
use remnaplus_alpine_node.Plugin.{Library}
use remnaplus_alpine_node.Plugin.Source.{
  digits, port_or_end, bracket_port_or_end, put_first, lazy_match, bracketed, or_else, match_target,
  match_source, extract_webhook_ip,
}

pub data Scheme : Type 0 where
  tcp : Scheme
  udp : Scheme

unfoldable scheme_text : Scheme → Str
scheme_text tcp = lit "tcp:"
scheme_text udp = lit "udp:"

-- `net.JoinHostPort(ip, port)` without zones
unfoldable join_host_port : Str → Str → Str
join_host_port ip port = if has b':' ip then b'[' ∷ ip ++ b']' ∷ b':' ∷ port else ip ++ b':' ∷ port

unfoldable pub source_text : Scheme → Str → Str → Str
unfolding scheme_text join_host_port
source_text scheme ip port = scheme_text scheme ++ join_host_port ip port

-- A text is matched as a whole where what follows it matches, and nothing that begins inside it.
lazy_match-text :
    (matches : Str → Bool) (c : ℕ) (text tail : Str)
    → matches tail ≡ true
    → ((d : ℕ) (s : Str) → has d text ≡ true → matches (d ∷ s) ≡ false)
    → has b'\n' (c ∷ text) ≡ false
    → lazy_match matches (c ∷ text ++ tail) ≡ some (c ∷ text)
unfolding lazy_match has put_first
lazy_match-text matches c [] tail ends inside line = ground (arith, nat_beq_iff c b'\n')
lazy_match-text matches c (d ∷ text) tail ends inside line = ground (
  arith,
  nat_beq_iff c b'\n',
  nat_beq_iff d d,
  inside d (text ++ tail),
  lazy_match-text matches d text tail ends (λ e s h. inside e s (ground arith)),
)

port-tail :
    (port : Str) → (port == []) ≡ false → digits port ≡ true → port_or_end (b':' ∷ port) ≡ true
unfolding port_or_end
port-tail port full d = ground arith

port-inside :
    (text : Str)
    → has b':' text ≡ false
    → (d : ℕ) (s : Str) → has d text ≡ true
    → port_or_end (d ∷ s) ≡ false
unfolding port_or_end has
port-inside [] none_in d s h = absurd cc
port-inside (c ∷ text) none_in d s h =
    ground (arith, nat_beq_iff c d, nat_beq_iff c b':', nat_beq_iff d b':', port-inside text)

bracket-inside :
    (text : Str)
    → has b']' text ≡ false
    → (d : ℕ) (s : Str) → has d text ≡ true
    → bracket_port_or_end (d ∷ s) ≡ false
unfolding bracket_port_or_end has
bracket-inside [] none_in d s h = absurd cc
bracket-inside (c ∷ text) none_in d s h =
    ground (arith, nat_beq_iff c d, nat_beq_iff c b']', nat_beq_iff d b']', bracket-inside text)

plain-matched :
    (c : ℕ) (text port : Str)
    → has b':' (c ∷ text) ≡ false
    → has b'[' (c ∷ text) ≡ false
    → has b'\n' (c ∷ text) ≡ false
    → (port == []) ≡ false
    → digits port ≡ true
    → match_target (c ∷ text ++ b':' ∷ port) ≡ some (c ∷ text)
unfolding match_target bracketed or_else has
plain-matched c text port colon bracket line full d = ground (
  arith,
  nat_beq_iff c b'[',
  lazy_match-text port_or_end c text (b':' ∷ port) (port-tail port full d)
      (port-inside text (ground arith)) line,
)

bracket-matched :
    (c : ℕ) (text port : Str)
    → has b']' (c ∷ text) ≡ false
    → has b'\n' (c ∷ text) ≡ false
    → (port == []) ≡ false
    → digits port ≡ true
    → match_target (b'[' ∷ c ∷ text ++ b']' ∷ b':' ∷ port) ≡ some (c ∷ text)
unfolding match_target bracketed or_else has bracket_port_or_end
bracket-matched c text port bracket line full d = ground (
  arith,
  lazy_match-text bracket_port_or_end c text (b']' ∷ b':' ∷ port) (port-tail port full d)
      (bracket-inside text (ground arith)) line,
)

target-matched :
    (c : ℕ) (text port : Str)
    → has b'[' (c ∷ text) ≡ false
    → has b']' (c ∷ text) ≡ false
    → has b'\n' (c ∷ text) ≡ false
    → (port == []) ≡ false
    → digits port ≡ true
    → match_target (join_host_port (c ∷ text) port) ≡ some (c ∷ text)
unfolding join_host_port
target-matched c text port opening closing line full d = elim (Bool-cases (has b':' (c ∷ text))) [
  | inl h ↦ rw h (bracket-matched c text port closing line full d)
  | inr h ↦ rw h (plain-matched c text port h opening line full d)
]

source-matched :
    (scheme : Scheme) (target ip : Str)
    → match_target target ≡ some ip
    → match_source (scheme_text scheme ++ target) ≡ some ip
unfolding match_source scheme_text has_prefix or_else
source-matched tcp target ip h = ground (arith, h)
source-matched udp target ip h = ground (arith, h)

matched-extracted :
    (l : Library) (source ip : Str)
    → (source == []) ≡ false
    → match_source source ≡ some ip
    → is_some (l.parse_ip ip) ≡ true
    → extract_webhook_ip l source ≡ ip
unfolding extract_webhook_ip
matched-extracted l source ip full matched parsed = ground (arith, full, matched, parsed)

scheme-full : (scheme : Scheme) (target : Str) → (scheme_text scheme ++ target == []) ≡ false
unfolding scheme_text remnaplus_alpine_node.Prelude.str_beq
scheme-full tcp target = refl
scheme-full udp target = refl

-- The address is found again in the source `<scheme>:<address>:<port>`, with brackets around an
-- address that has a colon, where `net.ParseIP` takes the address and neither a bracket nor a newline
-- is in it.
pub extract_webhook_ip-source_text :
    (l : Library) (scheme : Scheme) (c : ℕ) (text port : Str)
    → (is_some (l.parse_ip (c ∷ text))) ≡ true
    → has b'[' (c ∷ text) ≡ false
    → has b']' (c ∷ text) ≡ false
    → has b'\n' (c ∷ text) ≡ false
    → (port == []) ≡ false
    → digits port ≡ true
    → extract_webhook_ip l (source_text scheme (c ∷ text) port) ≡ c ∷ text
unfolding source_text
extract_webhook_ip-source_text l scheme c text port parsed opening closing line full d =
    let target = join_host_port (c ∷ text) port in
    matched-extracted l (source_text scheme (c ∷ text) port) (c ∷ text) (scheme-full scheme target)
      (source-matched scheme target (c ∷ text)
        (target-matched c text port opening closing line full d))
      parsed
