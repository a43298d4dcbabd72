-- ===== src/Plugin/Source.antt =====
-- internal/plugin/torrent.go: the address in the source of a webhook,
-- `^(?:(?:tcp|udp):)?(?:\[(.+?)\]|(.+?))(?::(\d+))?$`.
pub mod Extract
use remnaplus_alpine_node.Prelude.{
  ℕ, Bool, true, false, not, ◌||◌, ◌&&◌, [], ◌∷◌, if◌then◌else◌, nat_beq, leb, Str, str_eq, ◌==◌,
  lit, Option, none, some, drop,
}
use remnaplus_alpine_node.Prelude.Text.{has_prefix}
use remnaplus_alpine_node.Plugin.{Library}

unfoldable pub digits : Str → Bool
digits [] = true
digits (c ∷ s) = leb b'0' c && leb c b'9' && digits s

-- `(?::(\d+))?$` on what is left of the text
unfoldable pub port_or_end : Str → Bool
unfolding digits
port_or_end [] = true
port_or_end (c ∷ s) = nat_beq c b':' && not (s == []) && digits s

-- `\]` before it
unfoldable pub bracket_port_or_end : Str → Bool
unfolding port_or_end
bracket_port_or_end [] = false
bracket_port_or_end (c ∷ s) = nat_beq c b']' && port_or_end s

unfoldable pub put_first : ℕ → Option Str → Option Str
put_first c none = none
put_first c (some s) = some (c ∷ s)

-- `.+?`: as few bytes as leave a text that the rest of the pattern matches, at least one and no
-- newline.
unfoldable pub lazy_match : (Str → Bool) → Str → Option Str
unfolding put_first
lazy_match matches [] = none
lazy_match matches (c ∷ s) =
    let longer = lazy_match matches s in
    if nat_beq c b'\n' then none else if matches s then some (c ∷ []) else put_first c longer

unfoldable pub bracketed : Str → Option Str
unfolding lazy_match bracket_port_or_end
bracketed [] = none
bracketed (c ∷ s) = if nat_beq c b'[' then lazy_match bracket_port_or_end s else none

unfoldable pub or_else : Option Str → Option Str → Option Str
or_else none other = other
or_else (some s) other = some s

-- The pattern without its scheme
unfoldable pub match_target : Str → Option Str
unfolding bracketed or_else lazy_match port_or_end
match_target s = or_else (bracketed s) (lazy_match port_or_end s)

unfoldable pub match_source : Str → Option Str
unfolding match_target
match_source source =
    if has_prefix source (lit "tcp:") || has_prefix source (lit "udp:")
    then or_else (match_target (drop 4 source)) (match_target source)
    else match_target source

abbrev pub candidate_or : Str → Option Str → Str
candidate_or source none = source
candidate_or source (some text) = text

-- extractWebhookIP; an address that cannot be read is the empty string.
unfoldable pub extract_webhook_ip : Library → Str → Str
unfolding match_source
extract_webhook_ip l source =
    let candidate = candidate_or source (match_source source) in
    if source == [] then [] else parsed (l.parse_ip candidate) candidate
  where
    parsed : Option Bool → Str → Str
    parsed none candidate = []
    parsed (some is_v4) candidate = candidate
