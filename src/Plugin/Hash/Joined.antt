-- ===== src/Plugin/Hash/Joined.antt =====
-- What the text that a configuration is hashed by does not tell apart.
use remnaplus_alpine_node.Prelude.{
  ℕ, Bool, true, false, not, ◌&&◌, str_beq, List, [], ◌∷◌, ◌++◌, nat_beq_iff, Str, str_eq, lit, ◌≡◌,
  refl, ap, ◌∙◌, arith,
}
use remnaplus_alpine_node.Prelude.Text.{
  trim_space, trim_left, trim_right, trim_left_from, is_space, starts_space, space_width,
}
use remnaplus_alpine_node.Plugin.{
  Raw, raw_bool, raw_number, raw_string, raw_array, raw_object, RawItems, no_items, raw_item,
  no_members, raw_member,
}
use remnaplus_alpine_node.Plugin.Hash.{
  stringify_items, is_blank, collapse, trim_string, join, stringify_token,
}

-- A text without white space, and without the bytes that begin white space outside ASCII.
unfoldable pub solid : Str → Bool
solid [] = true
solid (c ∷ s) = not (is_space c) && not (starts_space c) && solid s

unfoldable pub all_solid : List Str → Bool
unfolding solid
all_solid [] = true
all_solid (s ∷ ss) = solid s && all_solid ss

blank-space : (c : ℕ) → is_space c ≡ false → is_blank c ≡ false
unfolding is_blank is_space
blank-space c h = ground (
  arith,
  nat_beq_iff c 9,
  nat_beq_iff c 10,
  nat_beq_iff c 12,
  nat_beq_iff c 13,
  nat_beq_iff c b' ',
)

collapse-solid : (b : Bool) (s : Str) → solid s ≡ true → collapse b s ≡ s
unfolding collapse solid
collapse-solid b [] h = refl
collapse-solid b (c ∷ s) h =
    ground (arith, blank-space c, collapse-solid (is_blank c) s, collapse-solid false s)

space_width-solid :
    (c : ℕ) (s : Str) → is_space c ≡ false → starts_space c ≡ false → space_width (c ∷ s) ≡ 0
unfolding space_width
space_width-solid c [] h k = ground arith
space_width-solid c (b ∷ []) h k = ground arith
space_width-solid c (b ∷ d ∷ s) h k = ground arith

trim_left-cons :
    (c : ℕ) (s : Str) → is_space c ≡ false → starts_space c ≡ false → trim_left (c ∷ s) ≡ c ∷ s
unfolding trim_left trim_left_from
trim_left-cons c s h k = rw (space_width-solid c s h k) refl

trim_left-solid : (s : Str) → solid s ≡ true → trim_left s ≡ s
unfolding solid trim_left trim_left_from
trim_left-solid [] h = refl
trim_left-solid (c ∷ s) h = trim_left-cons c s (ground (arith, h)) (ground (arith, h))

trim_right-cons :
    (c : ℕ) (s : Str)
    → is_space c ≡ false
    → starts_space c ≡ false
    → trim_right (c ∷ s) ≡ c ∷ trim_right s
unfolding trim_right str_beq
trim_right-cons c s h k = rw (trim_left-cons c s h k) refl

trim_right-solid : (s : Str) → solid s ≡ true → trim_right s ≡ s
unfolding solid trim_right
trim_right-solid [] h = refl
trim_right-solid (c ∷ s) h =
    trim_right-cons c s (ground (arith, h)) (ground (arith, h))
    ∙ ap (λ t. c ∷ t) (trim_right-solid s (ground (arith, h)))

trim_string-solid : (s : Str) → solid s ≡ true → trim_string s ≡ s
unfolding trim_string trim_space
trim_string-solid s h =
    ap (λ t. trim_left (trim_right t)) (collapse-solid false s h)
    ∙ ap trim_left (trim_right-solid s h)
    ∙ trim_left-solid s h

solid-append : (s t : Str) → solid (s ++ t) ≡ (solid s && solid t)
unfolding solid
solid-append [] t = refl
solid-append (c ∷ s) t = ground (arith, solid-append s t)

join-solid : (ss : List Str) → all_solid ss ≡ true → solid (join ss) ≡ true
unfolding join all_solid solid is_space
join-solid [] h = refl
join-solid (s ∷ []) h = ground arith
join-solid (s ∷ t ∷ ss) h =
    ground (arith, solid-append s (b',' ∷ join (t ∷ ss)), join-solid (t ∷ ss))

unfoldable pub strings : List Str → RawItems
strings [] = no_items
strings (s ∷ ss) = raw_item (raw_string s) (strings ss)

strings-joined : (ss : List Str) → all_solid ss ≡ true → stringify_items (strings ss) ≡ ss
unfolding strings all_solid stringify_token
strings-joined [] h = refl
strings-joined (s ∷ ss) h = ground (arith, trim_string-solid s, strings-joined ss)

-- A configuration with these tags for the torrent blocker.
unfoldable pub tags_config : Str → List Str → Raw
tags_config duration tags = raw_object (
    raw_member (lit "torrentBlocker")
      (raw_object (
        raw_member (lit "enabled") (raw_bool true) (
          raw_member (lit "blockDuration") (raw_number duration) (
            raw_member (lit "ignoreLists") (raw_object no_members)
              (raw_member (lit "includeRuleTags") (raw_array (strings tags)) no_members)))))
      no_members)

-- The text of a list of solid strings is that of the one string in which they are joined.
pub tags_config-joined :
    (duration : Str) (tags : List Str)
    → all_solid tags ≡ true
    → stringify_token (tags_config duration (join tags ∷ []))
      ≡ stringify_token (tags_config duration tags)
unfolding tags_config stringify_token strings join
tags_config-joined duration tags h =
    cc (strings-joined tags h, trim_string-solid (join tags) (join-solid tags h))
