-- ===== src/Xray/Config/Guard.antt =====
-- The outbounds that pass the guard of internal/xray/warp_guard.go.
use remnaplus_alpine_node.Prelude.{Bool, true, false, ◌&&◌, List, [], ◌∷◌, str_eq, lit, ◌≡◌}
use remnaplus_alpine_node.Prelude.Json.{Json, obj, get}
use remnaplus_alpine_node.Xray.Config.Warp.{Network, Guarded, accepted, refused, is_warp}
use remnaplus_alpine_node.Xray.Config.Held.{all_held}

abbrev is_object : Json → Bool
is_object (obj fields) = true
is_object other = false

abbrev has_settings : Json → Bool
has_settings (obj outbound) = is_object (get (lit "settings") outbound)
has_settings other = false

-- An outbound that is tagged as WARP and whose settings are an object.
abbrev pub is_managed : Json → Bool
is_managed value = is_warp value && has_settings value

-- The same list, but for the managed outbounds.
abbrev pub SameOthers : List Json → List Json → Type 0
SameOthers [] [] = Unit {0}
SameOthers (old ∷ olds) (new ∷ news) = (is_managed old ≡ false → new ≡ old) × SameOthers olds news
SameOthers _ _ = true ≡ false

-- An outbound without such settings is left as it was.
abbrev Kept : Bool → Json → Guarded (Json × Bool) → Type 0
Kept settings old (accepted (new, applied)) = settings ≡ false → new ≡ old
Kept settings old (refused message) = Unit {0}

-- What a guarded list is to the one it comes from.
abbrev Passes : Network → List Json → Guarded (List Json × Bool) → Type 0
Passes net olds (accepted (news, applied)) = (all_held net news ≡ true) × SameOthers olds news
Passes net olds (refused message) = Unit {0}
