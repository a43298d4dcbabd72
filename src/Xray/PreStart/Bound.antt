-- ===== src/Xray/PreStart/Bound.antt =====
-- How many sockets a start may remove.
use remnaplus_alpine_node.Prelude.{
  Bool, true, false, ◌≤◌, List, [], ◌∷◌, if◌then◌else◌, nat_beq, Str, str_eq, length, ◌≡◌, refl,
  arith,
}
use remnaplus_alpine_node.Prelude.Map.{has, Distinct}
use remnaplus_alpine_node.Xray.PreStart.{
  Sockets, max_pre_start_matches, matches_of, add_matches, unless_full, resolve_from,
}

abbrev Bounded : List Str → Type 0
Bounded paths = (length paths ≤ max_pre_start_matches) × Distinct paths

if_Bounded :
    (b : Bool) (x y : List Str × Bool)
    → (b ≡ true → Bounded x.0)
    → (b ≡ false → Bounded y.0)
    → Bounded (if b then x else y).0
if_Bounded true x y h k = h refl
if_Bounded false x y h k = k refl

add_matches-Bounded :
    (paths result : List Str) → Bounded result → Bounded (add_matches paths result).0
unfolding add_matches
add_matches-Bounded [] result h = h
add_matches-Bounded (path ∷ paths) result h =
    if_Bounded (has path result) _ _ (λ same. add_matches-Bounded paths result h)
      (λ other.
        if_Bounded (nat_beq (length result) max_pre_start_matches) _ _ (λ full. h)
          (λ room. add_matches-Bounded paths (path ∷ result) (ground arith, (other, h.1))))

unless_full-Bounded :
    (next : List Str → List Str) (step : List Str × Bool)
    → Bounded step.0
    → ((result : List Str) → Bounded result → Bounded (next result))
    → Bounded (unless_full next step)
unless_full-Bounded next (result, true) h k = h
unless_full-Bounded next (result, false) h k = k result h

-- However many patterns there are and whatever they match, at most 256 paths are collected, and no path
-- twice, if that holds of those collected before.
resolve_from-Bounded :
    (sockets : Sockets) (patterns result : List Str)
    → (length result ≤ max_pre_start_matches) × Distinct result
    → (length (resolve_from sockets patterns result) ≤ max_pre_start_matches)
      × Distinct (resolve_from sockets patterns result)
unfolding resolve_from
resolve_from-Bounded sockets [] result h = h
resolve_from-Bounded sockets (pattern ∷ patterns) result h =
    unless_full-Bounded (resolve_from sockets patterns)
      (add_matches (matches_of sockets pattern) result)
      (add_matches-Bounded (matches_of sockets pattern) result h)
      (λ r k. resolve_from-Bounded sockets patterns r k)
