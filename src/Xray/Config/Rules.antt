-- ===== src/Xray/Config/Rules.antt =====
-- The rules of the panel in a generated configuration: which of them stay, and which get the webhook.
use mathlib.Core.List.{map}
use remnaplus_alpine_node.Prelude.{
  Bool, true, false, List, [], ◌∷◌, if◌then◌else◌, Str, str_eq, str_beq, ◌==◌, str_beq_iff, lit,
  inl, inr, Bool-cases, ◌≡◌, refl, ap,
}
use remnaplus_alpine_node.Prelude.Map.{has}
use remnaplus_alpine_node.Prelude.Json.{
  Json, null, bool, num, str, arr, obj, Fields, get, put, get-put_same, get-put_other, str_or_empty,
}
use remnaplus_alpine_node.Xray.Config.Warp.{text_is}
use remnaplus_alpine_node.Xray.Config.{is_api_rule, without_api_rules, hook, hooks}

-- The outbound of a rule is that of the API.
pub ForApi : Json → Type 0
ForApi (obj rule) = get (lit "outboundTag") rule ≡ str (lit "REMNAWAVE_API")
ForApi other = true ≡ false

-- The second list is the first less the rules for the API, in the same order.
pub data LessApi : List Json → List Json → Type 0 where
  done : LessApi [] []
  drop :
      (rule : Json) (rules rest : List Json)
      → ForApi rule
      → LessApi rules rest
      → LessApi (rule ∷ rules) rest
  keep :
      (rule : Json) (rules rest : List Json)
      → ¬ ForApi rule
      → LessApi rules rest
      → LessApi (rule ∷ rules) (rule ∷ rest)

-- The second rule is the first, where its tag is not listed, and else the first with this webhook.
pub Hooked : List Str → Json → Json → Json → Type 0
Hooked tags target (obj old) (obj new) =
    (has (str_or_empty (get (lit "ruleTag") old)) tags ≡ false → new ≡ old)
    × (has (str_or_empty (get (lit "ruleTag") old)) tags ≡ true
        → (get (lit "webhook") new ≡ target)
          × ((key : Str) → (lit "webhook" == key) ≡ false → get key new ≡ get key old))
Hooked tags target old new = new ≡ old

-- Rule by rule.
pub AllHooked : List Str → Json → List Json → List Json → Type 0
AllHooked tags target [] [] = Unit {0}
AllHooked tags target (old ∷ olds) (new ∷ news) =
    Hooked tags target old new × AllHooked tags target olds news
AllHooked tags target olds news = true ≡ false

text_is-ForApi :
    (value : Json) → text_is (lit "REMNAWAVE_API") value ≡ true → value ≡ str (lit "REMNAWAVE_API")
text_is-ForApi (str s) h = ap str ((str_beq_iff s (lit "REMNAWAVE_API")).0 h)
text_is-ForApi null h = absurd cc
text_is-ForApi (bool b) h = absurd cc
text_is-ForApi (num n) h = absurd cc
text_is-ForApi (arr l) h = absurd cc
text_is-ForApi (obj o) h = absurd cc

is_api_rule-ForApi : (rule : Json) → is_api_rule rule ≡ true → ForApi rule
unfolding ForApi
is_api_rule-ForApi (obj rule) h = text_is-ForApi (get (lit "outboundTag") rule) h
is_api_rule-ForApi null h = absurd cc
is_api_rule-ForApi (bool b) h = absurd cc
is_api_rule-ForApi (num n) h = absurd cc
is_api_rule-ForApi (str s) h = absurd cc
is_api_rule-ForApi (arr l) h = absurd cc

is_api_rule-of_ForApi : (rule : Json) → ForApi rule → is_api_rule rule ≡ true
unfolding ForApi str_beq
is_api_rule-of_ForApi (obj rule) h = ap (text_is (lit "REMNAWAVE_API")) h
is_api_rule-of_ForApi null h = absurd cc
is_api_rule-of_ForApi (bool b) h = absurd cc
is_api_rule-of_ForApi (num n) h = absurd cc
is_api_rule-of_ForApi (str s) h = absurd cc
is_api_rule-of_ForApi (arr l) h = absurd cc

pub without_api_rules-LessApi : (rules : List Json) → LessApi rules (without_api_rules rules)
unfolding without_api_rules
without_api_rules-LessApi [] = done
without_api_rules-LessApi (rule ∷ rules) = elim (Bool-cases (is_api_rule rule)) [
  | inl own ↦ rw own (
      drop rule rules (without_api_rules rules) (is_api_rule-ForApi rule own)
        (without_api_rules-LessApi rules))
  | inr other ↦ rw other (
      keep rule rules (without_api_rules rules)
        (λ h. absurd_of (is_api_rule-of_ForApi rule h) other) (without_api_rules-LessApi rules))
]
  where
    absurd_of : {b : Bool} → b ≡ true → b ≡ false → ⊥
    absurd_of h k = cc

if-Hooked :
    (tags : List Str) (target : Json) (rule : Fields) (listed : Bool)
    → has (str_or_empty (get (lit "ruleTag") rule)) tags ≡ listed
    → Hooked tags target
        (obj rule)
        (if listed then obj (put (lit "webhook") target rule) else obj rule)
unfolding Hooked
if-Hooked tags target rule true h = (
  λ k. absurd cc,
  λ k. (
    get-put_same (lit "webhook") target rule,
    λ key other. get-put_other key (lit "webhook") target rule other,
  ),
)
if-Hooked tags target rule false h = (λ k. refl, λ k. absurd cc)

hook-Hooked :
    (tags : List Str) (target rule : Json) → Hooked tags target rule (hook tags target rule)
unfolding Hooked
hook-Hooked tags target (obj rule) = if-Hooked tags target rule _ refl
hook-Hooked tags target null = refl
hook-Hooked tags target (bool b) = refl
hook-Hooked tags target (num n) = refl
hook-Hooked tags target (str s) = refl
hook-Hooked tags target (arr l) = refl

map-AllHooked :
    (tags : List Str) (target : Json) (rules : List Json)
    → AllHooked tags target rules (map (hook tags target) rules)
unfolding AllHooked
map-AllHooked tags target [] = tt
map-AllHooked tags target (rule ∷ rules) =
    (hook-Hooked tags target rule, map-AllHooked tags target rules)

none-Hooked : (target rule : Json) → Hooked [] target rule rule
unfolding Hooked has
none-Hooked target (obj rule) = (λ k. refl, λ k. absurd cc)
none-Hooked target null = refl
none-Hooked target (bool b) = refl
none-Hooked target (num n) = refl
none-Hooked target (str s) = refl
none-Hooked target (arr l) = refl

pub none-AllHooked : (target : Json) (rules : List Json) → AllHooked [] target rules rules
unfolding AllHooked
none-AllHooked target [] = tt
none-AllHooked target (rule ∷ rules) = (none-Hooked target rule, none-AllHooked target rules)

pub hooks-AllHooked :
    (tags : List Str) (target : Json) (rules : List Json)
    → AllHooked tags target rules (hooks tags target rules)
hooks-AllHooked [] target rules = none-AllHooked target rules
hooks-AllHooked (tag ∷ tags) target rules = map-AllHooked (tag ∷ tags) target rules
