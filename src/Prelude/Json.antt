-- ===== src/Prelude/Json.antt =====
-- The values that `encoding/json` decodes into `any`, and Go's type assertions on them.
use mathlib.Core.Path.{◌≡◌, refl, ap}
use native.Mathlib.Omega.{arith}
use mathlib.Core.Bool.{Bool, false}
use mathlib.Core.Option.{Option, none, some}
use mathlib.Core.List.{List, [], ◌∷◌}
use remnaplus_alpine_node.Prelude.Tests.{if◌then◌else◌}
use remnaplus_alpine_node.Prelude.Equality.{Str, str_eq, str_beq_iff, ◌==◌}

-- A float64, as far as the node looks into it: whether it is negative, its magnitude truncated to
-- an integer, and whether that truncation dropped anything.
pub record Number : Type 0 where
  pub negative : Bool
  pub whole : Prim.Native.Nat.ℕ
  pub fractional : Bool

mutual
  pub data Json : Type 0 where
    null : Json
    bool : Bool → Json
    num : Number → Json
    str : Str → Json
    arr : Items → Json
    obj : Fields → Json

  pub data Items : Type 0 where
    nil : Items
    cons : Json → Items → Items

  pub data Fields : Type 0 where
    end : Fields
    field : Str → Json → Fields → Fields

-- `fields[key]`, where a missing key gives the `any` that is nil
unfoldable pub get : Str → Fields → Json
get key end = null
get key (field name value rest) = if name == key then value else get key rest

-- `_, ok := fields[key]`
unfoldable pub exists_key : Str → Fields → Bool
exists_key key end = Bool.false
exists_key key (field name value rest) = if name == key then Bool.true else exists_key key rest

-- `value.(map[string]any)`
abbrev pub as_obj : Json → Option Fields
as_obj (obj fields) = some fields
as_obj _ = none

-- `value.([]any)`
abbrev pub as_arr : Json → Option Items
as_arr (arr items) = some items
as_arr _ = none

-- `value.(string)`
abbrev pub as_str : Json → Option Str
as_str (str text) = some text
as_str _ = none

-- `text, _ := value.(string)`
abbrev pub str_or_empty : Json → Str
str_or_empty (str text) = text
str_or_empty _ = []

-- `value.(bool)`
abbrev pub as_bool : Json → Option Bool
as_bool (bool b) = some b
as_bool _ = none

abbrev pub bool_or_false : Json → Bool
bool_or_false (bool b) = b
bool_or_false _ = Bool.false

abbrev pub to_list : Items → List Json
to_list nil = []
to_list (cons value rest) = value ∷ to_list rest

abbrev pub from_list : List Json → Items
from_list [] = nil
from_list (value ∷ rest) = cons value (from_list rest)

-- `fields[key] = value`
unfoldable pub put : Str → Json → Fields → Fields
put key value end = field key value end
put key value (field name old rest) =
    let more = put key value rest in
    if name == key then field name value rest else field name old more

pub get-put_same :
    (key : Str) (value : Json) (fields : Fields) → get key (put key value fields) ≡ value
unfolding get put
get-put_same key value end = ground (arith, str_beq_iff key key)
get-put_same key value (field name old rest) =
    ground (arith, str_beq_iff name key, get-put_same key value rest)

pub get-put_other :
    (k key : Str) (value : Json) (fields : Fields)
    → (key == k) ≡ false
    → get k (put key value fields) ≡ get k fields
unfolding get put
get-put_other k key value end h = ground arith
get-put_other k key value (field name old rest) h = ground (
  arith,
  str_beq_iff name key,
  str_beq_iff key k,
  str_beq_iff name k,
  get-put_other k key value rest,
)

pub to_list-from_list : (values : List Json) → to_list (from_list values) ≡ values
to_list-from_list [] = refl
to_list-from_list (value ∷ values) = ap (◌∷◌ value) (to_list-from_list values)
