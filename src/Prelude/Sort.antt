-- ===== src/Prelude/Sort.antt =====
-- `sort.Strings`: the order is that of the bytes.
use mathlib.Core.Path.{◌≡◌, refl}
use mathlib.Core.Bool.{Bool, true, false, ◌||◌}
use mathlib.Core.List.{List, [], ◌∷◌}
use native.Mathlib.Omega.{arith}
use remnaplus_alpine_node.Prelude.Tests.{ltb, if◌then◌else◌}
use remnaplus_alpine_node.Prelude.Equality.{Str, str_eq, ◌==◌}
use remnaplus_alpine_node.Prelude.Map.{has}

-- `a <= b` on strings
unfoldable pub str_le : Str → Str → Bool
str_le [] t = true
str_le (a ∷ s) [] = false
str_le (a ∷ s) (b ∷ t) =
    let rest = str_le s t in if ltb a b then true else if ltb b a then false else rest

insert_sorted : Str → List Str → List Str
insert_sorted s [] = s ∷ []
insert_sorted s (t ∷ ts) = if str_le s t then s ∷ t ∷ ts else t ∷ insert_sorted s ts

unfoldable pub sort_strings : List Str → List Str
unfolding insert_sorted str_le
sort_strings [] = []
sort_strings (s ∷ ss) = insert_sorted s (sort_strings ss)

has-insert_sorted : (k s : Str) (ts : List Str) → has k (insert_sorted s ts) ≡ (s == k || has k ts)
unfolding has insert_sorted
has-insert_sorted k s [] = refl
has-insert_sorted k s (t ∷ ts) = ground (arith, has-insert_sorted k s ts)

-- Sorting keeps the members.
pub has-sort_strings : (k : Str) (ss : List Str) → has k (sort_strings ss) ≡ has k ss
unfolding has sort_strings
has-sort_strings k [] = refl
has-sort_strings k (s ∷ ss) =
    ground (arith, has-insert_sorted k s (sort_strings ss), has-sort_strings k ss)
