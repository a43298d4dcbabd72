-- ===== src/Prelude/Map.antt =====
-- Go's maps and sets. A map is the list of its entries in the order in which a `range` loop visits
-- them; a set is a list of keys.
use mathlib.Core.Path.{◌≡◌, refl}
use mathlib.Core.Bool.{Bool, true, false, ◌||◌, ◌&&◌, not}
use mathlib.Core.Option.{Option, none, some}
use mathlib.Core.List.{List, [], ◌∷◌, map}
use native.Mathlib.Omega.{arith}
use remnaplus_alpine_node.Prelude.Tests.{if◌then◌else◌}
use remnaplus_alpine_node.Prelude.Equality.{Eq, ◌==◌}
use remnaplus_alpine_node.Prelude.Lists.{length}
use Prim.Native.Nat.{◌+◌, ◌≤◌}

abbrev pub is_some {ℓ} : {V : Type ℓ} → Option V → Bool
is_some none = false
is_some (some v) = true

module _ {ℓ} {K : Type ℓ} ⦃e : Eq K⦄ where
  -- `_, ok := set[k]`
  unfoldable pub has : K → List K → Bool
  has k [] = false
  has k (j ∷ s) = j == k || has k s

  -- `set[k] = struct{}{}`
  unfoldable pub add : K → List K → List K
  add k [] = k ∷ []
  add k (j ∷ s) = if j == k then j ∷ s else j ∷ add k s

  -- `delete(set, k)`
  unfoldable pub discard : K → List K → List K
  discard k [] = []
  discard k (j ∷ s) = let rest = discard k s in if j == k then rest else j ∷ rest

  abbrev pub Distinct : List K → Type 0
  Distinct [] = Unit
  Distinct (k ∷ s) = (has k s ≡ false) × Distinct s

module _ {ℓ κ} {K : Type ℓ} {V : Type κ} ⦃e : Eq K⦄ where
  abbrev pub keys : List (K × V) → List K
  keys = map (λ p. p.0)

  -- `v, ok := m[k]`
  unfoldable pub lookup : K → List (K × V) → Option V
  lookup key [] = none
  lookup key ((other, value) ∷ rest) =
      let found = lookup key rest in if other == key then some value else found

  -- `m[k] = v`
  unfoldable pub insert : K → V → List (K × V) → List (K × V)
  insert key value [] = (key, value) ∷ []
  insert key value ((other, old) ∷ rest) =
      let changed = insert key value rest in
      if other == key then (other, value) ∷ rest else (other, old) ∷ changed

  -- `delete(m, k)`
  unfoldable pub remove : K → List (K × V) → List (K × V)
  remove k [] = []
  remove k ((j, v) ∷ m) = let rest = remove k m in if j == k then rest else (j, v) ∷ rest

module _ {ℓ} {K : Type ℓ} ⦃e : Eq K⦄ where
  pub beq_self : (k : K) → (k == k) ≡ true
  beq_self k = (e.beq_iff k k).1 refl

  pub has-add : (j k : K) (s : List K) → has j (add k s) ≡ (k == j || has j s)
  unfolding has add
  has-add j k [] = refl
  has-add j k (i ∷ s) = ground (arith, e.beq_iff i k, e.beq_iff i j, e.beq_iff k j, has-add j k s)

  pub has-discard : (j k : K) (s : List K) → has j (discard k s) ≡ (not (k == j) && has j s)
  unfolding has discard
  has-discard j k [] = ground arith
  has-discard j k (i ∷ s) =
      ground (arith, e.beq_iff i k, e.beq_iff i j, e.beq_iff k j, has-discard j k s)

  pub add_of_has : (k : K) (s : List K) → has k s ≡ true → add k s ≡ s
  unfolding has add
  add_of_has k [] h = cc
  add_of_has k (i ∷ s) h = ground (arith, add_of_has k s)

  pub discard_of_not_has : (k : K) (s : List K) → has k s ≡ false → discard k s ≡ s
  unfolding has discard
  discard_of_not_has k [] h = refl
  discard_of_not_has k (i ∷ s) h = ground (arith, discard_of_not_has k s)

  -- A new key goes to the end, where `delete` takes it away again.
  pub discard-add : (k : K) (s : List K) → has k s ≡ false → discard k (add k s) ≡ s
  unfolding has add discard
  discard-add k [] h = ground (arith, beq_self k)
  discard-add k (i ∷ s) h = ground (arith, discard-add k s)

  pub discard-Distinct : (k : K) (s : List K) → Distinct s → Distinct (discard k s)
  unfolding discard
  discard-Distinct k [] d = tt
  discard-Distinct k (i ∷ s) d = ground (arith, has-discard i k s, discard-Distinct k s d.1)

  pub length-discard :
      (k : K) (s : List K) → Distinct s → has k s ≡ true → length (discard k s) + 1 ≡ length s
  unfolding discard has
  length-discard k [] d h = cc
  length-discard k (i ∷ s) d h =
      ground (arith, e.beq_iff i k, discard_of_not_has k s, length-discard k s d.1)

  -- The pigeonhole principle: distinct keys that all lie in a set of no more keys exhaust it.
  pub has_of_subset :
      (s t : List K)
      → Distinct s
      → Distinct t
      → ((k : K) → has k s ≡ true → has k t ≡ true)
      → length t ≤ length s
      → (k : K) → has k t ≡ true
      → has k s ≡ true
  unfolding has
  has_of_subset [] [] ds dt sub le k h = h
  has_of_subset [] (j ∷ t) ds dt sub le k h = absurd (omega arith)
  has_of_subset (i ∷ s) t ds dt sub le k h =
      let here : has i t ≡ true = sub i (ground (arith, beq_self i)) in
      ground (
        arith,
        has-discard k i t,
        has_of_subset s (discard i t) ds.1 (discard-Distinct i t dt)
            (λ j p. ground (arith, sub j, has-discard j i t, e.beq_iff i j))
            (omega (arith, length-discard i t dt here)) k,
      )

  pub add-Distinct : (k : K) (s : List K) → Distinct s → Distinct (add k s)
  unfolding add has
  add-Distinct k [] d = (refl, tt)
  add-Distinct k (i ∷ s) d =
      ground (arith, e.beq_iff i k, e.beq_iff k i, has-add i k s, add-Distinct k s d.1)

module _ {ℓ κ} {K : Type ℓ} {V : Type κ} ⦃e : Eq K⦄ where
  pub lookup-insert :
      (i k : K) (w : V) (m : List (K × V))
      → lookup i (insert k w m) ≡ (if k == i then some w else lookup i m)
  unfolding lookup insert
  lookup-insert j k v [] = refl
  lookup-insert j k v ((i, w) ∷ m) =
      ground (arith, e.beq_iff i k, e.beq_iff i j, e.beq_iff k j, lookup-insert j k v m)

  pub lookup-remove :
      (j k : K) (m : List (K × V)) → lookup j (remove k m) ≡ (if k == j then none else lookup j m)
  unfolding lookup remove
  lookup-remove j k [] = ground arith
  lookup-remove j k ((i, w) ∷ m) =
      ground (arith, e.beq_iff i k, e.beq_iff i j, e.beq_iff k j, lookup-remove j k m)

  -- A key is present exactly when it has a value.
  pub has-keys : (k : K) (m : List (K × V)) → has k (keys m) ≡ is_some (lookup k m)
  unfolding has lookup
  has-keys k [] = refl
  has-keys k ((i, w) ∷ m) = ground (arith, has-keys k m)

  pub has-keys-insert :
      (j k : K) (v : V) (m : List (K × V))
      → has j (keys (insert k v m)) ≡ (k == j || has j (keys m))
  has-keys-insert j k v m =
      ground (arith, has-keys j (insert k v m), has-keys j m, lookup-insert j k v m)

  pub has-keys-remove :
      (j k : K) (m : List (K × V)) → has j (keys (remove k m)) ≡ (not (k == j) && has j (keys m))
  has-keys-remove j k m = ground (arith, has-keys j (remove k m), has-keys j m, lookup-remove j k m)

  pub insert-Distinct :
      (k : K) (v : V) (m : List (K × V)) → Distinct (keys m) → Distinct (keys (insert k v m))
  unfolding insert has
  insert-Distinct k v [] d = (refl, tt)
  insert-Distinct k v ((i, w) ∷ m) d =
      ground
        (arith, e.beq_iff k i, e.beq_iff i k, has-keys-insert i k v m, insert-Distinct k v m d.1)

  pub remove-Distinct :
      (k : K) (m : List (K × V)) → Distinct (keys m) → Distinct (keys (remove k m))
  unfolding remove
  remove-Distinct k [] d = tt
  remove-Distinct k ((i, w) ∷ m) d = ground (arith, has-keys-remove i k m, remove-Distinct k m d.1)
