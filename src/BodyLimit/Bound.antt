-- ===== src/BodyLimit/Bound.antt =====
-- What any sequence of Reads gets of a body.
use remnaplus_alpine_node.Prelude.{
  ℕ, ◌+◌, ◌-◌, ◌≤◌, ◌<◌, Bool, true, false, ◌||◌, List, [], ◌∷◌, ◌++◌, if◌then◌else◌, ltb, leb, min,
  Str, length, length-append, length-take, take, drop, take-append-drop, ◌≡◌, refl, sym, ap, ◌∙◌,
  arith, inl, inr, Bool-cases,
}
use mathlib.Core.List.{append_assoc}
use remnaplus_alpine_node.BodyLimit.{
  Status, too_large, Grant, ZstdReader, status_of, checked, decode, read,
}

abbrev pub is_too_large : Status → Bool
is_too_large too_large = true
is_too_large _ = false

abbrev joined : Str → Bool → ZstdReader × Str × Bool → ZstdReader × Str × Bool
joined bytes refused (z, rest, later) = (z, bytes ++ rest, refused || later)

abbrev then_read :
    (ZstdReader → ZstdReader × Str × Bool) → ZstdReader × Str × Status → ZstdReader × Str × Bool
then_read next (z, bytes, status) = joined bytes (is_too_large status) (next z)

-- A sequence of Reads, each with the length of its buffer: the reader after them, all their bytes, and
-- whether one of them found the body too large.
unfoldable pub read_each : List (ℕ × Grant) → ZstdReader → ZstdReader × Str × Bool
read_each [] z = (z, [], false)
read_each ((size, grant) ∷ calls) z = then_read (read_each calls) (read size grant z)

-- What Reads under a limit may do: they give the body in its order, count it, stay within the limit, and
-- find it too large only where they have given as much as the limit.
record Counted (z after : ZstdReader) (bytes : Str) (refused : Bool) : Type 0 where
  same_limit : after.limit ≡ z.limit
  within : after.read ≤ z.limit
  counts : after.read ≡ z.read + length bytes
  in_order : bytes ++ after.content ≡ z.content
  full : refused ≡ true → after.read ≡ z.limit

abbrev Fine : ZstdReader → ZstdReader × Str × Status → Type 0
Fine z (after, bytes, status) = Counted z after bytes (is_too_large status)

status_of-fine :
    (grant : Grant) (before rest : Str) → is_too_large (status_of grant before rest) ≡ false
status_of-fine grant [] rest = refl
status_of-fine grant (b ∷ before) [] = ground arith
status_of-fine grant (b ∷ before) (c ∷ rest) = ground arith

checked-fine :
    (b : Bool) (status : Status)
    → b ≡ false
    → is_too_large status ≡ false
    → is_too_large (if b then too_large else status) ≡ false
checked-fine true status h k = cc
checked-fine false status h k = k

decode-Fine :
    (size : ℕ) (grant : Grant) (z : ZstdReader)
    → z.read + size ≤ z.limit
    → Fine z (checked (decode size grant z))
unfolding decode
decode-Fine size grant z room =
    let n = min size grant.granted in
    let bytes = take n z.content in
    let below : z.read + length bytes ≤ z.limit = omega (arith, length-take n z.content) in
    record {
      same_limit = refl;
      within = below;
      counts = refl;
      in_order = take-append-drop n z.content;
      full = λ h. absent (
          sym h
          ∙ checked-fine (ltb z.limit (z.read + length bytes))
              (status_of grant z.content (drop n z.content)) (not_over below)
              (status_of-fine grant z.content (drop n z.content)));
    }
  where
    absent : true ≡ false → z.read + length (take (min size grant.granted) z.content) ≡ z.limit
    absent h = cc

    not_over :
        z.read + length (take (min size grant.granted) z.content) ≤ z.limit
        → ltb z.limit (z.read + length (take (min size grant.granted) z.content)) ≡ false
    not_over h = ground arith

if_Fine :
    (z : ZstdReader) (b : Bool) (x y : ZstdReader × Str × Status)
    → (b ≡ true → Fine z x)
    → (b ≡ false → Fine z y)
    → Fine z (if b then x else y)
if_Fine z true x y h k = h refl
if_Fine z false x y h k = k refl

read-Fine :
    (size : ℕ) (grant : Grant) (z : ZstdReader)
    → 0 < z.limit
    → z.read ≤ z.limit
    → Fine z (read size grant z)
unfolding read
read-Fine size grant z positive below =
    if_Fine z (leb z.limit 0) (decode size grant z) _ (λ h. limited h)
      (λ h.
        if_Fine z (leb z.limit z.read) _ (checked (decode (min size (z.limit - z.read)) grant z))
          (λ full. record {
            same_limit = refl;
            within = below;
            counts = omega arith;
            in_order = refl;
            full = λ k. ground arith;
          })
          (λ room. decode-Fine (min size (z.limit - z.read)) grant z (ground arith)))
  where
    limited : leb z.limit 0 ≡ true → Fine z (decode size grant z)
    limited h = ground arith

Counted-then :
    (z a b : ZstdReader) (x y : Str) (r s : Bool)
    → Counted z a x r
    → Counted a b y s
    → Counted z b (x ++ y) (r || s)
Counted-then z a b x y r s first second = record {
  same_limit = second.same_limit ∙ first.same_limit;
  within = omega (arith, second.within, first.same_limit);
  counts = omega (arith, second.counts, first.counts, length-append x y);
  in_order = append_assoc x y b.content ∙ ap (λ l. x ++ l) second.in_order ∙ first.in_order;
  full = λ h. elim (Bool-cases s) [
    | inl later ↦ second.full later ∙ first.same_limit
    | inr earlier ↦
        omega
          (arith, first.full (left r s h earlier), second.within, second.counts, first.same_limit)
  ];
}
  where
    left : (a b : Bool) → (a || b) ≡ true → b ≡ false → a ≡ true
    left a b h k = ground arith

read_each-Counted :
    (calls : List (ℕ × Grant)) (z : ZstdReader)
    → 0 < z.limit
    → z.read ≤ z.limit
    → Counted z (read_each calls z).0 (read_each calls z).1 (read_each calls z).2
unfolding read_each
read_each-Counted [] z positive below = record {
  same_limit = refl;
  within = below;
  counts = omega arith;
  in_order = refl;
  full = λ h. cc;
}
read_each-Counted ((size, grant) ∷ calls) z positive below =
    let (after, bytes, status) = read size grant z in
    let first : Counted z after bytes (is_too_large status) =
      read-Fine size grant z positive below in
    let others =
      read_each-Counted calls after (omega (arith, first.same_limit))
        (omega (arith, first.within, first.same_limit)) in
    Counted-then z after (read_each calls after).0 bytes (read_each calls after).1
      (is_too_large status) (read_each calls after).2 first others

-- Whatever the lengths of the buffers, and however the decoder portions what it gives, any sequence of
-- Reads of a fresh reader with a limit gets the beginning of the decompressed body, in order and
-- without a gap, and never more than the limit; and the body is found too large only where as many bytes
-- as the limit were given, so that a shorter one never is.
pub read_each-bound :
    (calls : List (ℕ × Grant)) (limit : ℕ) (body : Str)
    → 0 < limit
    → (let (after, bytes, refused) =
          read_each calls (record { limit = limit; read = 0; content = body }) in
        (length bytes ≤ limit)
        × (bytes ++ after.content ≡ body)
        × (refused ≡ true → length bytes ≡ limit))
read_each-bound calls limit body positive =
    let z : ZstdReader = record { limit = limit; read = 0; content = body } in
    let c = read_each-Counted calls z positive (omega arith) in
    (omega (arith, c.within, c.counts), c.in_order, λ h. omega (arith, c.full h, c.counts))
