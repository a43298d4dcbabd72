-- ===== src/BodyLimit/Tests.antt =====
-- Reads of a body at concrete limits.
use remnaplus_alpine_node.Prelude.{
  ℕ, ◌-◌, ◌^◌, ◌≤◌, ◌≡◌, refl, lit, List, [], ◌∷◌, ◌++◌, true, false, length, arith,
}
use remnaplus_alpine_node.Prelude.Int.{pos, negsuc}
use remnaplus_alpine_node.BodyLimit.{
  Grant, decode, read, configure, compressed_cap, default_max_bytes, max_compressed_zstd_bytes,
}
use remnaplus_alpine_node.BodyLimit.Bound.{read_each, read_each-bound}

abbrev ready : Grant
ready = record { granted = 100; early_end = false; fails = false }

abbrev calls : List (ℕ × Grant)
calls = (3, ready) ∷ (3, ready) ∷ []

read_each-bound_example :
    (let (after, bytes, refused) =
        read_each calls (record { limit = 4; read = 0; content = lit "abcdef" }) in
      (length bytes ≤ 4)
      × (bytes ++ after.content ≡ lit "abcdef")
      × (refused ≡ true → length bytes ≡ 4))
read_each-bound_example = read_each-bound calls 4 (lit "abcdef") (omega arith)

-- A body of exactly the limit whose end comes with a Read of its own is refused.
at_the_limit : (read_each calls (record { limit = 3; read = 0; content = lit "abc" })).2 ≡ true
unfolding read_each read decode
at_the_limit = refl

default_limit : configure false (negsuc 0) ≡ pos default_max_bytes
unfolding configure
default_limit = refl

-- A limit of 2^43 mebibytes is stored as a negative one.
wrapped_limit : configure false (pos (2 ^ 43)) ≡ negsuc (2 ^ 63 - 1)
unfolding configure
wrapped_limit = refl

capped : compressed_cap default_max_bytes ≡ max_compressed_zstd_bytes
unfolding compressed_cap
capped = refl
