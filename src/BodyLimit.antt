-- ===== src/BodyLimit.antt =====
-- internal/bodylimit/middleware.go: the bound on request bodies.
pub mod Bound
mod Tests
use remnaplus_alpine_node.Prelude.{
  ℕ, suc, ◌+◌, ◌-◌, ◌*◌, ◌%◌, ◌^◌, Bool, true, false, List, [], ◌∷◌, ◌++◌, if◌then◌else◌, ltb, leb,
  min, Str, length, take, drop, Option, none, some,
}
use remnaplus_alpine_node.Prelude.Int.{ℤ, pos, negsuc}

abbrev pub mebibyte : ℕ
mebibyte = 1048576

abbrev pub default_max_bytes : ℕ
default_max_bytes = 256 * mebibyte

abbrev pub low_memory_max_bytes : ℕ
low_memory_max_bytes = 64 * mebibyte

abbrev pub max_compressed_zstd_bytes : ℕ
max_compressed_zstd_bytes = 64 * mebibyte

-- A word of 64 bits in two's complement.
abbrev signed : ℕ → ℤ
signed word = if ltb word (2 ^ 63) then pos word else negsuc (2 ^ 64 - 1 - word)

-- The limit that Configure stores; `int64(bodyLimitMB) << 20` drops the bits that do not fit.
unfoldable pub configure : Bool → ℤ → ℤ
configure low_memory (pos (suc mb)) = signed ((suc mb * mebibyte) % 2 ^ 64)
configure low_memory _ = pos (if low_memory then low_memory_max_bytes else default_max_bytes)

-- The bound on the compressed body.
unfoldable pub compressed_cap : ℕ → ℕ
compressed_cap limit =
    if ltb max_compressed_zstd_bytes limit then max_compressed_zstd_bytes else limit

-- What a Read reports beside its bytes: nothing, the end of the body, another error, or that it is too large.
pub data Status : Type 0 where
  more ended failed too_large : Status

-- What the decoder does at a call: it has at most `granted` bytes, and may report the end with the last of
-- them or an error.
pub record Grant : Type 0 where
  pub granted : ℕ
  pub early_end : Bool
  pub fails : Bool

pub record ZstdReader : Type 0 where
  pub limit : ℕ
  pub read : ℕ
  -- what the decoder has still to give
  pub content : Str

abbrev pub status_of : Grant → Str → Str → Status
status_of grant [] rest = ended
status_of grant (b ∷ before) [] =
    if grant.fails then failed else if grant.early_end then ended else more
status_of grant (b ∷ before) (c ∷ rest) = if grant.fails then failed else more

-- `decoder.Read(p)` for a `p` of the given length, and the sum of what was read.
unfoldable pub decode : ℕ → Grant → ZstdReader → ZstdReader × Str × Status
decode size grant z =
    let n = min size grant.granted in
    let bytes = take n z.content in
    let rest = drop n z.content in
    (
      record z { read = z.read + length bytes; content = rest },
      bytes,
      status_of grant z.content rest,
    )

-- The last test of Read, after the decoder.
abbrev pub checked : ZstdReader × Str × Status → ZstdReader × Str × Status
checked (z, bytes, status) = (z, bytes, if ltb z.limit z.read then too_large else status)

-- A limit of 0 is none.
unfoldable pub read : ℕ → Grant → ZstdReader → ZstdReader × Str × Status
read size grant z =
    if leb z.limit 0
    then decode size grant z
    else if leb z.limit z.read
    then (z, [], too_large)
    else checked (decode (min size (z.limit - z.read)) grant z)
