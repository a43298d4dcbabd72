-- ===== src/AuditLog/Lines/Fit.antt =====
-- Lines that are short enough for a window.
use remnaplus_alpine_node.Prelude.{
  ℕ, zero, suc, ◌+◌, ◌≤◌, [], ◌∷◌, ◌&&◌, Bool, true, Str, take, drop, some, none, ◌≡◌, refl, ◌≢◌,
  arith, inl, inr, Option-cases, Bool-cases, ltb, nat_beq, if◌then◌else◌,
}
use remnaplus_alpine_node.AuditLog.Lines.{newline, last_index_byte, later}

-- Whether every line that ends, of which `n` bytes came before, takes at most `m` bytes with its newline.
unfoldable pub lines_fit : ℕ → ℕ → Str → Bool
lines_fit m n [] = true
lines_fit m n (c ∷ s) =
    let ended = lines_fit m 0 s in
    let more = lines_fit m (suc n) s in if nat_beq c newline then ltb n m && ended else more

pub last_index_byte-take-none :
    (m : ℕ) (s : Str) → last_index_byte newline s ≡ none → last_index_byte newline (take m s) ≡ none
unfolding last_index_byte later
last_index_byte-take-none zero s h = refl
last_index_byte-take-none (suc m) [] h = refl
last_index_byte-take-none (suc m) (c ∷ s) h = elim (Option-cases (last_index_byte newline s)) [
  | inl none_later ↦ ground (arith, last_index_byte-take-none m s none_later)
  | inr (i, found) ↦ ground arith
]

-- A window that is long enough for every line has a newline if the text has one.
pub newline_within :
    (m n i d : ℕ) (s : Str)
    → lines_fit m n s ≡ true
    → last_index_byte newline s ≡ some i
    → m ≤ n + d
    → last_index_byte newline (take d s) ≢ none
unfolding lines_fit last_index_byte later
newline_within m n i d [] fit found wide missed = cc
newline_within m n i zero (c ∷ s) fit found wide missed =
    elim (Option-cases (last_index_byte newline s)) [
      | inl none_later ↦ ground arith
      | inr (j, found_later) ↦ elim (Bool-cases (nat_beq c newline)) [
        | inl here ↦ ground arith
        | inr other ↦
            newline_within m (suc n) j zero s (ground arith) found_later (omega arith) missed
      ]
    ]
newline_within m n i (suc d) (c ∷ s) fit found wide missed =
    elim (Option-cases (last_index_byte newline s)) [
      | inl none_later ↦ ground arith
      | inr (j, found_later) ↦ elim (Option-cases (last_index_byte newline (take d s))) [
        | inl none_taken ↦ elim (Bool-cases (nat_beq c newline)) [
          | inl here ↦ ground arith
          | inr other ↦
              newline_within m (suc n) j d s (ground arith) found_later (omega arith) none_taken
        ]
        | inr (k, taken) ↦ ground arith
      ]
    ]

-- Behind a newline the lines still fit.
pub lines_fit-drop :
    (m n d i : ℕ) (s : Str)
    → lines_fit m n s ≡ true
    → last_index_byte newline (take d s) ≡ some i
    → lines_fit m 0 (drop (suc i) s) ≡ true
unfolding lines_fit last_index_byte later
lines_fit-drop m n zero i s fit found = cc
lines_fit-drop m n (suc d) i [] fit found = cc
lines_fit-drop m n (suc d) i (c ∷ s) fit found =
    elim (Option-cases (last_index_byte newline (take d s))) [
      | inl none_later ↦ ground arith
      | inr (j, found_later) ↦
          ground (arith, lines_fit-drop m 0 d j s, lines_fit-drop m (suc n) d j s)
    ]
