-- ===== src/AuditLog/Lines/Cut.antt =====
-- A window on a text: the lines that end in it, and where the others begin.
use remnaplus_alpine_node.Prelude.{
  ℕ, zero, suc, ◌+◌, ◌≤◌, List, [], ◌++◌, Str, take, drop, length-take, take-append-drop, Option,
  some, none, ◌≡◌, refl, sym, ap, ◌∙◌, arith,
}
use mathlib.Core.List.{◌∷◌, append-nil}
use remnaplus_alpine_node.AuditLog.Lines.{newline, last_index_byte}
use remnaplus_alpine_node.AuditLog.Lines.Scan.{
  scan, unended, scan-append, scan_unbroken, unended_complete, unbroken_after,
  last_index_byte-bound, complete_length,
}

take-take : {A : Type 0} → (k m : ℕ) (s : List A) → k ≤ m → take k (take m s) ≡ take k s
take-take zero m s h = refl
take-take (suc k) zero s h = ground arith
take-take (suc k) (suc m) [] h = refl
take-take (suc k) (suc m) (x ∷ s) h = ap (◌∷◌ x) (take-take k m s (omega arith))

drop_nil : {A : Type 0} (n : ℕ) → drop {A = A} n [] ≡ []
drop_nil zero = refl
drop_nil (suc n) = refl

pub drop-drop : {A : Type 0} → (k m : ℕ) (s : List A) → drop k (drop m s) ≡ drop (m + k) s
drop-drop k zero s = let same : k ≡ 0 + k = omega arith in ap (λ n. drop n s) same
drop-drop k (suc m) [] = drop_nil k ∙ sym (drop_nil (suc m + k))
drop-drop k (suc m) (x ∷ s) =
    let shifted : suc (m + k) ≡ suc m + k = omega arith in
    drop-drop k m s ∙ ap (λ n. drop n (x ∷ s)) shifted

scan_at :
    (o : ℕ × Str) (position : ℕ) (s : Str)
    → o ≡ (position, [])
    → scan o.0 o.1 s ≡ scan position [] s
scan_at o position s h = rw h refl

-- A text cut behind a newline.
scan_behind :
    (start i : ℕ) (w s : Str)
    → last_index_byte newline w ≡ some i
    → take (suc i) w ≡ take (suc i) s
    → scan start [] s ≡ scan start [] (take (suc i) w) ++ scan (start + suc i) [] (drop (suc i) s)
scan_behind start i w s found same =
    ap (scan start []) (sym (take-append-drop (suc i) s) ∙ ap (λ t. t ++ drop (suc i) s) (sym same))
    ∙ scan-append start [] (take (suc i) w) (drop (suc i) s)
    ∙ ap (λ t. scan start [] (take (suc i) w) ++ t)
        (scan_at (unended start [] (take (suc i) w)) (start + suc i) (drop (suc i) s)
          (unended_complete start [] w i found ∙ ap (λ n. (n, [])) (omega arith)))

-- What follows the last newline adds no line.
scan_complete :
    (start i : ℕ) (w : Str)
    → last_index_byte newline w ≡ some i
    → scan start [] (take (suc i) w) ≡ scan start [] w
scan_complete start i w found = sym (
    scan_behind start i w w found refl
    ∙ ap (λ t. scan start [] (take (suc i) w) ++ t)
        (scan_unbroken (start + suc i) [] (drop (suc i) w) (unbroken_after w i found))
    ∙ append-nil (scan start [] (take (suc i) w)))

-- A window on a text has the lines of the text that end in it, and the others begin behind its last newline.
scan_cut_at :
    (start m : ℕ) (s : Str) (last : Option ℕ)
    → last_index_byte newline (take m s) ≡ last
    → scan start [] (take m s)
        ++ scan (start + complete_length last) [] (drop (complete_length last) s)
      ≡ scan start [] s
scan_cut_at start m s none h =
    rw (scan_unbroken start [] (take m s) h) (ap (λ n. scan n [] s) (omega arith))
scan_cut_at start m s (some i) h =
    let shorter : suc i ≤ m =
      omega (arith, last_index_byte-bound (take m s) i h, length-take m s) in
    ap (λ t. t ++ scan (start + suc i) [] (drop (suc i) s))
      (sym (scan_complete start i (take m s) h))
    ∙ sym (scan_behind start i (take m s) s h (take-take (suc i) m s shorter))

pub scan_cut :
    (start m : ℕ) (s : Str)
    → (let k = complete_length (last_index_byte newline (take m s)) in
        scan start [] (take m s) ++ scan (start + k) [] (drop k s) ≡ scan start [] s)
scan_cut start m s = scan_cut_at start m s (last_index_byte newline (take m s)) refl
