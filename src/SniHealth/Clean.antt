-- ===== src/SniHealth/Clean.antt =====
-- The checks that the verdict `usable` of a probe leaves possible.
use remnaplus_alpine_node.Prelude.{
  Bool, true, false, not, ◌&&◌, List, [], ◌∷◌, if◌then◌else◌, str_eq, ◌==◌, lit, ◌≡◌, refl, arith,
}
use remnaplus_alpine_node.SniHealth.{usable, pass, warning, fail, Check, Result}
use remnaplus_alpine_node.SniHealth.Checks.{
  pass_when, verdict_of, any_check, is_fail, is_unavailable, is_real_warning,
  is_independent_failure,
}

-- A check that does not stand against the verdict, and checks none of which does.
unfoldable pub fine : Check → Bool
fine c = not (is_fail c.status) && not (is_unavailable c.status) && not (is_real_warning c)

unfoldable pub clean : List Check → Bool
clean [] = true
clean (c ∷ checks) = fine c && clean checks

pub any-independent :
    (checks : List Check)
    → any_check (λ c. is_fail c.status) checks ≡ false
    → any_check is_independent_failure checks ≡ false
unfolding any_check
any-independent [] h = refl
any-independent (c ∷ checks) h = ground (arith, any-independent checks)

pub clean_of_none :
    (checks : List Check)
    → any_check (λ c. is_fail c.status) checks ≡ false
    → any_check (λ c. is_unavailable c.status) checks ≡ false
    → any_check is_real_warning checks ≡ false
    → clean checks ≡ true
unfolding any_check clean fine
clean_of_none [] f u w = refl
clean_of_none (c ∷ checks) f u w = ground (arith, clean_of_none checks)

pub usable-clean : (checks : List Check) → verdict_of checks ≡ usable → clean checks ≡ true
unfolding verdict_of
usable-clean checks h = ground (arith, any-independent checks, clean_of_none checks)

-- A check that passes where `b` holds and fails otherwise.
pub fine-pass : (b : Bool) (c : Check) → c.status ≡ pass_when b → fine c ≡ true → b ≡ true
unfolding fine pass_when
fine-pass b c e h = ground (arith, e)

pub fine-warning :
    (b : Bool) (c : Check)
    → c.status ≡ (if b then warning else pass)
    → (c.id == lit "alpn") ≡ false
    → fine c ≡ true
    → b ≡ false
unfolding fine
fine-warning b c e id h = ground (arith, e)

-- Thirteen checks, in the order in which a probe makes them after that on public addresses.
pub clean-each :
    (tcp capability handshake version alpn key trust validity san samples latency jitter
      coverage : Check)
    → clean (
        tcp ∷ capability ∷ handshake ∷ version ∷ alpn ∷ key ∷ trust ∷ validity ∷ san ∷ samples
        ∷ latency ∷ jitter ∷ coverage ∷ [])
      ≡ true
    → (fine version ≡ true)
      × (fine trust ≡ true)
      × (fine validity ≡ true)
      × (fine san ≡ true)
      × (fine samples ≡ true)
      × (fine coverage ≡ true)
unfolding clean
clean-each tcp capability handshake version alpn key trust validity san samples latency jitter
      coverage h =
    ground arith

pub fine-fail : (c : Check) → c.status ≡ fail → fine c ≡ true → ⊥
unfolding fine
fine-fail c e h = ground (arith, e)

pub clean-after :
    (first second third : Check) (later : List Check)
    → clean (first ∷ second ∷ third ∷ later) ≡ true
    → clean later ≡ true
unfolding clean
clean-after first second third later h = ground arith

pub failed-second :
    (first second : Check) → second.status ≡ fail → verdict_of (first ∷ second ∷ []) ≡ usable → ⊥
unfolding clean
failed-second first second e h =
    fine-fail second e (ground (arith, usable-clean (first ∷ second ∷ []) h))

pub failed-third :
    (first second third : Check)
    → third.status ≡ fail
    → verdict_of (first ∷ second ∷ third ∷ []) ≡ usable
    → ⊥
unfolding clean
failed-third first second third e h =
    fine-fail third e (ground (arith, usable-clean (first ∷ second ∷ third ∷ []) h))

pub unmatched :
    (c : Check) (b : Bool) → c.status ≡ pass_when b → b ≡ false → verdict_of (c ∷ []) ≡ usable → ⊥
unfolding clean pass_when
unmatched c b e off h = fine-fail c (ground (arith, e)) (ground (arith, usable-clean (c ∷ []) h))

-- A result that is usable is that of the one branch or of the other.
pub if_usable :
    {T : Type 0} (b : Bool) (x y : Result)
    → (if b then x else y).verdict ≡ usable
    → (b ≡ true → x.verdict ≡ usable → T)
    → (b ≡ false → y.verdict ≡ usable → T)
    → T
if_usable true x y h on_true on_false = on_true refl h
if_usable false x y h on_true on_false = on_false refl h
