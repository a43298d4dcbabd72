-- ===== src/AuditLog/Retention/Safe.antt =====
-- What a clean may do to the directory, and the steps that do it.
use remnaplus_alpine_node.Prelude.{
  Bool, true, false, not, ◌&&◌, ◌||◌, List, [], ◌∷◌, Str, str_eq, str_beq_iff, ◌==◌, ◌≡◌, refl, sym,
  arith, inl, inr, Bool-cases,
}
use remnaplus_alpine_node.AuditLog.Retention.{
  Gap, JournalLine, whole, invalid, partial, Entry, Directory, Append, synced, unsynced, cut_short,
  refused, Rules, is_removable, lines_in, append_line, without, add_line, append_to, append_opened,
  remove_segment,
}

-- Whether there is a file of that name.
unfoldable pub listed : Str → List Entry → Bool
listed name [] = false
listed name (e ∷ entries) = e.name == name || listed name entries

-- Whether the journal has a readable gap for the segment.
unfoldable pub noted : Str → List JournalLine → Bool
noted name [] = false
noted name (whole gap ∷ lines) = gap.segment_id == name || noted name lines
noted name (_ ∷ lines) = noted name lines

-- Whether the journal ends with a newline, if it has anything.
unfoldable pub is_terminated : List JournalLine → Bool
is_terminated [] = true
is_terminated (partial ∷ []) = false
is_terminated (line ∷ lines) = is_terminated lines

noted-append_line :
    (name : Str) (line : JournalLine) (lines : List JournalLine)
    → noted name lines ≡ true
    → noted name (append_line line lines) ≡ true
unfolding noted append_line
noted-append_line name line [] h = cc
noted-append_line name (whole g) (partial ∷ []) h = cc
noted-append_line name invalid (partial ∷ []) h = cc
noted-append_line name partial (partial ∷ []) h = cc
noted-append_line name line (partial ∷ l ∷ lines) h =
    ground (arith, noted-append_line name line (l ∷ lines))
noted-append_line name line (invalid ∷ lines) h = ground (arith, noted-append_line name line lines)
noted-append_line name line (whole gap ∷ lines) h =
    ground (arith, noted-append_line name line lines)

noted-append_whole :
    (gap : Gap) (lines : List JournalLine)
    → is_terminated lines ≡ true
    → noted gap.segment_id (append_line (whole gap) lines) ≡ true
unfolding noted append_line is_terminated
noted-append_whole gap [] h = ground (arith, str_beq_iff gap.segment_id gap.segment_id)
noted-append_whole gap (partial ∷ []) h = cc
noted-append_whole gap (partial ∷ l ∷ lines) h = noted-append_whole gap (l ∷ lines) h
noted-append_whole gap (invalid ∷ lines) h = noted-append_whole gap lines h
noted-append_whole gap (whole g ∷ lines) h = ground (arith, noted-append_whole gap lines h)

is_terminated-cons :
    (x y : JournalLine) (lines : List JournalLine)
    → is_terminated (y ∷ lines) ≡ true
    → is_terminated (x ∷ y ∷ lines) ≡ true
unfolding is_terminated
is_terminated-cons (whole g) y lines h = h
is_terminated-cons invalid y lines h = h
is_terminated-cons partial y lines h = h

is_terminated-cons_append :
    (x : JournalLine) (gap : Gap) (lines : List JournalLine)
    → is_terminated (x ∷ append_line (whole gap) lines) ≡ true
unfolding append_line is_terminated
is_terminated-cons_append x gap [] = is_terminated-cons x (whole gap) [] refl
is_terminated-cons_append x gap (partial ∷ []) = is_terminated-cons x invalid [] refl
is_terminated-cons_append x gap (partial ∷ l ∷ lines) =
    is_terminated-cons x partial _ (is_terminated-cons_append partial gap (l ∷ lines))
is_terminated-cons_append x gap (invalid ∷ lines) =
    is_terminated-cons x invalid _ (is_terminated-cons_append invalid gap lines)
is_terminated-cons_append x gap (whole g ∷ lines) =
    is_terminated-cons x (whole g) _ (is_terminated-cons_append (whole g) gap lines)

is_terminated-append_whole :
    (gap : Gap) (lines : List JournalLine) → is_terminated (append_line (whole gap) lines) ≡ true
unfolding is_terminated
is_terminated-append_whole gap lines = is_terminated-cons_append invalid gap lines

abbrev pub any_removes : List Rules → Entry → Bool
any_removes [] e = false
any_removes (rules ∷ others) e = is_removable rules e || any_removes others e

abbrev pub covered_entry : (Str → Bool) → List Rules → Entry → Bool
covered_entry may_go rules e = not (any_removes rules e) || may_go e.name

-- Whether every entry that one of the rules removes has a name that may go.
unfoldable pub covered : (Str → Bool) → List Rules → List Entry → Bool
covered may_go rules [] = true
covered may_go rules (e ∷ entries) = covered_entry may_go rules e && covered may_go rules entries

pub or_true : (b : Bool) → (b || true) ≡ true
or_true true = refl
or_true false = refl

module _ (may_go : Str → Bool) (rules : List Rules) where
  -- What a clean may do to a directory.
  pub record Safe (d d' : Directory) : Type 0 where
    pub accounted :
        (name : Str)
        → listed name d.entries ≡ true
        → (listed name d'.entries || (noted name (lines_in d'.journal) && may_go name)) ≡ true
    pub noted_stays :
        (name : Str)
        → noted name (lines_in d.journal) ≡ true
        → noted name (lines_in d'.journal) ≡ true
    pub covered_stays :
        covered may_go rules d.entries ≡ true → covered may_go rules d'.entries ≡ true

  pub Safe-refl : (d : Directory) → Safe d d
  Safe-refl d = record {
    accounted = λ name h. ground arith;
    noted_stays = λ name h. h;
    covered_stays = λ h. h;
  }

  pub Safe-trans : (a b c : Directory) → Safe a b → Safe b c → Safe a c
  Safe-trans a b c ab bc = record {
    accounted = λ name h.
        both (listed name b.entries) (noted name (lines_in b.journal)) (may_go name)
          (listed name c.entries) (noted name (lines_in c.journal)) (ab.accounted name h)
          (bc.accounted name) (bc.noted_stays name);
    noted_stays = λ name h. bc.noted_stays name (ab.noted_stays name h);
    covered_stays = λ h. bc.covered_stays (ab.covered_stays h);
  }
    where
      both :
          (l n m l' n' : Bool)
          → (l || (n && m)) ≡ true
          → (l ≡ true → (l' || (n' && m)) ≡ true)
          → (n ≡ true → n' ≡ true)
          → (l' || (n' && m)) ≡ true
      both l n m l' n' h f g = ground arith

  add_line-Safe : (line : JournalLine) (d : Directory) → Safe d (add_line line d)
  add_line-Safe line d = record {
    accounted = λ name h. ground arith;
    noted_stays = λ name h. noted-append_line name line (lines_in d.journal) h;
    covered_stays = λ h. h;
  }

  pub append_to-Safe :
      (answer : Append) (gap : Gap) (d : Directory) → Safe d (append_to answer gap d).0
  unfolding append_to
  append_to-Safe synced gap d = add_line-Safe (whole gap) d
  append_to-Safe unsynced gap d = add_line-Safe (whole gap) d
  append_to-Safe cut_short gap d = add_line-Safe partial d
  append_to-Safe refused gap d = record {
    accounted = λ name h. ground arith;
    noted_stays = λ name h. h;
    covered_stays = λ h. h;
  }

  pub append_to-done :
      (answer : Append) (gap : Gap) (d : Directory)
      → is_terminated (lines_in d.journal) ≡ true
      → (append_to answer gap d).1 ≡ true
      → (noted gap.segment_id (lines_in (append_to answer gap d).0.journal) ≡ true)
        × (is_terminated (lines_in (append_to answer gap d).0.journal) ≡ true)
  unfolding append_to
  append_to-done synced gap d ends h = (
    noted-append_whole gap (lines_in d.journal) ends,
    is_terminated-append_whole gap (lines_in d.journal),
  )
  append_to-done unsynced gap d ends h = cc
  append_to-done cut_short gap d ends h = cc
  append_to-done refused gap d ends h = cc

  pub append_opened-Safe :
      (opens : Bool) (answer : Append) (gap : Gap) (d : Directory)
      → Safe d (append_opened opens answer gap d).0
  append_opened-Safe true answer gap d = append_to-Safe answer gap d
  append_opened-Safe false answer gap d = Safe-refl d

  pub append_opened-done :
      (opens : Bool) (answer : Append) (gap : Gap) (d : Directory)
      → is_terminated (lines_in d.journal) ≡ true
      → (append_opened opens answer gap d).1 ≡ true
      → (noted gap.segment_id (lines_in (append_opened opens answer gap d).0.journal) ≡ true)
        × (is_terminated (lines_in (append_opened opens answer gap d).0.journal) ≡ true)
  append_opened-done true answer gap d ends h = append_to-done answer gap d ends h
  append_opened-done false answer gap d ends h = cc

  listed-without :
      (name gone : Str) (entries : List Entry)
      → listed name entries ≡ true
      → (listed name (without gone entries) || gone == name) ≡ true
  unfolding listed without
  listed-without name gone [] h = cc
  listed-without name gone (e ∷ entries) h = ground (
    arith,
    listed-without name gone entries,
    str_beq_iff e.name name,
    str_beq_iff e.name gone,
    str_beq_iff gone name,
  )

  covered-without :
      (gone : Str) (entries : List Entry)
      → covered may_go rules entries ≡ true
      → covered may_go rules (without gone entries) ≡ true
  unfolding covered without
  covered-without gone [] h = refl
  covered-without gone (e ∷ entries) h = ground (arith, covered-without gone entries)

  pub remove_segment-Safe :
      (is_noted removes : Bool) (name : Str) (d : Directory)
      → may_go name ≡ true
      → (is_noted ≡ true → noted name (lines_in d.journal) ≡ true)
      → Safe d (remove_segment is_noted removes name d).0
  unfolding remove_segment
  remove_segment-Safe true true name d may h = record {
    accounted = λ n l. gone n (listed-without n name d.entries l) (h refl);
    noted_stays = λ n l. l;
    covered_stays = λ c. covered-without name d.entries c;
  }
    where
      gone :
          (n : Str)
          → (listed n (without name d.entries) || name == n) ≡ true
          → noted name (lines_in d.journal) ≡ true
          → (listed n (without name d.entries) || (noted n (lines_in d.journal) && may_go n)) ≡ true
      gone n l k = elim (Bool-cases (name == n)) [
        | inl same ↦
            rw (sym ((str_beq_iff name n).0 same))
              (rw may (rw k (or_true (listed name (without name d.entries)))))
        | inr other ↦ ground arith
      ]
  remove_segment-Safe true false name d may h = Safe-refl d
  remove_segment-Safe false true name d may h = Safe-refl d
  remove_segment-Safe false false name d may h = Safe-refl d

pub remove_segment-journal :
    (is_noted removes : Bool) (name : Str) (d : Directory)
    → (remove_segment is_noted removes name d).0.journal ≡ d.journal
unfolding remove_segment
remove_segment-journal true true name d = refl
remove_segment-journal true false name d = refl
remove_segment-journal false true name d = refl
remove_segment-journal false false name d = refl

pub remove_segment-noted :
    (is_noted removes : Bool) (name : Str) (d : Directory)
    → (remove_segment is_noted removes name d).1 ≡ true
    → is_noted ≡ true
unfolding remove_segment
remove_segment-noted true removes name d h = refl
remove_segment-noted false true name d h = cc
remove_segment-noted false false name d h = cc
