-- ===== src/AuditLog/Retention/Journaled.antt =====
-- What a clean leaves of the directory, whatever the calls to the file system answer.
use remnaplus_alpine_node.Prelude.{
  ℕ, Bool, true, false, not, ◌&&◌, ◌||◌, List, [], ◌∷◌, Str, str_eq, str_beq_iff, ◌==◌, ◌≡◌, refl,
  sym, ap, ◌∙◌, arith, inl, inr, Bool-cases, ltb,
}
use remnaplus_alpine_node.Prelude.Int.{ℤ}
use remnaplus_alpine_node.AuditLog.Files.{
  Problem, Checked, good, bad, ◌>>=◌, file_problem, FileInfo, missing, broken, found, Files,
  Service,
}
use remnaplus_alpine_node.AuditLog.Retention.{
  Gap, Entry, Directory, CleanResult, empty_result, Answers, Rules, is_removable, gap_of, lines_in,
  append_gap, append_opened, remove_segment, count_removed, take_segment, Cleaned, go_on,
  clean_found, clean_each, report, clean_listed, clean_sealed_segments, clean_next, clean_logs,
  rules_for, clean_logs_at, read_gap_journal, gaps_of, source_of,
}
use remnaplus_alpine_node.AuditLog.Retention.Safe.{
  listed, noted, is_terminated, any_removes, covered, covered_entry, Safe, or_true, Safe-refl,
  Safe-trans, append_opened-Safe, append_opened-done, remove_segment-Safe, remove_segment-journal,
  remove_segment-noted,
}

-- Unless there was an error, the journal ends with a newline.
abbrev ended : {A : Type 0} → Checked A → Directory → Bool
ended (good r) d = is_terminated (lines_in d.journal)
ended (bad p) d = true

module _ (may_go : Str → Bool) (rules : List Rules) (answers : Answers) where
  -- The end of a segment that is to go.
  take_segment-Safe :
      (name : Str) (size : ℕ) (gap : Gap) (d : Directory)
      → gap.segment_id ≡ name
      → may_go name ≡ true
      → is_terminated (lines_in d.journal) ≡ true
      → Safe may_go rules d (take_segment answers name size gap d).0
  unfolding take_segment append_gap
  take_segment-Safe name size gap d same may ends =
      let answer = answers.append gap.segment_id in
      let e = (append_opened answers.opens_journal answer gap d) in
      Safe-trans may_go rules d e.0 (remove_segment e.1 (answers.removes name) name e.0).0
        (append_opened-Safe may_go rules answers.opens_journal answer gap d)
        (remove_segment-Safe may_go rules e.1 (answers.removes name) name e.0 may (λ h.
          sym (ap (λ n. noted n (lines_in e.0.journal)) same)
          ∙ (append_opened-done may_go rules answers.opens_journal answer gap d ends h).0))

  take_segment-done :
      (name : Str) (size : ℕ) (gap : Gap) (d : Directory)
      → is_terminated (lines_in d.journal) ≡ true
      → (take_segment answers name size gap d).1 ≡ true
      → is_terminated (lines_in (take_segment answers name size gap d).0.journal) ≡ true
  unfolding take_segment append_gap
  take_segment-done name size gap d ends h =
      let answer = answers.append gap.segment_id in
      let e = append_opened answers.opens_journal answer gap d in
      ap (λ j. is_terminated (lines_in j))
        (remove_segment-journal e.1 (answers.removes name) name e.0)
      ∙ (append_opened-done may_go rules answers.opens_journal answer gap d ends
          (remove_segment-noted e.1 (answers.removes name) name e.0 h)).1

  -- What a part of a clean makes of a directory.
  record Fine (d : Directory) (c : Cleaned) : Type 0 where
    safe : Safe may_go rules d c.0
    ends : ended c.1 c.0 ≡ true

  Fine-after : (a b : Directory) (c : Cleaned) → Safe may_go rules a b → Fine b c → Fine a c
  Fine-after a b c ab bc = record {
    safe = Safe-trans may_go rules a b c.0 ab bc.safe;
    ends = bc.ends;
  }

  Fine-stop : (d : Directory) (p : Problem) → Fine d (d, bad p)
  Fine-stop d p = record { safe = Safe-refl may_go rules d; ends = refl }

  go_on-Fine :
      (next : Directory → CleanResult → Cleaned) (r : CleanResult) (d : Directory)
      (step : Directory × Bool)
      → Safe may_go rules d step.0
      → (step.1 ≡ true → is_terminated (lines_in step.0.journal) ≡ true)
      → ((e : Directory) (q : CleanResult)
          → is_terminated (lines_in e.journal) ≡ true
          → Fine e (next e q))
      → Fine d (go_on next r step)
  go_on-Fine next r d (e, true) safe done next_Fine =
      Fine-after d e _ safe (next_Fine e r (done refl))
  go_on-Fine next r d (e, false) safe done next_Fine =
      Fine-after d e _ safe (Fine-stop e file_problem)

  clean_found-Fine :
      (own : Rules) (name : Str) (info : FileInfo) (next : Directory → CleanResult → Cleaned)
      (d : Directory) (r : CleanResult)
      → may_go name ≡ true
      → is_terminated (lines_in d.journal) ≡ true
      → ((e : Directory) (q : CleanResult)
          → is_terminated (lines_in e.journal) ≡ true
          → Fine e (next e q))
      → Fine d (clean_found answers own name info next d r)
  unfolding clean_found
  clean_found-Fine own name missing next d r may ends next_Fine = next_Fine d r ends
  clean_found-Fine own name broken next d r may ends next_Fine = Fine-stop d file_problem
  clean_found-Fine own name (found inode size) next d r may ends next_Fine =
      let gap = gap_of answers own name size in
      go_on-Fine next (count_removed r size gap) d (take_segment answers name size gap d)
        (take_segment-Safe name size gap d refl may ends) (take_segment-done name size gap d ends)
        next_Fine

  clean_each-Fine :
      (own : Rules) (entries : List Entry) (d : Directory) (r : CleanResult)
      → ((e : Entry) → is_removable own e ≡ true → any_removes rules e ≡ true)
      → covered may_go rules entries ≡ true
      → is_terminated (lines_in d.journal) ≡ true
      → Fine d (clean_each answers own entries d r)
  unfolding clean_each covered
  clean_each-Fine own [] d r among all_covered ends = record {
    safe = Safe-refl may_go rules d;
    ends = ends;
  }
  clean_each-Fine own (x ∷ entries) d r among all_covered ends =
      elim (Bool-cases (is_removable own x)) [
        | inl goes ↦ rw goes (
            clean_found-Fine own x.name (answers.stat x.name) (clean_each answers own entries) d r
              (may_go_of (any_removes rules x) (may_go x.name) (covered may_go rules entries)
                (among x goes) all_covered)
              ends
              (λ e q ends'. clean_each-Fine own entries e q among (tail_covered all_covered) ends'))
        | inr stays ↦
            rw stays (clean_each-Fine own entries d r among (tail_covered all_covered) ends)
      ]
    where
      tail_covered :
          (covered_entry may_go rules x && covered may_go rules entries) ≡ true
          → covered may_go rules entries ≡ true
      tail_covered h = ground arith

      may_go_of :
          (removes may rest : Bool)
          → removes ≡ true
          → ((not removes || may) && rest) ≡ true
          → may ≡ true
      may_go_of removes may rest h k = ground arith

  ended-bind :
      {A B : Type 0} (x : Checked A) (f : A → B) (d : Directory)
      → is_terminated (lines_in d.journal) ≡ true
      → ended (x >>= λ a. good (f a)) d ≡ true
  ended-bind (good a) f d h = h
  ended-bind (bad p) f d h = refl

  report-Fine :
      (own : Rules) (d : Directory) (c : Cleaned) → Fine d c → Fine d (report answers own c)
  unfolding report
  report-Fine own d (e, bad p) fine = fine
  report-Fine own d (e, good r) fine =
      elim (Bool-cases (ltb 0 r.files && not answers.syncs_directory)) [
        | inl fails ↦ rw fails (Fine-after d e _ fine.safe (Fine-stop e file_problem))
        | inr goes ↦ rw goes (record {
          safe = fine.safe;
          ends =
              ended-bind (read_gap_journal answers e)
                (λ gaps. record r { gaps = gaps_of (source_of own.active_base) gaps }) e fine.ends;
        })
      ]

  clean_listed-Fine :
      (own : Rules) (info : FileInfo) (d : Directory)
      → ((e : Entry) → is_removable own e ≡ true → any_removes rules e ≡ true)
      → covered may_go rules d.entries ≡ true
      → is_terminated (lines_in d.journal) ≡ true
      → Fine d (clean_listed answers own info d)
  unfolding clean_listed
  clean_listed-Fine own missing d among all_covered ends = record {
    safe = Safe-refl may_go rules d;
    ends = ends;
  }
  clean_listed-Fine own broken d among all_covered ends = Fine-stop d file_problem
  clean_listed-Fine own (found inode size) d among all_covered ends =
      report-Fine own d (clean_each answers own d.entries d empty_result)
        (clean_each-Fine own d.entries d empty_result among all_covered ends)

  clean_next-Fine :
      (next : Directory → CleanResult → Cleaned) (r : CleanResult) (d : Directory) (c : Cleaned)
      → Fine d c
      → covered may_go rules d.entries ≡ true
      → ((e : Directory) (q : CleanResult)
          → covered may_go rules e.entries ≡ true
          → is_terminated (lines_in e.journal) ≡ true
          → Fine e (next e q))
      → Fine d (clean_next next r c)
  clean_next-Fine next r d (e, good item) fine all_covered next_Fine =
      Fine-after d e _ fine.safe (next_Fine e _ (fine.safe.covered_stays all_covered) fine.ends)
  clean_next-Fine next r d (e, bad p) fine all_covered next_Fine = fine

  clean_logs-Fine :
      (own : List Rules) (d : Directory) (r : CleanResult)
      → ((e : Entry) → any_removes own e ≡ true → any_removes rules e ≡ true)
      → covered may_go rules d.entries ≡ true
      → is_terminated (lines_in d.journal) ≡ true
      → Fine d (clean_logs answers own d r)
  unfolding clean_logs clean_sealed_segments
  clean_logs-Fine [] d r among all_covered ends = record {
    safe = Safe-refl may_go rules d;
    ends = ends;
  }
  clean_logs-Fine (x ∷ others) d r among all_covered ends =
      clean_next-Fine (clean_logs answers others) r d (clean_listed answers x answers.read_dir d)
        (clean_listed-Fine x answers.read_dir d (λ e h. among e (ground arith)) all_covered ends)
        all_covered
        (λ e q c t.
          clean_logs-Fine others e q (λ y h. among y (rw h (or_true (is_removable x y)))) c t)

-- Whether one of the rules removes an entry of that name.
unfoldable pub has_removable : List Rules → List Entry → Str → Bool
has_removable rules [] name = false
has_removable rules (e ∷ entries) name =
    (any_removes rules e && e.name == name) || has_removable rules entries name

covered-weaken :
    (p q : Str → Bool) (rules : List Rules) (entries : List Entry)
    → ((name : Str) → p name ≡ true → q name ≡ true)
    → covered p rules entries ≡ true
    → covered q rules entries ≡ true
unfolding covered
covered-weaken p q rules [] weaker h = refl
covered-weaken p q rules (e ∷ entries) weaker h =
    ground (arith, weaker e.name, covered-weaken p q rules entries weaker)

covered-has_removable :
    (rules : List Rules) (entries : List Entry)
    → covered (has_removable rules entries) rules entries ≡ true
unfolding covered has_removable
covered-has_removable rules [] = refl
covered-has_removable rules (e ∷ entries) = ground (
  arith,
  str_beq_iff e.name e.name,
  covered-weaken (has_removable rules entries) (has_removable rules (e ∷ entries)) rules entries
      (λ name h. rw h (or_true (any_removes rules e && e.name == name)))
      (covered-has_removable rules entries),
)

-- Whatever the calls to the file system answer, and wherever the cleaning stops: a file that was in the
-- directory is still there, or it was a regular sealed segment of one of the two logs, allowed to go and
-- of a day before the cutoff, and the journal then has a readable gap for it. The journal must end with
-- a newline before.
pub clean_logs_at-Journaled :
    (files : Files) (answers : Answers) (s : Service) (cutoff : ℤ) (allowed : Str → Bool)
    (d : Directory) (name : Str)
    → is_terminated (lines_in d.journal) ≡ true
    → listed name d.entries ≡ true
    → (let after = (clean_logs_at files answers s cutoff allowed d).0 in
        let rules =
          rules_for files cutoff allowed s.access_path
          ∷ rules_for files cutoff allowed s.error_path
          ∷ [] in
        (listed name after.entries
          || (noted name (lines_in after.journal) && has_removable rules d.entries name))
        ≡ true)
unfolding clean_logs_at
clean_logs_at-Journaled files answers s cutoff allowed d name ends there =
    let rules =
      rules_for files cutoff allowed s.access_path
      ∷ rules_for files cutoff allowed s.error_path
      ∷ [] in
    (clean_logs-Fine (has_removable rules d.entries) rules answers rules d empty_result (λ e h. h)
        (covered-has_removable rules d.entries) ends).safe.accounted
      name there
