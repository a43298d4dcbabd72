-- ===== src/AuditLog/Cutoff.antt =====
-- internal/auditlog/service.go: CleanLogs, from a number of days to the moment before which a segment is old.
use remnaplus_alpine_node.Prelude.{
  ℕ, suc, ◌+◌, ◌-◌, ◌*◌, ◌%◌, ◌^◌, ◌≤◌, ◌<◌, true, List, if◌then◌else◌, ltb, Str, str_eq, ◌≡◌,
  arith,
}
use remnaplus_alpine_node.Prelude.Int.{
  ℤ, pos, ◌+ℤ◌, sub_ℕ, ltb_ℤ, +ℤ_parts, eq_of_parts, pos_part, neg_part,
}
use remnaplus_alpine_node.Prelude.Map.{has}
use remnaplus_alpine_node.AuditLog.Files.{Files, Service, bad_retention, bad}
use remnaplus_alpine_node.AuditLog.Retention.{Directory, Answers, Cleaned, clean_logs_at}

-- A day in nanoseconds, the unit of time.Duration.
abbrev pub day_nanoseconds : ℕ
day_nanoseconds = 86400000000000

-- `-time.Duration(days)*24*time.Hour`, a word of 64 bits in two's complement.
unfoldable pub negated_age : ℕ → ℕ
negated_age days = (2 ^ 64 - (days * day_nanoseconds) % 2 ^ 64) % 2 ^ 64

abbrev pub signed : ℕ → ℤ
signed word = if ltb word (2 ^ 63) then pos word else sub_ℕ 0 (2 ^ 64 - word)

-- `time.Now().Add` of it; a moment is a number of nanoseconds.
unfoldable pub retention_cutoff : ℤ → ℕ → ℤ
retention_cutoff now days = now +ℤ signed (negated_age days)

unfoldable pub clean_logs_older : Files → Answers → ℤ → Service → ℤ → List Str → Directory → Cleaned
clean_logs_older files answers now s (pos (suc days)) ids d =
    clean_logs_at files answers s (retention_cutoff now (suc days)) (λ name. has name ids) d
clean_logs_older files answers now s _ ids d = (d, bad bad_retention)

negated_small :
    (days : ℕ)
    → days ≤ 106751
    → (pos_part (signed (negated_age days)) ≡ 0)
      × (neg_part (signed (negated_age days)) ≡ days * day_nanoseconds)
unfolding negated_age
negated_small days h = ground arith

negated_large :
    (days : ℕ)
    → 106752 ≤ days
    → days ≤ 213503
    → (0 < pos_part (signed (negated_age days))) × (neg_part (signed (negated_age days)) ≡ 0)
unfolding negated_age
negated_large days h k = ground arith

-- For up to 106751 days the moment before which a segment is old lies exactly that many days before now.
-- From 106752 to 213503 days the product wraps around, and that moment lies after now.
pub retention_cutoff-wraps :
    (now : ℤ) (days : ℕ)
    → (days ≤ 106751 → retention_cutoff now days +ℤ pos (days * day_nanoseconds) ≡ now)
      × (106752 ≤ days → days ≤ 213503 → ltb_ℤ now (retention_cutoff now days) ≡ true)
unfolding retention_cutoff
retention_cutoff-wraps now days =
    let age = signed (negated_age days) in
    (
      λ h. eq_of_parts _ now (
          omega (
            arith,
            (negated_small days h).0,
            (negated_small days h).1,
            +ℤ_parts now age,
            +ℤ_parts (now +ℤ age) (pos (days * day_nanoseconds)),
          )),
      λ h k.
          later now (now +ℤ age) (
            omega
              (arith, (negated_large days h k).0, (negated_large days h k).1, +ℤ_parts now age)),
    )
  where
    later : (a b : ℤ) → pos_part a + neg_part b < pos_part b + neg_part a → ltb_ℤ a b ≡ true
    later a b h = ground arith
