-- ===== src/Stats/Accounting/Continuity.antt =====
-- How the samples of the accounting journal follow each other: each starts where the acknowledged one
-- ended or at a new baseline, and a call that acknowledges nothing returns the same sample again.
use remnaplus_alpine_node.Stats.Accounting.{
  any_lower, checkpoint_of, is_written, action_invalid, Quarantined, is_pending, quarantine_sample,
  replace_pending, acknowledge_pending, Diagnostic, Counters, Pending, acknowledge_sample,
  quarantine_found, acknowledge_found, on_disk, Checkpoint, snapshot, Environment, take_sample,
  WriteOutcome, next_pending, Journal,
}
use remnaplus_alpine_node.Stats.Accounting.{
  WriteOutcome, Checkpoint, Pending, Journal, Environment, sample_read, replace_read, written,
  failed_before, failed_after,
}
use remnaplus_alpine_node.Prelude.{
  str_eq, ◌⊎◌, false, inr, [], ◌∷◌, inl, Bool-cases, str_beq_iff, ◌≡◌, Str, some, none, List,
  Option, arith,
}

-- The pending sample takes up the acknowledged one, with no counter lower and under the same generation,
-- or it starts at its own end, so that it attributes no bytes.
unfoldable pub Follows : Option Checkpoint → Option Pending → Type 0
Follows _ none = Unit {0}
Follows none (some p) = p.from ≡ p.to
Follows (some c) (some p) =
    ((p.from ≡ c.counters) × ((c.generation ≡ p.generation) × (any_lower p.from p.to ≡ false)))
    ⊎ (p.from ≡ p.to)

abbrev pub IsContinuous : Journal → Type 0
IsContinuous j = Follows j.acknowledged j.pending

Follows-none : (c : Option Checkpoint) → Follows c none
unfolding Follows
Follows-none none = tt
Follows-none (some c) = tt

next_pending-Follows :
    (c : Option Checkpoint) (to : Counters) (generation : Str) (env : Environment)
    → Follows c (some (next_pending c to generation env))
unfolding Follows next_pending
next_pending-Follows none to generation env = λ i. to
next_pending-Follows (some c) to generation env =
    ground (arith, str_beq_iff c.generation generation)

on_disk-IsContinuous :
    (w : WriteOutcome) (old new : Journal)
    → IsContinuous old
    → IsContinuous new
    → IsContinuous (on_disk w old new)
on_disk-IsContinuous written old new h k = k
on_disk-IsContinuous failed_before old new h k = h
on_disk-IsContinuous failed_after old new h k = k

sample_read-IsContinuous :
    (env : Environment) (w : WriteOutcome) (extra : List Diagnostic) (j : Journal)
    (o : Option (Counters × Str))
    → IsContinuous j
    → IsContinuous (sample_read env w extra j o).1
unfolding sample_read
sample_read-IsContinuous env w extra j none h = h
sample_read-IsContinuous env w extra j (some (to, generation)) h =
    on_disk-IsContinuous w j
      (record j { pending = some (next_pending j.acknowledged to generation env) }) h
      (next_pending-Follows j.acknowledged to generation env)

sample_from :
    (env : Environment) (w : WriteOutcome) (extra : List Diagnostic) (c : Option Checkpoint)
    (o : Option Pending) (q : Option Quarantined)
    → Follows c o
    → IsContinuous
        (take_sample env w extra (record { acknowledged = c; pending = o; quarantined = q })).1
unfolding take_sample
sample_from env w extra c (some p) q h = h
sample_from env w extra c none q h = sample_read-IsContinuous env w extra _ env.reading h

replace_read-IsContinuous :
    (env : Environment) (j : Journal) (p : Pending) (o : Option (Counters × Str))
    → IsContinuous j
    → IsContinuous (replace_read env j p o).1
unfolding replace_read Follows
replace_read-IsContinuous env j p none h = h
replace_read-IsContinuous env j p (some (to, generation)) h =
    on_disk-IsContinuous env.first_write j _ h (inr (λ i. to))

module _ (env : Environment) (j : Journal) (h : IsContinuous j) where
  take_sample-IsContinuous :
      (w : WriteOutcome) (extra : List Diagnostic) → IsContinuous (take_sample env w extra j).1
  take_sample-IsContinuous w extra =
      sample_from env w extra j.acknowledged j.pending j.quarantined h

  acknowledge_found-IsContinuous :
      (id : Str) (o : Option Pending) → IsContinuous (acknowledge_found env j id o).1
  unfolding acknowledge_found acknowledge_pending Follows
  acknowledge_found-IsContinuous id none = take_sample-IsContinuous env.first_write _
  acknowledge_found-IsContinuous id (some p) = elim (Bool-cases (is_written env.first_write)) [
    | inl e ↦
        rw e (sample_from env env.second_write [] (some (checkpoint_of p)) none j.quarantined tt)
    | inr e ↦
        rw e (on_disk-IsContinuous env.first_write j _ h (Follows-none (some (checkpoint_of p))))
  ]

  quarantine_found-IsContinuous :
      (id : Str) (o : Option Pending) → IsContinuous (quarantine_found env j id o).1
  unfolding quarantine_found replace_pending
  quarantine_found-IsContinuous id none = take_sample-IsContinuous env.first_write _
  quarantine_found-IsContinuous id (some p) = replace_read-IsContinuous env j p env.reading h

-- Whatever the identifiers and the failures of the reader and of the writes, a call of Snapshot on a
-- journal whose pending sample takes up the acknowledged one (same generation, no counter lower), or
-- starts at its own end, leaves such a journal on disk.
pub snapshot-IsContinuous :
    (env : Environment) (acknowledge quarantine : Str) (j : Journal)
    → IsContinuous j
    → IsContinuous (snapshot env acknowledge quarantine j).1
unfolding snapshot acknowledge_sample quarantine_sample
snapshot-IsContinuous env acknowledge quarantine j h = ground (
  arith,
  acknowledge_found-IsContinuous env j h acknowledge (is_pending j.pending acknowledge),
  quarantine_found-IsContinuous env j h quarantine (is_pending j.pending quarantine),
  take_sample-IsContinuous env j h env.first_write (action_invalid ∷ []),
  take_sample-IsContinuous env j h env.first_write [],
)
