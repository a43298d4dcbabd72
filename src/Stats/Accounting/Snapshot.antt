-- ===== src/Stats/Accounting/Snapshot.antt =====
-- What the accounting journal promises: a sample is on disk before it is reported, it stays until it
-- is acknowledged, and the next one starts where it ended.
use remnaplus_alpine_node.Prelude.{
  ◌∙◌, ap, ◌≡◌, ◌≢◌, ◌⊎◌, inl, inr, List, [], ◌∷◌, Str, str_eq, str_beq_iff, Option, none, some,
  arith,
}
use remnaplus_alpine_node.Stats.Accounting.{
  replace_read, sample_read, action_invalid, quarantine_found, acknowledge_found, Journal, Pending,
  Diagnostic, Environment, WriteOutcome, checkpoint_of, take_sample, acknowledge_pending,
  acknowledge_sample, replace_pending, quarantine_sample, is_pending, snapshot,
}

-- Whatever the call meets, the pending sample is still pending or it has become the acknowledged one.
abbrev Kept : Pending → Journal → Type 0
Kept p j = (j.pending ≡ some p) ⊎ (j.acknowledged ≡ some (checkpoint_of p))

take_sample-keeps :
    (env : Environment) (w : WriteOutcome) (extra : List Diagnostic) (j : Journal) (p : Pending)
    → j.pending ≡ some p
    → (take_sample env w extra j).1 ≡ j
unfolding take_sample sample_read
take_sample-keeps env w extra j p h = ground arith

take_sample-acknowledged :
    (env : Environment) (w : WriteOutcome) (extra : List Diagnostic) (j : Journal)
    → (take_sample env w extra j).1.acknowledged ≡ j.acknowledged
unfolding take_sample sample_read
take_sample-acknowledged env w extra j = ground arith

take_sample-durable :
    (env : Environment) (w : WriteOutcome) (extra : List Diagnostic) (j : Journal) (p : Pending)
    (d : List Diagnostic)
    → (take_sample env w extra j).0 ≡ some (p, d)
    → (take_sample env w extra j).1.pending ≡ some p
unfolding take_sample sample_read
take_sample-durable env w extra j p d h = ground arith

module _ (env : Environment) (j : Journal) where
  acknowledge_pending-durable :
      (old p : Pending) (d : List Diagnostic)
      → (acknowledge_pending env j old).0 ≡ some (p, d)
      → (acknowledge_pending env j old).1.pending ≡ some p
  unfolding acknowledge_pending
  acknowledge_pending-durable old p d h = ground (
    arith,
    take_sample-durable env env.second_write []
        (record j { acknowledged = some (checkpoint_of old); pending = none }) p d,
  )

  acknowledge_found-durable :
      (id : Str) (o : Option Pending) (p : Pending) (d : List Diagnostic)
      → (acknowledge_found env j id o).0 ≡ some (p, d)
      → (acknowledge_found env j id o).1.pending ≡ some p
  unfolding acknowledge_found
  acknowledge_found-durable id (some old) p d h = acknowledge_pending-durable old p d h
  acknowledge_found-durable id none p d h = take_sample-durable env env.first_write _ j p d h

  replace_pending-durable :
      (old p : Pending) (d : List Diagnostic)
      → (replace_pending env j old).0 ≡ some (p, d)
      → (replace_pending env j old).1.pending ≡ some p
  unfolding replace_pending replace_read
  replace_pending-durable old p d h = ground arith

  quarantine_found-durable :
      (id : Str) (o : Option Pending) (p : Pending) (d : List Diagnostic)
      → (quarantine_found env j id o).0 ≡ some (p, d)
      → (quarantine_found env j id o).1.pending ≡ some p
  unfolding quarantine_found
  quarantine_found-durable id (some old) p d h = replace_pending-durable old p d h
  quarantine_found-durable id none p d h = take_sample-durable env env.first_write _ j p d h

  acknowledge_pending-keeps :
      (old : Pending) → j.pending ≡ some old → Kept old (acknowledge_pending env j old).1
  unfolding acknowledge_pending
  acknowledge_pending-keeps old h = ground (
    arith,
    take_sample-acknowledged env env.second_write []
        (record j { acknowledged = some (checkpoint_of old); pending = none }),
  )

  replace_pending-keeps :
      (old : Pending) → j.pending ≡ some old → Kept old (replace_pending env j old).1
  unfolding replace_pending replace_read
  replace_pending-keeps old h = ground arith

  is_pending-eq :
      (id : Str) (p : Pending)
      → j.pending ≡ some p
      → ((id ≡ p.sample_id) × (is_pending j.pending id ≡ some p))
        ⊎ ((id ≢ p.sample_id) × (is_pending j.pending id ≡ none))
  unfolding is_pending
  is_pending-eq id p h = ground (arith, str_beq_iff id p.sample_id)

  other-keeps :
      (extra : List Diagnostic) (p : Pending)
      → j.pending ≡ some p
      → (take_sample env env.first_write extra j).1.pending ≡ some p
  other-keeps extra p h =
      ap (λ k. k.pending) (take_sample-keeps env env.first_write extra j p h) ∙ h

  acknowledge_sample-keeps :
      (id : Str) (p : Pending)
      → j.pending ≡ some p
      → ((acknowledge_sample env j id).1.pending ≡ some p)
        ⊎ ((id ≡ p.sample_id)
            × ((acknowledge_sample env j id).1.acknowledged ≡ some (checkpoint_of p)))
  unfolding acknowledge_sample acknowledge_found
  acknowledge_sample-keeps id p h = elim (is_pending-eq id p h) [
    | inl (same, found) ↦ rw found (elim (acknowledge_pending-keeps p h) [
      | inl left ↦ inl left
      | inr moved ↦ inr (same, moved)
    ])
    | inr (_, missing) ↦ rw missing (inl (other-keeps _ p h))
  ]

  quarantine_sample-keeps :
      (id : Str) (p : Pending)
      → j.pending ≡ some p
      → ((quarantine_sample env j id).1.pending ≡ some p)
        ⊎ ((id ≡ p.sample_id)
            × ((quarantine_sample env j id).1.acknowledged ≡ some (checkpoint_of p)))
  unfolding quarantine_sample quarantine_found
  quarantine_sample-keeps id p h = elim (is_pending-eq id p h) [
    | inl (same, found) ↦
        rw found
          (elim (replace_pending-keeps p h) [ inl left ↦ inl left | inr moved ↦ inr (same, moved) ])
    | inr (_, missing) ↦ rw missing (inl (other-keeps _ p h))
  ]

-- The sample a call of Snapshot returns is the pending sample of the journal on disk after the call,
-- whatever the journal, the identifiers and the failures of the reader and of the writes.
pub snapshot_durable :
    (env : Environment) (acknowledge quarantine : Str) (j : Journal) (p : Pending)
    (d : List Diagnostic)
    → (snapshot env acknowledge quarantine j).0 ≡ some (p, d)
    → (snapshot env acknowledge quarantine j).1.pending ≡ some p
unfolding snapshot acknowledge_sample quarantine_sample
snapshot_durable env acknowledge quarantine j p d h = ground (
  arith,
  acknowledge_found-durable env j acknowledge (is_pending j.pending acknowledge) p d,
  quarantine_found-durable env j quarantine (is_pending j.pending quarantine) p d,
  take_sample-durable env env.first_write (action_invalid ∷ []) j p d,
  take_sample-durable env env.first_write [] j p d,
)

-- A sample that is pending before a call of Snapshot is pending in the journal on disk after it, or
-- it is the acknowledged one and one of the two identifiers of the call names it. This holds whatever
-- the reader answers and whichever writes fail.
pub snapshot_loses_nothing :
    (env : Environment) (acknowledge quarantine : Str) (j : Journal) (p : Pending)
    → j.pending ≡ some p
    → ((snapshot env acknowledge quarantine j).1.pending ≡ some p)
      ⊎ (((acknowledge ≡ p.sample_id) ⊎ (quarantine ≡ p.sample_id))
          × ((snapshot env acknowledge quarantine j).1.acknowledged ≡ some (checkpoint_of p)))
unfolding snapshot
snapshot_loses_nothing env acknowledge quarantine j p h = ground (
  arith,
  acknowledge_sample-keeps env j acknowledge p h,
  quarantine_sample-keeps env j quarantine p h,
  other-keeps env j (action_invalid ∷ []) p h,
  other-keeps env j [] p h,
)
