-- ===== src/Stats/Accounting.antt =====
-- internal/stats/accounting_snapshot.go: the journal of traffic samples, each of which stays pending
-- until the dashboard acknowledges it. A counter's decimal text is modelled by the integer it denotes.
pub mod Snapshot
pub mod Names
pub mod Response
pub mod Baseline
pub mod Continuity
use Prim.Native.String.{String}
use remnaplus_alpine_node.Prelude.{
  ℕ, ◌+◌, ◌≡◌, refl, Bool, true, false, ◌&&◌, ◌||◌, not, List, [], ◌∷◌, ◌++◌, if◌then◌else◌, ltb,
  Str, str_eq, ◌==◌, lit, Option, none, some,
}
use remnaplus_alpine_node.Prelude.Map.{lookup}
use remnaplus_alpine_node.Prelude.Int.{ℤ, pos, ltb_ℤ}

pub record Diagnostic : Type 0 where
  pub code : Str
  pub message : Str

-- map[string]string, of decimal integers
abbrev pub Counters : Type 0
Counters = List (Str × ℤ)

pub record Checkpoint : Type 0 where
  pub counters : Counters
  pub generation : Str
  pub sample_id : Str

pub record Pending : Type 0 where
  pub diagnostics : List Diagnostic
  pub from : Counters
  pub generation : Str
  pub sample_id : Str
  pub sampled_at : Str
  pub to : Counters

pub record Quarantined : Type 0 where
  pub generation : Str
  pub quarantined_at : Str
  pub sample_id : Str

pub record Journal : Type 0 where
  pub acknowledged : Option Checkpoint
  pub pending : Option Pending
  pub quarantined : Option Quarantined

-- What the call of `write` did: it may fail before the new file replaces the old one, or after.
pub data WriteOutcome : Type 0 where
  written failed_before failed_after : WriteOutcome

-- What one call of Snapshot meets: the reader's answer, a fresh identifier, the clock, and what
-- becomes of a write. A call reads the counters at most once. It writes the journal up to twice.
pub record Environment : Type 0 where
  pub reading : Option (Counters × Str)
  pub fresh_id : Str
  pub now : Str
  pub first_write : WriteOutcome
  pub second_write : WriteOutcome

-- What accountingResponse is given (none is an error), with the journal on disk afterwards.
abbrev pub Returned : Type 0
Returned = Option (Pending × List Diagnostic) × Journal

unfoldable pub diagnostic : String → String → Diagnostic
diagnostic code message = record { code = lit code; message = lit message }

abbrev pub action_invalid : Diagnostic
action_invalid =
    diagnostic "ACCOUNTING_ACTION_INVALID"
      "Accounting acknowledgement and quarantine are mutually exclusive."

abbrev pub ack_unknown : Diagnostic
ack_unknown =
    diagnostic "ACCOUNTING_ACK_UNKNOWN"
      "Acknowledgement does not match the pending accounting sample."

abbrev pub quarantine_unknown : Diagnostic
quarantine_unknown =
    diagnostic "ACCOUNTING_QUARANTINE_UNKNOWN"
      "Quarantine does not match the pending accounting sample."

abbrev pub baseline : Diagnostic
baseline = diagnostic "ACCOUNTING_BASELINE" "Initial cumulative baseline captured."

abbrev pub rebaseline : Diagnostic
rebaseline =
    diagnostic "ACCOUNTING_REBASELINE"
      "Xray generation or cumulative counters changed; baseline replaced."

abbrev pub quarantine_done : List Diagnostic
quarantine_done =
    diagnostic "ACCOUNTING_QUARANTINED"
      "An unattributable accounting sample was quarantined without assigning its bytes to users."
    ∷ diagnostic "ACCOUNTING_REBASELINE"
        "A fresh cumulative baseline was captured after the quarantined accounting sample."
    ∷ []

-- The journal on disk after a write of `new` over `old`, and whether the call goes on.
abbrev pub on_disk : WriteOutcome → Journal → Journal → Journal
on_disk written old new = new
on_disk failed_before old new = old
on_disk failed_after old new = new

abbrev pub is_written : WriteOutcome → Bool
is_written written = true
is_written _ = false

abbrev pub or_zero : Option ℤ → ℤ
or_zero none = pos 0
or_zero (some v) = v

-- A counter is lower than it was at the acknowledged sample.
unfoldable pub any_lower : Counters → Counters → Bool
any_lower from [] = false
any_lower from ((name, current) ∷ to) =
    ltb_ℤ current (or_zero (lookup name from)) || any_lower from to

-- The sample that starts where the acknowledged one ended, if the counters allow it.
unfoldable pub next_pending : Option Checkpoint → Counters → Str → Environment → Pending
next_pending none to generation env = record {
  diagnostics = baseline ∷ [];
  from = to;
  generation = generation;
  sample_id = env.fresh_id;
  sampled_at = env.now;
  to = to;
}
next_pending (some acknowledged) to generation env =
    let replaced =
      not (acknowledged.generation == generation) || any_lower acknowledged.counters to in
    record {
      diagnostics = if replaced then rebaseline ∷ [] else [];
      from = if replaced then to else acknowledged.counters;
      generation = generation;
      sample_id = env.fresh_id;
      sampled_at = env.now;
      to = to;
    }

-- The new sample, from what the reader answered.
unfoldable pub sample_read :
    Environment → WriteOutcome → List Diagnostic → Journal → Option (Counters × Str) → Returned
sample_read env outcome extra journal none = (none, journal)
sample_read env outcome extra journal (some (to, generation)) =
    let pending = next_pending journal.acknowledged to generation env in
    (
      (if is_written outcome then some (pending, extra) else none),
      on_disk outcome journal (record journal { pending = some pending }),
    )

-- The end of Snapshot, with the journal in memory equal to the one on disk.
unfoldable pub take_sample : Environment → WriteOutcome → List Diagnostic → Journal → Returned
take_sample env outcome extra journal = elim journal.pending [
  | some pending ↦ (some (pending, extra), journal)
  | none ↦ sample_read env outcome extra journal env.reading
]

abbrev pub checkpoint_of : Pending → Checkpoint
checkpoint_of p = record { counters = p.to; generation = p.generation; sample_id = p.sample_id }

unfoldable pub acknowledge_pending : Environment → Journal → Pending → Returned
acknowledge_pending env journal pending =
    let new = record journal { acknowledged = some (checkpoint_of pending); pending = none } in
    if is_written env.first_write
    then take_sample env env.second_write [] new
    else (none, on_disk env.first_write journal new)

pub is_acknowledged : Option Checkpoint → Str → Bool
is_acknowledged none id = false
is_acknowledged (some c) id = id == c.sample_id

is_quarantined : Option Quarantined → Str → Bool
is_quarantined none id = false
is_quarantined (some q) id = q.sample_id == id

unfoldable pub unless_known : Bool → Diagnostic → List Diagnostic
unless_known true d = []
unless_known false d = d ∷ []

unfoldable pub is_pending : Option Pending → Str → Option Pending
is_pending none id = none
is_pending (some p) id = if id == p.sample_id then some p else none

-- The acknowledgement, with the pending sample it names if there is one.
unfoldable pub acknowledge_found : Environment → Journal → Str → Option Pending → Returned
unfolding is_acknowledged
acknowledge_found env journal id (some pending) = acknowledge_pending env journal pending
acknowledge_found env journal id none =
    take_sample env env.first_write
      (unless_known (is_acknowledged journal.acknowledged id) ack_unknown) journal

unfoldable pub acknowledge_sample : Environment → Journal → Str → Returned
acknowledge_sample env journal id = acknowledge_found env journal id (is_pending journal.pending id)

unfoldable pub replace_read : Environment → Journal → Pending → Option (Counters × Str) → Returned
replace_read env journal old none = (none, journal)
replace_read env journal old (some (to, generation)) =
    let fresh : Pending = record {
      diagnostics = quarantine_done;
      from = to;
      generation = generation;
      sample_id = env.fresh_id;
      sampled_at = env.now;
      to = to;
    } in
    let new : Journal = record {
      acknowledged = some (checkpoint_of old);
      pending = some fresh;
      quarantined = some (record {
        generation = old.generation;
        quarantined_at = env.now;
        sample_id = old.sample_id;
      });
    } in
    (
      (if is_written env.first_write then some (fresh, []) else none),
      on_disk env.first_write journal new,
    )

-- Quarantine of the pending sample. The reader comes first, so that its failure leaves the sample.
unfoldable pub replace_pending : Environment → Journal → Pending → Returned
replace_pending env journal old = replace_read env journal old env.reading

unfoldable pub quarantine_found : Environment → Journal → Str → Option Pending → Returned
unfolding is_quarantined
quarantine_found env journal id (some pending) = replace_pending env journal pending
quarantine_found env journal id none =
    take_sample env env.first_write
      (unless_known (is_quarantined journal.quarantined id) quarantine_unknown) journal

unfoldable pub quarantine_sample : Environment → Journal → Str → Returned
quarantine_sample env journal id = quarantine_found env journal id (is_pending journal.pending id)

-- Snapshot, where the journal on disk can be read, up to the sample and the diagnostics of this call that
-- accountingResponse is given.
unfoldable pub snapshot : Environment → Str → Str → Journal → Returned
snapshot env acknowledge quarantine journal =
    if not (acknowledge == []) && not (quarantine == [])
    then take_sample env env.first_write (action_invalid ∷ []) journal
    else if not (acknowledge == [])
    then acknowledge_sample env journal acknowledge
    else if not (quarantine == [])
    then quarantine_sample env journal quarantine
    else take_sample env env.first_write [] journal
