-- ===== src/Xray/Manager/Invariant.antt =====
-- What holds of the manager at every moment, whatever the order of the steps.
use remnaplus_alpine_node.Prelude.{
  ℕ, Bool, true, false, if◌then◌else◌, str_eq, nat_eq, Option, some, none, ◌≡◌, refl, arith,
}
use remnaplus_alpine_node.Prelude.Map.{has, is_some}
use remnaplus_alpine_node.Xray.Manager.{
  StartRequest, Generator, World, StartPhase, StopPhase, idle, entered, stopped, writing, leaving,
  released, not_stopping, enter, try_lock, lock_lifecycle, go_to, set_online, set_config,
}

-- Whether a call of Start holds `lifecycleMu`, and whether it has to reset `startProcessing`.
abbrev pub holds_lock : StartPhase → Bool
holds_lock idle = false
holds_lock released = false
holds_lock (entered req) = false
holds_lock _ = true

abbrev pub is_busy : StartPhase → Bool
is_busy idle = false
is_busy _ = true

abbrev pub is_stopping : StopPhase → Bool
is_stopping not_stopping = false
is_stopping _ = true

-- Between the end of the old core and the start of the next.
abbrev pub is_between : StartPhase → Bool
is_between (stopped req) = true
is_between _ = false

-- Where a call has answered that the core is started, its request is the one on record.
abbrev pub Answered : StartPhase → Option StartRequest → Type 0
Answered (leaving (some req)) recorded = recorded ≡ some req
Answered (writing req) recorded = recorded ≡ some req
Answered _ recorded = Unit {0}

pub holds_busy : (phase : StartPhase) → holds_lock phase ≡ true → is_busy phase ≡ true
holds_busy phase h = ground arith

pub record Inv (w : World) : Type 0 where
  pub start_exclusive :
      holds_lock w.starter ≡ true
      → (w.manager.lifecycle_locked ≡ true) × (is_stopping w.stopper ≡ false)
  pub stop_exclusive : is_stopping w.stopper ≡ true → w.manager.lifecycle_locked ≡ true
  pub processing : is_busy w.starter ≡ true → w.manager.start_processing ≡ true
  pub sole : (id : ℕ) → has id w.cores ≡ true → w.manager.process ≡ some id
  pub between :
      is_between w.starter ≡ true
      → (w.manager.process ≡ none) × (is_some w.manager.current_config ≡ true)
  pub configured : is_some w.manager.process ≡ true → is_some w.manager.current_config ≡ true
  pub answered : Answered w.starter w.manager.last_start_request

pub unstopped :
    (w : World) → Inv w → w.manager.lifecycle_locked ≡ false → is_stopping w.stopper ≡ false
unstopped w inv free = ground (arith, inv.stop_exclusive)

-- A call that holds the lock goes on.
pub go_to-Inv :
    (phase : StartPhase) (w : World)
    → Inv w
    → holds_lock w.starter ≡ true
    → is_between phase ≡ false
    → Answered phase w.manager.last_start_request
    → Inv (go_to phase w)
unfolding go_to
go_to-Inv phase w inv holds no_gap said = record {
  start_exclusive = λ h. inv.start_exclusive holds;
  stop_exclusive = inv.stop_exclusive;
  processing = λ h. inv.processing (holds_busy w.starter holds);
  sole = inv.sole;
  between = λ h. ground arith;
  configured = inv.configured;
  answered = said;
}

pub set_online-Inv : (online : Bool) (w : World) → Inv w → Inv (set_online online w)
unfolding set_online
set_online-Inv online w inv = record {
  start_exclusive = inv.start_exclusive;
  stop_exclusive = inv.stop_exclusive;
  processing = inv.processing;
  sole = inv.sole;
  between = inv.between;
  configured = inv.configured;
  answered = inv.answered;
}

pub enter-Inv :
    (req : StartRequest) (w : World)
    → Inv w
    → w.manager.start_processing ≡ false
    → Inv (enter req w)
unfolding enter
enter-Inv req w inv free = record {
  start_exclusive = λ h. cc;
  stop_exclusive = inv.stop_exclusive;
  processing = λ h. refl;
  sole = inv.sole;
  between = λ h. cc;
  configured = inv.configured;
  answered = tt;
}

pub if-Inv :
    (b : Bool) (v w : World) → (b ≡ true → Inv v) → (b ≡ false → Inv w) → Inv (if b then v else w)
if-Inv true v w h k = h refl
if-Inv false v w h k = k refl

pub try_lock-Inv :
    (req : StartRequest) (w : World) → Inv w → w.starter ≡ entered req → Inv (try_lock req w)
unfolding try_lock lock_lifecycle go_to
try_lock-Inv req w inv at =
    if-Inv w.manager.lifecycle_locked _ _
      (λ taken. record {
        start_exclusive = λ h. cc;
        stop_exclusive = inv.stop_exclusive;
        processing = λ h. inv.processing (rw at refl);
        sole = inv.sole;
        between = λ h. cc;
        configured = inv.configured;
        answered = tt;
      })
      (λ free. record {
        start_exclusive = λ h. (refl, unstopped w inv free);
        stop_exclusive = λ h. refl;
        processing = λ h. inv.processing (rw at refl);
        sole = inv.sole;
        between = λ h. cc;
        configured = inv.configured;
        answered = tt;
      })

pub set_config-Inv :
    (g : Generator) (req : StartRequest) (w : World) → Inv w → Inv (set_config g req w)
unfolding set_config
set_config-Inv g req w inv = record {
  start_exclusive = inv.start_exclusive;
  stop_exclusive = inv.stop_exclusive;
  processing = inv.processing;
  sole = inv.sole;
  between = λ h. ((inv.between h).0, refl);
  configured = λ h. refl;
  answered = inv.answered;
}
