-- ===== src/Xray/Manager/Runs.antt =====
-- The invariant of the manager through every run of its callers.
use remnaplus_alpine_node.Prelude.{
  ℕ, Bool, true, false, ◌&&◌, ◌||◌, [], str_eq, nat_eq, Option, some, none, ◌≡◌, sym, ap, ◌∙◌,
  arith,
}
use remnaplus_alpine_node.Prelude.Map.{has, is_some}
use remnaplus_alpine_node.Xray.Manager.{
  StartRequest, Generator, Manager, World, idle, leaving, not_stopping,
}
use remnaplus_alpine_node.Xray.Manager.Steps.{
  Step, start_enters, start_tries, start_checks, start_compares, start_loses, start_skips,
  start_loads, start_replaces, start_spawns, start_awaits, start_records, start_writes,
  start_unlocks, start_leaves, stop_enters, stop_flushes, stop_writes, stop_stops, stop_leaves,
  core_exits, core_reaped, health_writes, users_change, Run, at_rest, after,
}
use remnaplus_alpine_node.Xray.Manager.Invariant.{
  holds_lock, is_busy, is_stopping, Answered, Inv, set_online-Inv, enter-Inv, try_lock-Inv,
}
use remnaplus_alpine_node.Xray.Manager.Starting.{
  check_online-Inv, compare_hashes-Inv, lose-Inv, skip-Inv, load_core-Inv, spawn-Inv,
  unlock_start-Inv, leave-Inv, enter_stop-Inv, record_request-Inv, replace-Inv, await-Inv,
  write_request-Inv,
}
use mathlib.Core.Path.{subst}
use remnaplus_alpine_node.Xray.HashState.{initial}
use remnaplus_alpine_node.Xray.Manager.Ending.{
  leave_stop-Inv, exit_core-Inv, change_hashes-Inv, flush-Inv, write_flushed-Inv, stop-Inv,
  reap-Inv,
}

Step-Inv : (g : Generator) (a b : World) → Inv a → Step g a b → Inv b
Step-Inv g a b inv (start_enters req free) = enter-Inv req a inv free
Step-Inv g a b inv (start_tries req at) = try_lock-Inv req a inv at
Step-Inv g a b inv (start_checks req ping at) = check_online-Inv a inv g req ping at
Step-Inv g a b inv (start_compares req at) = compare_hashes-Inv a inv req at
Step-Inv g a b inv (start_loses req at) = lose-Inv a inv req at
Step-Inv g a b inv (start_skips req at) = skip-Inv a inv g req at
Step-Inv g a b inv (start_loads req loads at) = load_core-Inv a inv req loads at
Step-Inv g a b inv (start_replaces req exits at) = replace-Inv g req exits a inv at
Step-Inv g a b inv (start_spawns req starts at) = spawn-Inv a inv req starts at
Step-Inv g a b inv (start_awaits req reached exits now at) =
    await-Inv g req reached exits now a inv at
Step-Inv g a b inv (start_records req at) = record_request-Inv a inv req at
Step-Inv g a b inv (start_writes req succeeds at) = write_request-Inv req succeeds a inv at
Step-Inv g a b inv (start_unlocks answer at) = unlock_start-Inv a inv answer at
Step-Inv g a b inv (start_leaves at) = leave-Inv a inv at
Step-Inv g a b inv (stop_enters clear free) = enter_stop-Inv a inv clear free
Step-Inv g a b inv (stop_flushes at) = flush-Inv a inv at
Step-Inv g a b inv (stop_writes req succeeds at) = write_flushed-Inv req succeeds a inv at
Step-Inv g a b inv (stop_stops clear exits at) = stop-Inv clear exits a inv at
Step-Inv g a b inv (stop_leaves clear removes at) = leave_stop-Inv a inv clear removes at
Step-Inv g a b inv (core_exits id) = exit_core-Inv a inv id
Step-Inv g a b inv (core_reaped id gone) = reap-Inv id a inv gone
Step-Inv g a b inv (health_writes online) = set_online-Inv online a inv
Step-Inv g a b inv (users_change f) = change_hashes-Inv a inv f

Run-Inv : (g : Generator) (a b : World) → Inv a → Run g a b → Inv b
Run-Inv g a b inv at_rest = inv
Run-Inv g a c inv (after {b = b} r s) = Step-Inv g b c (Run-Inv g a b inv r) s

-- A manager that NewManager has made.
abbrev pub fresh : Bool → Manager
fresh disable = record {
  disable_hash_check = disable;
  lifecycle_locked = false;
  xray_online = false;
  start_processing = false;
  last_start_request = none;
  current_config = none;
  current_config_json = [];
  running_config_json = [];
  running_config_captured_at = [];
  hash_state = initial;
  process = none;
}

abbrev pub boot : Bool → Option StartRequest → World
boot disable saved = record {
  manager = fresh disable;
  starter = idle;
  stopper = not_stopping;
  cores = [];
  next_core = 0;
  persisted = saved;
}

boot-Inv : (disable : Bool) (saved : Option StartRequest) → Inv (boot disable saved)
unfolding has
boot-Inv disable saved = record {
  start_exclusive = λ h. cc;
  stop_exclusive = λ h. cc;
  processing = λ h. cc;
  sole = λ id h. cc;
  between = λ h. cc;
  configured = λ h. cc;
  answered = tt;
}

-- After any run of the calls of Start and Stop, of the monitors of the cores, of Health and of the
-- requests that change users, in any order that the locks allow and with any outcome of the calls to the
-- system: two cores that run are the same one, the manager has it as its process, and there is a
-- configuration for it to fetch.
pub Run-one_core :
    (g : Generator) (disable : Bool) (saved : Option StartRequest) (w : World)
    → Run g (boot disable saved) w
    → (i j : ℕ) → has i w.cores ≡ true
    → has j w.cores ≡ true
    → (i ≡ j) × (w.manager.process ≡ some i) × (is_some w.manager.current_config ≡ true)
Run-one_core g disable saved w run i j first second =
    let inv = Run-Inv g (boot disable saved) w (boot-Inv disable saved) run in
    let own = inv.sole i first in
    (some_same i j (sym own ∙ inv.sole j second), own, inv.configured (ap is_some own))
  where
    some_same : (a b : ℕ) → some a ≡ some b → a ≡ b
    some_same a b h = cc

-- After any such run, a call of Start that has `lifecycleMu` and a call of Stop are not under way at once:
-- the lock is taken by the one or by the other. As long as a call of Start is under way the manager
-- refuses another one.
pub Run-exclusive :
    (g : Generator) (disable : Bool) (saved : Option StartRequest) (w : World)
    → Run g (boot disable saved) w
    → ((holds_lock w.starter && is_stopping w.stopper) ≡ false)
      × ((holds_lock w.starter || is_stopping w.stopper) ≡ true → w.manager.lifecycle_locked ≡ true)
      × (is_busy w.starter ≡ true → w.manager.start_processing ≡ true)
Run-exclusive g disable saved w run =
    let inv = Run-Inv g (boot disable saved) w (boot-Inv disable saved) run in
    (
      one_holder (holds_lock w.starter) (is_stopping w.stopper) (λ h. (inv.start_exclusive h).1),
      λ h.
          held (holds_lock w.starter) (is_stopping w.stopper) w.manager.lifecycle_locked
            (λ k. (inv.start_exclusive k).0) inv.stop_exclusive h,
      inv.processing,
    )
  where
    one_holder : (a b : Bool) → (a ≡ true → b ≡ false) → (a && b) ≡ false
    one_holder a b h = ground arith

    held :
        (a b l : Bool) → (a ≡ true → l ≡ true) → (b ≡ true → l ≡ true) → (a || b) ≡ true → l ≡ true
    held a b l h k o = ground arith

-- After any such run, at the moment a call of Start answers that the core is started, its request is the
-- one on record, which Stop without `clearPersist` writes to the disk for the next boot.
pub Run-answered :
    (g : Generator) (disable : Bool) (saved : Option StartRequest) (w : World) (req : StartRequest)
    → Run g (boot disable saved) w
    → w.starter ≡ leaving (some req)
    → w.manager.last_start_request ≡ some req
Run-answered g disable saved w req run at =
    let inv = Run-Inv g (boot disable saved) w (boot-Inv disable saved) run in
    subst (λ p. Answered p w.manager.last_start_request) at inv.answered
