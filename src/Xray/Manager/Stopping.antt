-- ===== src/Xray/Manager/Stopping.antt =====
-- What a stop of the core leaves of the manager.
use remnaplus_alpine_node.Prelude.{
  ℕ, Bool, true, false, not, ◌||◌, List, str_eq, nat_eq, Option, some, none, ◌≡◌, refl, sym, ap,
  ◌∙◌, arith, nat_beq_iff,
}
use remnaplus_alpine_node.Prelude.Map.{has, has-discard, discard, is_some}
use remnaplus_alpine_node.Xray.Manager.{World, stop_core, stop_at, stop_process, forget_running}
use remnaplus_alpine_node.Xray.Manager.Invariant.{holds_lock, is_busy, is_stopping, is_between, Inv}

-- What a stop of the core leaves as it is.
pub record Kept (clear : Bool) (w v : World) : Type 0 where
  pub starter : v.starter ≡ w.starter
  pub stopper : v.stopper ≡ w.stopper
  pub lifecycle_locked : v.manager.lifecycle_locked ≡ w.manager.lifecycle_locked
  pub start_processing : v.manager.start_processing ≡ w.manager.start_processing
  pub last_start_request : v.manager.last_start_request ≡ w.manager.last_start_request
  pub configured :
      (is_some v.manager.process ≡ true) → v.manager.current_config ≡ w.manager.current_config
  pub config : clear ≡ false → v.manager.current_config ≡ w.manager.current_config
  pub process : (is_some v.manager.process ≡ true) → v.manager.process ≡ w.manager.process
  pub sole :
      ((id : ℕ) → has id w.cores ≡ true → w.manager.process ≡ some id)
      → (id : ℕ) → has id v.cores ≡ true
      → v.manager.process ≡ some id

stop_core-sole :
    (core : ℕ) (cores : List ℕ)
    → ((id : ℕ) → has id cores ≡ true → some core ≡ some id)
    → (id : ℕ) → has id (discard core cores) ≡ true
    → none ≡ some id
stop_core-sole core cores sole id h =
    ground (arith, has-discard id core cores, nat_beq_iff core id, sole id)

stop_core-Kept :
    (ends : Bool) (core : ℕ) (clear : Bool) (w : World)
    → w.manager.process ≡ some core
    → Kept clear w (stop_core ends core clear w).0
stop_core-Kept true core false w own = record {
  starter = refl;
  stopper = refl;
  lifecycle_locked = refl;
  start_processing = refl;
  last_start_request = refl;
  configured = λ h. refl;
  config = λ h. refl;
  process = λ h. cc;
  sole = λ sole id h. stop_core-sole core w.cores (λ i k. sym own ∙ sole i k) id h;
}
stop_core-Kept true core true w own = record {
  starter = refl;
  stopper = refl;
  lifecycle_locked = refl;
  start_processing = refl;
  last_start_request = refl;
  configured = λ h. cc;
  config = λ h. cc;
  process = λ h. cc;
  sole = λ sole id h. stop_core-sole core w.cores (λ i k. sym own ∙ sole i k) id h;
}
stop_core-Kept false core clear w own = record {
  starter = refl;
  stopper = refl;
  lifecycle_locked = refl;
  start_processing = refl;
  last_start_request = refl;
  configured = λ h. refl;
  config = λ h. refl;
  process = λ h. refl;
  sole = λ sole id h. sole id h;
}

stop_at-Kept :
    (process : Option ℕ) (clear exits : Bool) (w : World)
    → w.manager.process ≡ process
    → Kept clear w (stop_at process clear exits w).0
unfolding stop_at
stop_at-Kept none false exits w own = record {
  starter = refl;
  stopper = refl;
  lifecycle_locked = refl;
  start_processing = refl;
  last_start_request = refl;
  configured = λ h. refl;
  config = λ h. refl;
  process = λ h. refl;
  sole = λ sole id h. sole id h;
}
stop_at-Kept none true exits w own = record {
  starter = refl;
  stopper = refl;
  lifecycle_locked = refl;
  start_processing = refl;
  last_start_request = refl;
  configured = λ h. cc;
  config = λ h. cc;
  process = λ h. refl;
  sole = λ sole id h. sole id h;
}
stop_at-Kept (some core) clear exits w own =
    stop_core-Kept (exits || not (has core w.cores)) core clear w own

pub stop_process-Kept :
    (clear exits : Bool) (w : World) → Kept clear w (stop_process clear exits w).0
unfolding stop_process
stop_process-Kept clear exits w =
    let k =
      stop_at-Kept w.manager.process clear exits (record w { manager = forget_running w.manager })
        refl in
    record {
      starter = k.starter;
      stopper = k.stopper;
      lifecycle_locked = k.lifecycle_locked;
      start_processing = k.start_processing;
      last_start_request = k.last_start_request;
      configured = k.configured;
      config = k.config;
      process = k.process;
      sole = k.sole;
    }

-- A stop that succeeds leaves no process.
stop_at-none :
    (process : Option ℕ) (clear exits : Bool) (w : World)
    → w.manager.process ≡ process
    → (stop_at process clear exits w).1 ≡ true
    → (stop_at process clear exits w).0.manager.process ≡ none
unfolding stop_at
stop_at-none none false exits w own h = own
stop_at-none none true exits w own h = own
stop_at-none (some core) clear exits w own h = ended (exits || not (has core w.cores)) clear h
  where
    ended :
        (ends clear : Bool)
        → (stop_core ends core clear w).1 ≡ true
        → (stop_core ends core clear w).0.manager.process ≡ none
    ended true true h = refl
    ended true false h = refl
    ended false clear h = cc

pub stop_process-none :
    (clear exits : Bool) (w : World)
    → (stop_process clear exits w).1 ≡ true
    → (stop_process clear exits w).0.manager.process ≡ none
unfolding stop_process
stop_process-none clear exits w h =
    stop_at-none w.manager.process clear exits (record w { manager = forget_running w.manager })
      refl h

pub Kept-Inv :
    (clear : Bool) (w v : World) → Inv w → Kept clear w v → is_between w.starter ≡ false → Inv v
Kept-Inv clear w v inv k no_gap = record {
  start_exclusive = λ h.
      rw k.lifecycle_locked
        (rw k.stopper (inv.start_exclusive (sym (ap holds_lock k.starter) ∙ h)));
  stop_exclusive =
      λ h. k.lifecycle_locked ∙ inv.stop_exclusive (sym (ap is_stopping k.stopper) ∙ h);
  processing = λ h. k.start_processing ∙ inv.processing (sym (ap is_busy k.starter) ∙ h);
  sole = k.sole inv.sole;
  between = λ h. gap (sym h ∙ ap is_between k.starter ∙ no_gap);
  configured =
      λ h. ap is_some (k.configured h) ∙ inv.configured (sym (ap is_some (k.process h)) ∙ h);
  answered = rw k.starter (rw k.last_start_request inv.answered);
}
  where
    gap : true ≡ false → (v.manager.process ≡ none) × (is_some v.manager.current_config ≡ true)
    gap h = cc
