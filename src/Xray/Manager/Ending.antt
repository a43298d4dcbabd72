-- ===== src/Xray/Manager/Ending.antt =====
-- The steps of a call of Stop, of a core and of the other requests keep the invariant.
use remnaplus_alpine_node.Xray.HashState.{HashState}
use remnaplus_alpine_node.Prelude.{
  ℕ, Bool, true, false, str_eq, ◌==◌, nat_eq, Option, some, none, ◌≡◌, refl, sym, ap, ◌∙◌, arith,
  nat_beq_iff,
}
use remnaplus_alpine_node.Prelude.Map.{has, has-discard}
use remnaplus_alpine_node.Xray.Manager.{
  StartRequest, World, StartPhase, StopPhase, idle, entered, locked, pinged, unreachable, skipping,
  loading, preparing, stopped, spawned, persisting, writing, leaving, released, flushing,
  flushing_request, stopping, removing, stop_process, save, flush, flush_at, write_flushed, stop,
  leave_stop, exit_core, reap, reap_at, change_hashes, forget_request,
}
use remnaplus_alpine_node.Xray.Manager.Invariant.{
  holds_lock, is_stopping, is_between, Answered, Inv, if-Inv,
}
use remnaplus_alpine_node.Xray.Manager.Stopping.{stop_process-Kept, Kept-Inv}

Answered_free :
    (phase : StartPhase) (recorded : Option StartRequest)
    → holds_lock phase ≡ false
    → Answered phase recorded
Answered_free (leaving (some req)) recorded h = cc
Answered_free (leaving none) recorded h = tt
Answered_free (writing req) recorded h = cc
Answered_free idle recorded h = tt
Answered_free released recorded h = tt
Answered_free (entered req) recorded h = tt
Answered_free (locked req) recorded h = tt
Answered_free (pinged req) recorded h = tt
Answered_free (unreachable req) recorded h = tt
Answered_free (skipping req) recorded h = tt
Answered_free (loading req) recorded h = tt
Answered_free (preparing req) recorded h = tt
Answered_free (stopped req) recorded h = tt
Answered_free (spawned req) recorded h = tt
Answered_free (persisting req) recorded h = tt

module _ (w : World) (inv : Inv w) where
  -- The steps of a call of Stop, which has the lock.
  pub stopper-Inv :
      (phase : StopPhase)
      → is_stopping w.stopper ≡ true
      → is_stopping phase ≡ true
      → Inv (record w { stopper = phase })
  stopper-Inv phase at stays = record {
    start_exclusive = λ h. absent (sym at ∙ (inv.start_exclusive h).1);
    stop_exclusive = λ h. inv.stop_exclusive at;
    processing = inv.processing;
    sole = inv.sole;
    between = inv.between;
    configured = inv.configured;
    answered = inv.answered;
  }
    where
      absent : true ≡ false → (w.manager.lifecycle_locked ≡ true) × (is_stopping phase ≡ false)
      absent h = cc

  pub save-Inv : (succeeds : Bool) (req : StartRequest) → Inv (save succeeds req w)
  unfolding save
  save-Inv succeeds req =
      if-Inv succeeds _ _
        (λ h. record {
          start_exclusive = inv.start_exclusive;
          stop_exclusive = inv.stop_exclusive;
          processing = inv.processing;
          sole = inv.sole;
          between = inv.between;
          configured = inv.configured;
          answered = inv.answered;
        })
        (λ h. inv)

  free_of_stop : is_stopping w.stopper ≡ true → holds_lock w.starter ≡ false
  free_of_stop at = ground (arith, inv.start_exclusive)

  pub leave_stop-Inv :
      (clear removes : Bool) → w.stopper ≡ removing clear → Inv (leave_stop clear removes w)
  unfolding leave_stop
  leave_stop-Inv clear removes at = record {
    start_exclusive = λ h. absent (sym h ∙ free_of_stop (rw at refl));
    stop_exclusive = λ h. cc;
    processing = inv.processing;
    sole = inv.sole;
    between = inv.between;
    configured = inv.configured;
    answered = inv.answered;
  }
    where
      absent : true ≡ false → (false ≡ true) × (false ≡ false)
      absent h = cc

  pub exit_core-Inv : (core : ℕ) → Inv (exit_core core w)
  unfolding exit_core
  exit_core-Inv core = record {
    start_exclusive = inv.start_exclusive;
    stop_exclusive = inv.stop_exclusive;
    processing = inv.processing;
    sole = λ id h. inv.sole id (ground (arith, has-discard id core w.cores));
    between = inv.between;
    configured = inv.configured;
    answered = inv.answered;
  }

  pub forget-Inv :
      (id : ℕ)
      → has id w.cores ≡ false
      → w.manager.process ≡ some id
      → Inv (record w { manager = record w.manager { process = none; xray_online = false } })
  forget-Inv core gone own = record {
    start_exclusive = inv.start_exclusive;
    stop_exclusive = inv.stop_exclusive;
    processing = inv.processing;
    sole = λ id h. none_left id h (inv.sole id h);
    between = λ h. (refl, (inv.between h).1);
    configured = λ h. cc;
    answered = inv.answered;
  }
    where
      none_left : (id : ℕ) → has id w.cores ≡ true → w.manager.process ≡ some id → none ≡ some id
      none_left id h o = ground (arith)

  pub change_hashes-Inv : (f : HashState → HashState) → Inv (change_hashes f w)
  unfolding change_hashes
  change_hashes-Inv f = record {
    start_exclusive = inv.start_exclusive;
    stop_exclusive = inv.stop_exclusive;
    processing = inv.processing;
    sole = inv.sole;
    between = inv.between;
    configured = inv.configured;
    answered = inv.answered;
  }

pub flush-Inv : (w : World) → Inv w → w.stopper ≡ flushing false → Inv (flush w)
unfolding flush
flush-Inv w inv at = flush_at-Inv w.manager.last_start_request
  where
    flush_at-Inv : (o : Option StartRequest) → Inv (flush_at o w)
    flush_at-Inv none = stopper-Inv w inv (stopping false) (rw at refl) refl
    flush_at-Inv (some req) = stopper-Inv w inv (flushing_request req) (rw at refl) refl

pub write_flushed-Inv :
    (req : StartRequest) (succeeds : Bool) (w : World)
    → Inv w
    → w.stopper ≡ flushing_request req
    → Inv (write_flushed req succeeds w)
unfolding write_flushed save
write_flushed-Inv req true w inv at =
    stopper-Inv (record w { persisted = some req }) (save-Inv w inv true req) (stopping false)
      (rw at refl) refl
write_flushed-Inv req false w inv at = stopper-Inv w inv (stopping false) (rw at refl) refl

forget_request-Inv :
    (clear : Bool) (w : World)
    → Inv w
    → is_stopping w.stopper ≡ true
    → Inv (record w { manager = forget_request clear w.manager; stopper = removing clear })
forget_request-Inv false w inv at = stopper-Inv w inv (removing false) at refl
forget_request-Inv true w inv at =
    let i = stopper-Inv w inv (removing true) at refl in
    record {
      start_exclusive = i.start_exclusive;
      stop_exclusive = i.stop_exclusive;
      processing = i.processing;
      sole = i.sole;
      between = i.between;
      configured = i.configured;
      answered = Answered_free w.starter none (free_of_stop w inv at);
    }

free_between : (phase : StartPhase) → holds_lock phase ≡ false → is_between phase ≡ false
free_between phase h = ground arith

pub stop-Inv :
    (clear exits : Bool) (w : World) → Inv w → w.stopper ≡ stopping clear → Inv (stop clear exits w)
unfolding stop
stop-Inv clear exits w inv at =
    let v = (stop_process true exits w).0 in
    let k = stop_process-Kept true exits w in
    forget_request-Inv clear v
      (Kept-Inv true w v inv k (free_between w.starter (free_of_stop w inv (rw at refl))))
      (ap is_stopping (k.stopper ∙ at))

pub reap-Inv : (id : ℕ) (w : World) → Inv w → has id w.cores ≡ false → Inv (reap id w)
unfolding reap
reap-Inv id w inv gone = reap_at-Inv w.manager.process refl
  where
    reap_at-Inv : (process : Option ℕ) → w.manager.process ≡ process → Inv (reap_at process id w)
    reap_at-Inv none own = inv
    reap_at-Inv (some other) own =
        if-Inv (other == id) _ _
          (λ same. forget-Inv w inv id gone (own ∙ ap some ((nat_beq_iff other id).0 same)))
          (λ differ. inv)
