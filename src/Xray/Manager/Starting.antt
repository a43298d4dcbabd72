-- ===== src/Xray/Manager/Starting.antt =====
-- The steps of a call of Start keep the invariant.
use remnaplus_alpine_node.Xray.HashState.{is_need_restart_core}
use remnaplus_alpine_node.Prelude.{
  ℕ, Bool, true, false, not, ◌&&◌, [], ◌∷◌, if◌then◌else◌, Str, str_eq, ◌==◌, nat_eq, Option, some,
  none, ◌≡◌, refl, sym, ap, ◌∙◌, arith, nat_beq_iff,
}
use remnaplus_alpine_node.Prelude.Map.{has, is_some}
use remnaplus_alpine_node.Xray.Manager.{
  StartRequest, Generator, World, StartPhase, locked, pinged, unreachable, skipping, loading,
  preparing, stopped, spawned, persisting, writing, leaving, released, flushing, stopping,
  lock_lifecycle, check_online, compare_hashes, go_to, set_online, set_config, skip, load_core,
  replace, replaced, stop_process, spawn, await, record_request, write_request, save, unlock_start,
  leave, enter_stop,
}
use remnaplus_alpine_node.Xray.Manager.Invariant.{
  holds_lock, holds_busy, is_stopping, Answered, Inv, go_to-Inv, set_online-Inv, if-Inv,
  set_config-Inv,
}
use remnaplus_alpine_node.Xray.Manager.Stopping.{stop_process-Kept, stop_process-none, Kept-Inv}
use mathlib.Core.Path.{subst}
use remnaplus_alpine_node.Xray.Manager.Ending.{save-Inv}

module _ (w : World) (inv : Inv w) where
  pub check_online-Inv :
      (g : Generator) (req : StartRequest) (ping : Bool)
      → w.starter ≡ locked req
      → Inv (check_online g req ping w)
  unfolding check_online
  check_online-Inv g req ping at =
      let holds : holds_lock w.starter ≡ true = rw at refl in
      if-Inv (not (g.warp_error req.xray_config == [])) _ _
        (λ refused. go_to-Inv (leaving none) w inv holds refl tt)
        (λ accepted.
          if-Inv
            (w.manager.xray_online
              && not w.manager.disable_hash_check
              && not req.internals.force_restart)
            _ _
            (λ running.
              if-Inv ping _ _ (λ reached. go_to-Inv (pinged req) w inv holds refl tt)
                (λ silent. go_to-Inv (unreachable req) w inv holds refl tt))
            (λ other. go_to-Inv (loading req) w inv holds refl tt))

  pub compare_hashes-Inv :
      (req : StartRequest) → w.starter ≡ pinged req → Inv (compare_hashes req w)
  unfolding compare_hashes
  compare_hashes-Inv req at =
      let holds : holds_lock w.starter ≡ true = rw at refl in
      if-Inv (is_need_restart_core w.manager.hash_state req.internals.hashes) _ _
        (λ differ. go_to-Inv (loading req) w inv holds refl tt)
        (λ same. go_to-Inv (skipping req) w inv holds refl tt)

  pub lose-Inv :
      (req : StartRequest)
      → w.starter ≡ unreachable req
      → Inv (go_to (loading req) (set_online false w))
  unfolding set_online
  lose-Inv req at =
      go_to-Inv (loading req) (set_online false w) (set_online-Inv false w inv) (rw at refl) refl tt

  pub skip-Inv :
      (g : Generator) (req : StartRequest) → w.starter ≡ skipping req → Inv (skip g req w)
  unfolding skip set_config
  skip-Inv g req at =
      go_to-Inv (persisting req) (set_config g req w) (set_config-Inv g req w inv) (rw at refl) refl
        tt

  pub load_core-Inv :
      (req : StartRequest) (loads : Bool) → w.starter ≡ loading req → Inv (load_core req loads w)
  unfolding load_core
  load_core-Inv req loads at =
      if-Inv loads _ _ (λ h. go_to-Inv (preparing req) w inv (rw at refl) refl tt)
        (λ h. go_to-Inv (leaving none) w inv (rw at refl) refl tt)

  pub spawn-Inv :
      (req : StartRequest) (starts : Bool) → w.starter ≡ stopped req → Inv (spawn req starts w)
  unfolding spawn set_online has
  spawn-Inv req starts at =
      if-Inv starts _ _
        (λ h. record {
          start_exclusive = λ k. inv.start_exclusive (rw at refl);
          stop_exclusive = inv.stop_exclusive;
          processing = λ k. inv.processing (rw at refl);
          sole = λ id k. only id k (inv.sole id);
          between = λ k. cc;
          configured = λ k. (inv.between (rw at refl)).1;
          answered = tt;
        })
        (λ h.
          go_to-Inv (leaving none) (set_online false w) (set_online-Inv false w inv) (rw at refl)
            refl tt)
    where
      gone : w.manager.process ≡ none
      gone = (inv.between (rw at refl)).0

      only :
          (id : ℕ)
          → has id (w.next_core ∷ w.cores) ≡ true
          → (has id w.cores ≡ true → w.manager.process ≡ some id)
          → some w.next_core ≡ some id
      only id k sole = ground (arith, nat_beq_iff w.next_core id)

  pub unlock_start-Inv :
      (answer : Option StartRequest) → w.starter ≡ leaving answer → Inv (unlock_start w)
  unfolding unlock_start
  unlock_start-Inv answer at = record {
    start_exclusive = λ h. cc;
    stop_exclusive = λ h. absent (sym h ∙ (inv.start_exclusive (rw at refl)).1);
    processing = λ h. inv.processing (rw at refl);
    sole = inv.sole;
    between = λ h. cc;
    configured = inv.configured;
    answered = tt;
  }
    where
      absent : true ≡ false → false ≡ true
      absent h = sym h

  pub leave-Inv : w.starter ≡ released → Inv (leave w)
  unfolding leave
  leave-Inv at = record {
    start_exclusive = λ h. cc;
    stop_exclusive = inv.stop_exclusive;
    processing = λ h. cc;
    sole = inv.sole;
    between = λ h. cc;
    configured = inv.configured;
    answered = tt;
  }

  pub enter_stop-Inv :
      (clear : Bool) → w.manager.lifecycle_locked ≡ false → Inv (enter_stop clear w)
  unfolding enter_stop lock_lifecycle
  enter_stop-Inv clear free = record {
    start_exclusive = λ h. absurd_lock (sym free ∙ (inv.start_exclusive h).0);
    stop_exclusive = λ h. refl;
    processing = inv.processing;
    sole = inv.sole;
    between = inv.between;
    configured = inv.configured;
    answered = inv.answered;
  }
    where
      absurd_lock :
          false ≡ true
          → (true ≡ true) × (is_stopping (if clear then stopping true else flushing false) ≡ false)
      absurd_lock h = cc

  pub record_request-Inv :
      (req : StartRequest) → w.starter ≡ persisting req → Inv (record_request req w)
  unfolding record_request
  record_request-Inv req at = record {
    start_exclusive = λ h. inv.start_exclusive (rw at refl);
    stop_exclusive = inv.stop_exclusive;
    processing = λ h. inv.processing (rw at refl);
    sole = inv.sole;
    between = λ h. cc;
    configured = inv.configured;
    answered = refl;
  }

replaced-Inv :
    (req : StartRequest) (v : World) (ok : Bool)
    → Inv v
    → holds_lock v.starter ≡ true
    → (ok ≡ true → v.manager.process ≡ none)
    → is_some v.manager.current_config ≡ true
    → Inv (replaced req (v, ok))
unfolding go_to
replaced-Inv req v true inv holds ended config = record {
  start_exclusive = λ h. inv.start_exclusive holds;
  stop_exclusive = inv.stop_exclusive;
  processing = λ h. inv.processing (holds_busy v.starter holds);
  sole = inv.sole;
  between = λ h. (ended refl, config);
  configured = inv.configured;
  answered = tt;
}
replaced-Inv req v false inv holds ended config = go_to-Inv (leaving none) v inv holds refl tt

pub replace-Inv :
    (g : Generator) (req : StartRequest) (exits : Bool) (w : World)
    → Inv w
    → w.starter ≡ preparing req
    → Inv (replace g req exits w)
unfolding replace set_config
replace-Inv g req exits w inv at =
    let set = set_config g req w in
    let v = stop_process false exits set in
    let k = stop_process-Kept false exits set in
    replaced-Inv req v.0 v.1 (Kept-Inv false set v.0 (set_config-Inv g req w inv) k (rw at refl))
      (ap holds_lock (k.starter ∙ at)) (stop_process-none false exits set)
      (ap is_some (k.config refl))

pub await-Inv :
    (g : Generator) (req : StartRequest) (reached exits : Bool) (now : Str) (w : World)
    → Inv w
    → w.starter ≡ spawned req
    → Inv (await g req reached exits now w)
unfolding await set_online
await-Inv g req reached exits now w inv at =
    let v = (stop_process false exits w).0 in
    let k = stop_process-Kept false exits w in
    if-Inv reached _ _
      (λ h. record {
        start_exclusive = λ k. inv.start_exclusive (rw at refl);
        stop_exclusive = inv.stop_exclusive;
        processing = λ k. inv.processing (rw at refl);
        sole = inv.sole;
        between = λ k. cc;
        configured = inv.configured;
        answered = tt;
      })
      (λ h.
        go_to-Inv (leaving none) (set_online false v)
          (set_online-Inv false v (Kept-Inv false w v inv k (rw at refl)))
          (ap holds_lock (k.starter ∙ at)) refl tt)

recorded_of :
    (phase : StartPhase) (req : StartRequest) (recorded : Option StartRequest)
    → phase ≡ writing req
    → Answered phase recorded
    → recorded ≡ some req
recorded_of phase req recorded at h = subst (λ p. Answered p recorded) at h

pub write_request-Inv :
    (req : StartRequest) (succeeds : Bool) (w : World)
    → Inv w
    → w.starter ≡ writing req
    → Inv (write_request req succeeds w)
unfolding write_request save
write_request-Inv req true w inv at =
    go_to-Inv (leaving (some req)) (record w { persisted = some req }) (save-Inv w inv true req)
      (rw at refl) refl (recorded_of w.starter req w.manager.last_start_request at inv.answered)
write_request-Inv req false w inv at =
    go_to-Inv (leaving (some req)) w inv (rw at refl) refl
      (recorded_of w.starter req w.manager.last_start_request at inv.answered)
