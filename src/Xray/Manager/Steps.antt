-- ===== src/Xray/Manager/Steps.antt =====
-- The steps of the manager's callers, in any order that the locks allow.
use remnaplus_alpine_node.Prelude.Map.{has}
use remnaplus_alpine_node.Prelude.{ℕ, Bool, false, Str, Option, ◌≡◌, nat_eq}
use remnaplus_alpine_node.Prelude.Map.{has}
use remnaplus_alpine_node.Xray.HashState.{HashState}
use remnaplus_alpine_node.Xray.Manager.{
  StartRequest, Generator, World, entered, locked, pinged, unreachable, skipping, loading,
  preparing, stopped, spawned, persisting, writing, leaving, released, flushing, flushing_request,
  stopping, removing, enter, try_lock, check_online, compare_hashes, go_to, set_online, skip,
  load_core, replace, spawn, await, record_request, write_request, unlock_start, leave, enter_stop,
  flush, write_flushed, stop, leave_stop, exit_core, reap, change_hashes,
}

-- One goroutine goes on. A call of Start that is refused at once changes nothing and is no step.
pub data Step (g : Generator) : World → World → Type 0 where
  start_enters :
      {w : World} (req : StartRequest) → w.manager.start_processing ≡ false → Step g w (enter req w)
  start_tries :
      {w : World} (req : StartRequest) → w.starter ≡ entered req → Step g w (try_lock req w)
  start_checks :
      {w : World} (req : StartRequest) (ping : Bool)
      → w.starter ≡ locked req
      → Step g w (check_online g req ping w)
  start_compares :
      {w : World} (req : StartRequest) → w.starter ≡ pinged req → Step g w (compare_hashes req w)
  start_loses :
      {w : World} (req : StartRequest)
      → w.starter ≡ unreachable req
      → Step g w (go_to (loading req) (set_online false w))
  start_skips :
      {w : World} (req : StartRequest) → w.starter ≡ skipping req → Step g w (skip g req w)
  start_loads :
      {w : World} (req : StartRequest) (loads : Bool)
      → w.starter ≡ loading req
      → Step g w (load_core req loads w)
  start_replaces :
      {w : World} (req : StartRequest) (exits : Bool)
      → w.starter ≡ preparing req
      → Step g w (replace g req exits w)
  start_spawns :
      {w : World} (req : StartRequest) (starts : Bool)
      → w.starter ≡ stopped req
      → Step g w (spawn req starts w)
  start_awaits :
      {w : World} (req : StartRequest) (reached exits : Bool) (now : Str)
      → w.starter ≡ spawned req
      → Step g w (await g req reached exits now w)
  start_records :
      {w : World} (req : StartRequest)
      → w.starter ≡ persisting req
      → Step g w (record_request req w)
  start_writes :
      {w : World} (req : StartRequest) (succeeds : Bool)
      → w.starter ≡ writing req
      → Step g w (write_request req succeeds w)
  start_unlocks :
      {w : World} (answer : Option StartRequest)
      → w.starter ≡ leaving answer
      → Step g w (unlock_start w)
  start_leaves : {w : World} → w.starter ≡ released → Step g w (leave w)
  stop_enters :
      {w : World} (clear : Bool)
      → w.manager.lifecycle_locked ≡ false
      → Step g w (enter_stop clear w)
  stop_flushes : {w : World} → w.stopper ≡ flushing false → Step g w (flush w)
  stop_writes :
      {w : World} (req : StartRequest) (succeeds : Bool)
      → w.stopper ≡ flushing_request req
      → Step g w (write_flushed req succeeds w)
  stop_stops :
      {w : World} (clear exits : Bool) → w.stopper ≡ stopping clear → Step g w (stop clear exits w)
  stop_leaves :
      {w : World} (clear removes : Bool)
      → w.stopper ≡ removing clear
      → Step g w (leave_stop clear removes w)
  core_exits : {w : World} (id : ℕ) → Step g w (exit_core id w)
  core_reaped : {w : World} (id : ℕ) → has id w.cores ≡ false → Step g w (reap id w)
  health_writes : {w : World} (online : Bool) → Step g w (set_online online w)
  users_change : {w : World} (f : HashState → HashState) → Step g w (change_hashes f w)

pub data Run (g : Generator) : World → World → Type 0 where
  at_rest : {w : World} → Run g w w
  after : {a b c : World} → Run g a b → Step g b c → Run g a c
