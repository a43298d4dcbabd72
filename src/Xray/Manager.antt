-- ===== src/Xray/Manager.antt =====
-- internal/xray/manager.go and persist.go: the life of the managed core. Each function is what one
-- goroutine does between two points where another one may run: while it holds `m.mu`, or in one
-- operation on the file system, the core or the gRPC service.
pub mod Steps
pub mod Saved
pub mod Invariant
pub mod Stopping
pub mod Ending
pub mod Starting
pub mod Runs
mod Tests
use remnaplus_alpine_node.Prelude.{
  ℕ, suc, Bool, true, false, not, ◌&&◌, ◌||◌, List, [], ◌∷◌, if◌then◌else◌, Str, str_eq, ◌==◌,
  nat_eq, lit, Option, some, none,
}
use remnaplus_alpine_node.Prelude.Map.{has, discard, is_some}
use remnaplus_alpine_node.Prelude.Json.{Fields}
use remnaplus_alpine_node.Xray.HashState.{
  HashState, ConfigHash, extract_users_from_config, is_need_restart_core, clear_hash_state,
  clear_inbound_tags,
}

pub record StartInternals : Type 0 where
  pub force_restart : Bool
  pub hashes : ConfigHash

pub record StartRequest : Type 0 where
  pub internals : StartInternals
  pub xray_config : Fields

-- What makes the full configuration: generateAPIConfig with configureManagedLogPaths, its complaint
-- about a WARP outbound, and json.Marshal.
pub record Generator : Type 0 where
  pub full_config : Fields → Fields
  pub warp_error : Fields → Str
  pub marshal : Fields → Str

-- Left out: what stays as NewManager sets it but for `disable_hash_check`, the version, and the torrent
-- blocker.
pub record Manager : Type 0 where
  pub disable_hash_check : Bool
  pub lifecycle_locked : Bool
  pub xray_online : Bool
  pub start_processing : Bool
  pub last_start_request : Option StartRequest
  pub current_config : Option Fields
  pub current_config_json : Str
  pub running_config_json : Str
  pub running_config_captured_at : Str
  pub hash_state : HashState
  pub process : Option ℕ

-- How far a call of Start is; `leaving` has the request where it answers that the core is started.
pub data StartPhase : Type 0 where
  idle released : StartPhase
  entered locked pinged unreachable skipping loading preparing stopped spawned persisting writing :
      StartRequest → StartPhase
  leaving : Option StartRequest → StartPhase

-- How far a call of Stop is; the argument is `clearPersist`.
pub data StopPhase : Type 0 where
  not_stopping : StopPhase
  flushing stopping removing : Bool → StopPhase
  flushing_request : StartRequest → StopPhase

-- The manager with its callers, the cores that run, and last-start.json.
pub record World : Type 0 where
  pub manager : Manager
  pub starter : StartPhase
  pub stopper : StopPhase
  pub cores : List ℕ
  pub next_core : ℕ
  pub persisted : Option StartRequest

unfoldable pub set_online : Bool → World → World
set_online online w = record w { manager = record w.manager { xray_online = online } }

unfoldable pub go_to : StartPhase → World → World
go_to phase w = record w { starter = phase }

-- Start

unfoldable pub enter : StartRequest → World → World
enter req w = record w {
  manager = record w.manager { start_processing = true };
  starter = entered req;
}

unfoldable pub lock_lifecycle : World → World
lock_lifecycle w = record w { manager = record w.manager { lifecycle_locked = true } }

-- `TryLock`, after which only the deferred reset of `startProcessing` is left where it fails.
unfoldable pub try_lock : StartRequest → World → World
try_lock req w =
    if w.manager.lifecycle_locked then go_to released w else go_to (locked req) (lock_lifecycle w)

-- Whether the core that runs may do, with the answer of PingXrayGRPC.
unfoldable pub check_online : Generator → StartRequest → Bool → World → World
check_online g req ping w =
    if not (g.warp_error req.xray_config == [])
    then go_to (leaving none) w
    else if w.manager.xray_online
        && not w.manager.disable_hash_check
        && not req.internals.force_restart
    then (if ping then go_to (pinged req) w else go_to (unreachable req) w)
    else go_to (loading req) w

unfoldable pub compare_hashes : StartRequest → World → World
compare_hashes req w =
    if is_need_restart_core w.manager.hash_state req.internals.hashes
    then go_to (loading req) w
    else go_to (skipping req) w

unfoldable pub set_config : Generator → StartRequest → World → World
set_config g req w =
    let full = g.full_config req.xray_config in
    record w {
      manager = record w.manager {
        current_config = some full;
        current_config_json = g.marshal full;
        hash_state = extract_users_from_config w.manager.hash_state req.internals.hashes full;
      };
    }

unfoldable pub skip : Generator → StartRequest → World → World
skip g req w = go_to (persisting req) (set_config g req w)

-- coreLoader.prepare
unfoldable pub load_core : StartRequest → Bool → World → World
load_core req loads w = if loads then go_to (preparing req) w else go_to (leaving none) w

abbrev pub clear_config : Bool → Manager → Manager
clear_config false m = m
clear_config true m = record m { current_config = none; current_config_json = [] }

abbrev pub clear_hashes : Bool → Manager → Manager
clear_hashes false m = m
clear_hashes true m = record m { hash_state = clear_inbound_tags (clear_hash_state m.hash_state) }

abbrev pub forget_running : Manager → Manager
forget_running m = record m { running_config_json = []; running_config_captured_at = [] }

-- stopProcessLocked; `exits` tells whether the core exits before the timeouts, where it still runs.
abbrev pub stop_core : Bool → ℕ → Bool → World → World × Bool
stop_core true id clear w = (
  record w {
    manager =
        clear_hashes clear
          (clear_config clear (record w.manager { process = none; xray_online = false }));
    cores = discard id w.cores;
  },
  true,
)
stop_core false id clear w = (w, false)

unfoldable pub stop_at : Option ℕ → Bool → Bool → World → World × Bool
stop_at none clear exits w =
    (record w { manager = clear_config clear (record w.manager { xray_online = false }) }, true)
stop_at (some id) clear exits w = stop_core (exits || not (has id w.cores)) id clear w

unfoldable pub stop_process : Bool → Bool → World → World × Bool
stop_process clear exits w =
    stop_at w.manager.process clear exits (record w { manager = forget_running w.manager })

abbrev pub replaced : StartRequest → World × Bool → World
replaced req (w, true) = go_to (stopped req) w
replaced req (w, false) = go_to (leaving none) w

unfoldable pub replace : Generator → StartRequest → Bool → World → World
replace g req exits w = replaced req (stop_process false exits (set_config g req w))

-- startProcessLocked and what follows it under the same lock.
unfoldable pub spawn : StartRequest → Bool → World → World
spawn req starts w =
    if starts
    then record w {
      manager = record w.manager { process = some w.next_core; xray_online = false };
      starter = spawned req;
      cores = w.next_core ∷ w.cores;
      next_core = suc w.next_core;
    }
    else go_to (leaving none) (set_online false w)

-- After waitForGRPC, at the time `now`.
unfoldable pub await : Generator → StartRequest → Bool → Bool → Str → World → World
await g req reached exits now w =
    if reached
    then record w {
      manager = record w.manager {
        xray_online = true;
        running_config_json = g.marshal (g.full_config req.xray_config);
        running_config_captured_at = now;
      };
      starter = persisting req;
    }
    else go_to (leaving none) (set_online false (stop_process false exits w).0)

unfoldable pub record_request : StartRequest → World → World
record_request req w = record w {
  manager = record w.manager { last_start_request = some req };
  starter = writing req;
}

-- savePersistedStart
unfoldable pub save : Bool → StartRequest → World → World
save succeeds req w = if succeeds then record w { persisted = some req } else w

unfoldable pub write_request : StartRequest → Bool → World → World
write_request req succeeds w = go_to (leaving (some req)) (save succeeds req w)

unfoldable pub unlock_start : World → World
unlock_start w = record w {
  manager = record w.manager { lifecycle_locked = false };
  starter = released;
}

unfoldable pub leave : World → World
leave w = record w { manager = record w.manager { start_processing = false }; starter = idle }

-- Stop

unfoldable pub enter_stop : Bool → World → World
enter_stop clear w = record (lock_lifecycle w) {
  stopper = if clear then stopping true else flushing false;
}

abbrev pub flush_at : Option StartRequest → World → World
flush_at none w = record w { stopper = stopping false }
flush_at (some req) w = record w { stopper = flushing_request req }

-- flushPersistedStart reads the request, then writes it.
unfoldable pub flush : World → World
flush w = flush_at w.manager.last_start_request w

unfoldable pub write_flushed : StartRequest → Bool → World → World
write_flushed req succeeds w = record (save succeeds req w) { stopper = stopping false }

abbrev pub forget_request : Bool → Manager → Manager
forget_request clear m = if clear then record m { last_start_request = none } else m

unfoldable pub stop : Bool → Bool → World → World
stop clear exits w =
    let after = (stop_process true exits w).0 in
    record after { manager = forget_request clear after.manager; stopper = removing clear }

-- clearPersistedStart where it is called, and the unlocking.
unfoldable pub leave_stop : Bool → Bool → World → World
leave_stop clear removes w = record w {
  manager = record w.manager { lifecycle_locked = false };
  stopper = not_stopping;
  persisted = if clear && removes then none else w.persisted;
}

-- The core and its monitor, Health, and the requests that change users

unfoldable pub exit_core : ℕ → World → World
exit_core id w = record w { cores = discard id w.cores }

abbrev pub reap_at : Option ℕ → ℕ → World → World
reap_at none id w = w
reap_at (some other) id w =
    if other == id
    then record w { manager = record w.manager { process = none; xray_online = false } }
    else w

-- The end of monitorProcess.
unfoldable pub reap : ℕ → World → World
reap id w = reap_at w.manager.process id w

unfoldable pub change_hashes : (HashState → HashState) → World → World
change_hashes f w = record w { manager = record w.manager { hash_state = f w.manager.hash_state } }
