-- ===== src/Xray/Manager/Tests.antt =====
-- Runs of the manager at concrete requests.
use remnaplus_alpine_node.Prelude.{
  ℕ, ◌≡◌, refl, lit, [], str_eq, str_beq, nat_eq, none, some, true, false, ◌&&◌, ◌||◌,
}
use remnaplus_alpine_node.Prelude.Map.{has, discard, is_some}
use remnaplus_alpine_node.Prelude.Json.{end, field, str}
use remnaplus_alpine_node.Xray.Manager.{
  StartRequest, Generator, World, entered, locked, loading, preparing, stopped, spawned, persisting,
  writing, leaving, enter, try_lock, lock_lifecycle, go_to, check_online, load_core, set_config,
  stop_at, stop_process, replace, spawn, await, record_request, write_request, save, exit_core,
  reap,
}
use remnaplus_alpine_node.Xray.Manager.Steps.{
  start_enters, start_tries, start_checks, start_loads, start_replaces, start_spawns, start_awaits,
  start_records, start_writes, core_exits, core_reaped, Run, at_rest, after,
}
use remnaplus_alpine_node.Xray.Manager.Invariant.{holds_lock, is_busy, is_stopping}
use remnaplus_alpine_node.Xray.Manager.Runs.{boot, Run-one_core, Run-exclusive, Run-answered}

abbrev generator : Generator
generator = record { full_config = λ f. f; warp_error = λ f. []; marshal = λ f. lit "json" }

abbrev request : StartRequest
request = record {
  internals = record {
    force_restart = false;
    hashes = record { empty_config = lit "e"; inbounds = [] };
  };
  xray_config = field (lit "log") (str (lit "x")) end;
}

abbrev w1 : World
w1 = enter request (boot false none)

run1 : Run generator (boot false none) w1
run1 = after {b = boot false none} at_rest (start_enters {w = boot false none} request refl)

at1 : w1.starter ≡ entered request
unfolding enter
at1 = refl

abbrev w2 : World
w2 = try_lock request w1

run2 : Run generator (boot false none) w2
run2 = after {b = w1} run1 (start_tries {w = w1} request at1)

at2 : w2.starter ≡ locked request
unfolding enter try_lock lock_lifecycle go_to
at2 = refl

abbrev w3 : World
w3 = check_online generator request true w2

run3 : Run generator (boot false none) w3
run3 = after {b = w2} run2 (start_checks {w = w2} request true at2)

at3 : w3.starter ≡ loading request
unfolding enter try_lock lock_lifecycle go_to check_online str_beq
at3 = refl

abbrev w4 : World
w4 = load_core request true w3

run4 : Run generator (boot false none) w4
run4 = after {b = w3} run3 (start_loads {w = w3} request true at3)

at4 : w4.starter ≡ preparing request
unfolding enter try_lock lock_lifecycle go_to check_online load_core str_beq
at4 = refl

abbrev w5 : World
w5 = replace generator request true w4

run5 : Run generator (boot false none) w5
run5 = after {b = w4} run4 (start_replaces {w = w4} request true at4)

at5 : w5.starter ≡ stopped request
unfolding enter try_lock lock_lifecycle go_to check_online load_core replace set_config stop_process
    stop_at str_beq
at5 = refl

abbrev running : World
running = spawn request true w5

run6 : Run generator (boot false none) running
run6 = after {b = w5} run5 (start_spawns {w = w5} request true at5)

at6 : running.starter ≡ spawned request
unfolding enter try_lock lock_lifecycle go_to check_online load_core replace set_config stop_process
    stop_at spawn str_beq
at6 = refl

abbrev w7 : World
w7 = await generator request true true (lit "now") running

run7 : Run generator (boot false none) w7
run7 = after {b = running} run6 (start_awaits {w = running} request true true (lit "now") at6)

at7 : w7.starter ≡ persisting request
unfolding enter try_lock lock_lifecycle go_to check_online load_core replace set_config stop_process
    stop_at spawn await str_beq
at7 = refl

abbrev w8 : World
w8 = record_request request w7

run8 : Run generator (boot false none) w8
run8 = after {b = w7} run7 (start_records {w = w7} request at7)

at8 : w8.starter ≡ writing request
unfolding enter try_lock lock_lifecycle go_to check_online load_core replace set_config stop_process
    stop_at spawn await record_request str_beq
at8 = refl

abbrev answered : World
answered = write_request request true w8

run9 : Run generator (boot false none) answered
run9 = after {b = w8} run8 (start_writes {w = w8} request true at8)

at9 : answered.starter ≡ leaving (some request)
unfolding enter try_lock lock_lifecycle go_to check_online load_core replace set_config stop_process
    stop_at spawn await record_request write_request save str_beq
at9 = refl

sole_core : has 0 running.cores ≡ true
unfolding enter try_lock lock_lifecycle go_to check_online load_core replace set_config stop_process
    stop_at spawn str_beq has
sole_core = refl

Run-one_core_example :
    (let core : ℕ = 0 in
      (core ≡ core)
      × (running.manager.process ≡ some core)
      × (is_some running.manager.current_config ≡ true))
Run-one_core_example = Run-one_core generator false none running run6 0 0 sole_core sole_core

Run-exclusive_example :
    ((holds_lock running.starter && is_stopping running.stopper) ≡ false)
    × ((holds_lock running.starter || is_stopping running.stopper) ≡ true
        → running.manager.lifecycle_locked ≡ true)
    × (is_busy running.starter ≡ true → running.manager.start_processing ≡ true)
Run-exclusive_example = Run-exclusive generator false none running run6

Run-answered_example : answered.manager.last_start_request ≡ some request
Run-answered_example = Run-answered generator false none answered request run9 at9

-- The core exits and its monitor goes first: Start then answers that a core is online which has gone.
abbrev exited : World
exited = exit_core 0 running

abbrev reaped : World
reaped = reap 0 exited

abbrev gone : World
gone = await generator request true true (lit "now") reaped

at_exited : has 0 exited.cores ≡ false
unfolding enter try_lock lock_lifecycle go_to check_online load_core replace set_config stop_process
    stop_at spawn str_beq exit_core has discard
at_exited = refl

at_reaped : reaped.starter ≡ spawned request
unfolding enter try_lock lock_lifecycle go_to check_online load_core replace set_config stop_process
    stop_at spawn str_beq exit_core reap
at_reaped = refl

to_gone : Run generator (boot false none) gone
to_gone =
    after {b = reaped}
      (after {b = exited} (after {b = running} run6 (core_exits {w = running} 0))
        (core_reaped {w = exited} 0 at_exited))
      (start_awaits {w = reaped} request true true (lit "now") at_reaped)

gone_online : (gone.manager.xray_online ≡ true) × (gone.manager.process ≡ none)
unfolding enter try_lock lock_lifecycle go_to check_online load_core replace set_config stop_process
    stop_at spawn str_beq exit_core reap await
gone_online = (refl, refl)
