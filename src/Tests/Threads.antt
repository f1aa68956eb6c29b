-- ===== src/Tests/Threads.antt =====
-- base/thread_pool.h with one place and the tasks 8 and 9.
use thirft_proxy.Prelude.{◌≡◌, ◌≢◌, refl, none, true, [], ◌∷◌, arith}
use thirft_proxy.ThreadPool.{
  ThreadPool, put, take, System, started, was_put, looked, took_task, Reachable, at_first,
  then_step, initial, taking, running, set_worker, start,
}
use thirft_proxy.ThreadPool.Fifo.{IsFifo, Reachable-IsFifo, put-take}

abbrev ready : System
ready = record (initial 1) { pool = start (initial 1).pool }

abbrev full_pool : ThreadPool
full_pool = record { is_running = true; queue = 8 ∷ []; max_queue_size = 1 }

-- The pool runs, and 8 fills its one place.
abbrev full : System
full = record ready { pool = full_pool; puts = 8 ∷ [] }

full-Reachable : Reachable 1 full
unfolding put
full-Reachable =
    then_step (then_step at_first started) (was_put 8 full_pool (λ e. omega (arith, e)) refl)

abbrev awake : System
awake = record full { workers = set_worker 0 taking full.workers }

-- The worker 0 took 8.
abbrev at_work : System
at_work = record awake {
  pool = record full_pool { queue = [] };
  workers = set_worker 0 (running 8) awake.workers;
  taken = 8 ∷ [];
}

at_work-Reachable : Reachable 1 at_work
unfolding take
at_work-Reachable =
    then_step (then_step full-Reachable (looked 0 refl))
      (took_task 0 8 (record full_pool { queue = [] }) refl refl)

waiting : put 9 full_pool ≡ none
unfolding put
waiting = refl

Reachable-IsFifo_example : IsFifo 1 at_work
Reachable-IsFifo_example = Reachable-IsFifo 1 at_work at_work-Reachable

put-take_run : take full_pool ≢ none
put-take_run = put-take 1 9 full full-Reachable (omega arith) waiting
