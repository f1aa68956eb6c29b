-- ===== src/ThreadPool.antt =====
-- base/thread_pool.h: the bounded queue between the network thread and the workers. A task is a
-- client's address, and 0 is null. What a thread does under the mutex is one step, and so is a
-- worker's look at `is_running_`, which takes no lock. The threads themselves are the system's.
use thirft_proxy.Prelude.{
  ℕ, ◌≡◌, ◌≢◌, Bool, true, false, Option, none, some, List, [], ◌∷◌, ◌++◌, ◌==◌, length,
  if◌then◌else◌,
}
pub mod Fifo

pub record ThreadPool : Type 0 where
  pub is_running : Bool
  pub queue : List ℕ
  pub max_queue_size : ℕ

abbrev pub is_full : ThreadPool → Bool
is_full p = length p.queue == p.max_queue_size

-- The constructor: 20 places.
abbrev pub make_thread_pool : ThreadPool
make_thread_pool = record { is_running = false; queue = []; max_queue_size = 20 }

abbrev pub set_max_queue_size : ℕ → ThreadPool → ThreadPool
set_max_queue_size max_size p = record p { max_queue_size = max_size }

abbrev pub start : ThreadPool → ThreadPool
start p = record p { is_running = true }

abbrev pub stop : ThreadPool → ThreadPool
stop p = record p { is_running = false }

-- `none` while the caller waits for `cond_put_`.
unfoldable pub put : ℕ → ThreadPool → Option ThreadPool
put t p = if is_full p then none else some (record p { queue = p.queue ++ t ∷ [] })

abbrev pub front : List ℕ → ThreadPool → Option (ℕ × ThreadPool)
front [] p = if p.is_running then none else some (0, p)
front (t ∷ ts) p = some (t, record p { queue = ts })

-- `none` while the caller waits for `cond_get_`.
unfoldable pub take : ThreadPool → Option (ℕ × ThreadPool)
take p = front p.queue p

-- Where a worker is in `runInThread`.
pub data Worker : Type 0 where
  looping taking exited : Worker
  running : ℕ → Worker

abbrev pub set_worker : ℕ → Worker → (ℕ → Worker) → ℕ → Worker
set_worker i w ws j = if i == j then w else ws j

abbrev pub look : Bool → Worker
look is_running = if is_running then taking else exited

abbrev pub handed : ℕ → Worker
handed t = if t == 0 then looping else running t

-- A pool with its workers, what was put into it, and what the workers took and have run, each in
-- its order.
pub record System : Type 0 where
  pub pool : ThreadPool
  pub workers : ℕ → Worker
  pub puts : List ℕ
  pub taken : List ℕ
  pub ran : List ℕ

abbrev pub took : ℕ → List ℕ → List ℕ
took t ts = if t == 0 then ts else ts ++ t ∷ []

-- One step of one thread; `i` is the worker.
pub data Step : System → System → Type 0 where
  started : {s : System} → Step s (record s { pool = start s.pool })
  stopped : {s : System} → Step s (record s { pool = stop s.pool })
  was_put :
      {s : System} (t : ℕ) (q : ThreadPool)
      → t ≢ 0
      → put t s.pool ≡ some q
      → Step s (record s { pool = q; puts = s.puts ++ t ∷ [] })
  looked :
      {s : System} (i : ℕ)
      → s.workers i ≡ looping
      → Step s (record s { workers = set_worker i (look s.pool.is_running) s.workers })
  took_task :
      {s : System} (i t : ℕ) (q : ThreadPool)
      → s.workers i ≡ taking
      → take s.pool ≡ some (t, q)
      → Step s (record s {
        pool = q;
        workers = set_worker i (handed t) s.workers;
        taken = took t s.taken;
      })
  ran_task :
      {s : System} (i t : ℕ)
      → s.workers i ≡ running t
      → Step s (record s { workers = set_worker i looping s.workers; ran = s.ran ++ t ∷ [] })

-- The constructor's pool, with its size set, and workers before their first look.
abbrev pub initial : ℕ → System
initial max = record {
  pool = set_max_queue_size max make_thread_pool;
  workers = λ i. looping;
  puts = [];
  taken = [];
  ran = [];
}

pub data Reachable (max : ℕ) : System → Type 0 where
  at_first : Reachable max (initial max)
  then_step : {s t : System} → Reachable max s → Step s t → Reachable max t
