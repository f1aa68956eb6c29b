-- ===== src/Proxy/Stop.antt =====
-- `Proxy::Uninit`. `joined` says whether all workers end once the pool is stopped, so that
-- `join_all` returns; that is the workers' part. That the array of the list heads is freed is not part of the state.
use thirft_proxy.Prelude.{
  Outcome, done, fault, stuck, if◌then◌else◌, ℕ, suc, ◌<◌, ◌≡◌, refl, ap, Bool, true, false, All,
  Option, none, some, List, [], ◌∷◌, map, length, NotIn, arith,
}
use thirft_proxy.ListHead.Ring.{IsRing}
use thirft_proxy.Timer.{Code, timer_uninit, cleared}
use thirft_proxy.Timer.Uninit.{timer_uninit_lem}
use thirft_proxy.Mempool.{MemPool, mempool_destroy, unused}
use thirft_proxy.ThreadPool.{ThreadPool, stop}
use thirft_proxy.Proxy.{State, Callback, Data, set_data, timer_node, net_timer}
use thirft_proxy.Proxy.Invariant.{IsProxy}

-- The blocks that were freed, the thread pool and the state.
abbrev pub Stopped : Type 0
Stopped = List ℕ × (ThreadPool × State)

abbrev pub stop_threads : Bool → List ℕ → Option ThreadPool → State → Outcome Stopped
stop_threads joined freed none s = fault
stop_threads joined freed (some threads) s =
    if joined then done (freed, (stop threads, s)) else stuck

abbrev pub after_timer :
    Bool → List ℕ → Option ThreadPool → Option (Code × State) → Option (Outcome Stopped)
after_timer joined freed threads none = none
after_timer joined freed threads (some (code, s)) = some (stop_threads joined freed threads s)

-- `g_mempool` is null after this also when the pool stays, which has live items.
abbrev pub without_pool : State → State
without_pool s = set_data (record s.extra { mempool = none }) s

abbrev pub after_pool :
    ℕ
    → Bool
    → Option ThreadPool
    → State
    → Option (Bool × List ℕ × Option MemPool)
    → Option (Outcome Stopped)
after_pool fuel joined threads s none = none
after_pool fuel joined threads s (some (ok, freed, pool)) =
    after_timer joined freed threads (timer_uninit fuel net_timer (without_pool s))

-- The pointer to the thread pool is used without a test: it is null if `Init` failed early.
unfoldable pub uninit_proxy : ℕ → Bool → Option ThreadPool → State → Option (Outcome Stopped)
uninit_proxy fuel joined threads s =
    after_pool fuel joined threads s (mempool_destroy fuel s.extra.memory s.extra.mempool)

zero-NotIn : (ts : List ℕ) → NotIn 0 (map timer_node ts)
zero-NotIn [] = tt
zero-NotIn (t ∷ ts) = (omega arith, zero-NotIn ts)

length-map-timer_node : (ts : List ℕ) → length (map timer_node ts) ≡ length ts
length-map-timer_node [] = refl
length-map-timer_node (t ∷ ts) = ap suc (length-map-timer_node ts)

destroy_live :
    (fuel : ℕ) (s : State) (p : MemPool)
    → s.extra.mempool ≡ some p
    → unused p ≡ false
    → mempool_destroy fuel s.extra.memory s.extra.mempool ≡ some (true, [], some p)
unfolding mempool_destroy
destroy_live fuel s p e live = rw (e, live) refl

-- When requests are in flight and the workers end, `Uninit` ends, frees nothing of the memory that they lie in, and
-- leaves the timer empty with all their events cleared.
pub uninit_proxy-IsProxy :
    (fuel : ℕ) (threads : ThreadPool) (s : State) (ts : List ℕ) (fds : ℕ → List ℕ) (p : MemPool)
    → IsProxy s ts fds
    → s.extra.mempool ≡ some p
    → unused p ≡ false
    → length ts < fuel
    → (t : State) × ((uninit_proxy fuel true (some threads) s ≡ some (done ([], (stop threads, t))))
        × (IsRing t.links net_timer [] × All (λ x. t.events x ≡ cleared) (map timer_node ts)))
unfolding uninit_proxy
uninit_proxy-IsProxy fuel threads s ts fds p v e live enough =
    let (t, ended, ring, clear) =
      timer_uninit_lem {F = Callback} {E = Data} net_timer fuel (without_pool s) (map timer_node ts)
        (omega arith) (zero-NotIn ts) (omega (arith, length-map-timer_node ts)) v.timer_ring in
    (t, (rw (destroy_live fuel s p e live, ended) refl, (ring, clear)))
