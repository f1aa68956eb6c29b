-- ===== src/Timer/Uninit.antt =====
-- `timer_uninit` deletes every event.
use thirft_proxy.Prelude.{
  ℕ, zero, suc, ◌<◌, ◌≡◌, ◌≢◌, sym, ◌∙◌, some, List, [], ◌∷◌, arith, length, All, NotIn,
}
use thirft_proxy.ListHead.{init_list_head}
use thirft_proxy.ListHead.Ring.{IsRing}
use thirft_proxy.ListHead.Remove.{list_del_init-IsRing, init_list_head-IsRing}
use thirft_proxy.Timer.{Store, success, timer_del_event, timer_uninit, uninit_loop, cleared}

module _ {F E : Type 0} (timer : ℕ) where
  unfoldable pub delete_all : List ℕ → Store F E → Store F E
  delete_all [] s = s
  delete_all (x ∷ xs) s = delete_all xs (timer_del_event x s).1

  del_first :
      (s : Store F E) (x : ℕ) (xs : List ℕ)
      → x ≢ 0
      → IsRing s.links timer (x ∷ xs)
      → IsRing (timer_del_event x s).1.links timer xs
  unfolding timer_del_event
  del_first s x xs nz r = ground (arith, (list_del_init-IsRing s.links timer [] x xs r).0)

  ring_next :
      (s t : Store F E) (x : ℕ) (xs : List ℕ)
      → IsRing s.links timer (x ∷ xs)
      → IsRing t.links timer xs
      → s.links.next x ≡ t.links.next timer
  ring_next s t x [] r q = r.chain.2.0 ∙ sym q.chain.0
  ring_next s t x (y ∷ ys) r q = r.chain.2.0 ∙ sym q.chain.0

  uninit_loop-delete_all :
      (fuel : ℕ) (s : Store F E) (xs : List ℕ)
      → IsRing s.links timer xs
      → NotIn 0 xs
      → length xs < fuel
      → uninit_loop fuel timer (s.links.next timer) (s.links.next (s.links.next timer)) s
        ≡ some (delete_all xs s)
  unfolding uninit_loop delete_all
  uninit_loop-delete_all zero s xs r o h = absurd (omega arith)
  uninit_loop-delete_all (suc fuel) s [] r o h = ground (arith, r.chain)
  uninit_loop-delete_all (suc fuel) s (x ∷ xs) r o h =
      let r' = del_first s x xs (λ e. o.0 (sym e)) r in
      let ne : x ≢ timer = λ e. r.distinct.0.0 (sym e) in
      rw (r.chain.0, ring_next s (timer_del_event x s).1 x xs r r')
        (ground
          (arith, uninit_loop-delete_all fuel (timer_del_event x s).1 xs r' o.1 (omega arith)))

  delete_all-cleared :
      (s : Store F E) (xs : List ℕ) (a : ℕ)
      → s.events a ≡ cleared
      → (delete_all xs s).events a ≡ cleared
  unfolding delete_all
  delete_all-cleared s [] a h = h
  delete_all-cleared s (x ∷ xs) a h = delete_all-cleared (timer_del_event x s).1 xs a step
    where
      step : (timer_del_event x s).1.events a ≡ cleared
      step = unfold timer_del_event in ground (arith, h)

  delete_all-All :
      (s : Store F E) (xs : List ℕ)
      → NotIn 0 xs
      → All (λ x. (delete_all xs s).events x ≡ cleared) xs
  unfolding delete_all timer_del_event
  delete_all-All s [] o = tt
  delete_all-All s (x ∷ xs) o = (
    delete_all-cleared (timer_del_event x s).1 xs x (ground (arith, o.0)),
    delete_all-All (timer_del_event x s).1 xs o.1,
  )

  -- With fuel for every event, `timer_uninit` ends with success: the list is empty, and every event
  -- that was on it has its fields cleared.
  pub timer_uninit_lem :
      (fuel : ℕ) (s : Store F E) (xs : List ℕ)
      → timer ≢ 0
      → NotIn 0 xs
      → length xs < fuel
      → IsRing s.links timer xs
      → (t : Store F E) × (timer_uninit fuel timer s ≡ some (success, t))
        × IsRing t.links timer []
        × All (λ x. t.events x ≡ cleared) xs
  unfolding timer_uninit
  timer_uninit_lem fuel s xs nz o h r = (
    record (delete_all xs s) { links = init_list_head timer (delete_all xs s).links },
    ground (arith, uninit_loop-delete_all fuel s xs r o h),
    init_list_head-IsRing _ timer,
    delete_all-All s xs o,
  )
