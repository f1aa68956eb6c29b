-- ===== src/Tests/Lists.antt =====
-- common/list.h on a list at 4 with the nodes 10 and 20.
use thirft_proxy.Prelude.{◌≡◌, refl, some, [], ◌∷◌, arith}
use thirft_proxy.ListHead.{
  Links, list_add, list_add_tail, list_del_init, list_for_each, list_add_between, list_del_between,
  init_list_head, list_move,
}
use thirft_proxy.ListHead.Ring.{IsRing}
use thirft_proxy.ListHead.Insert.{list_add_tail-IsRing, list_add-IsRing}
use thirft_proxy.ListHead.Remove.{list_del_init-IsRing}
use thirft_proxy.ListHead.Splice.{list_for_each_visits}

abbrev blank : Links
blank = record { next = λ a. 0; prev = λ a. 0 }

abbrev ten_twenty : Links
ten_twenty = list_add_tail 20 4 (list_add_tail 10 4 (init_list_head 4 blank))

ten_twenty-IsRing : IsRing ten_twenty 4 (10 ∷ 20 ∷ [])
unfolding init_list_head list_add_tail list_add_between
ten_twenty-IsRing = record {
  chain = (refl, refl, (refl, refl, (refl, refl)));
  distinct = omega arith;
}

moved_run :
    list_for_each 5 ((list_move 20 4 ten_twenty).next 4) 4 (list_move 20 4 ten_twenty)
    ≡ some (20 ∷ 10 ∷ [])
unfolding init_list_head list_add_tail list_add_between list_for_each list_move list_add
    list_del_between
moved_run = refl

list_add_tail-IsRing_run : IsRing (list_add_tail 30 4 ten_twenty) 4 (10 ∷ 20 ∷ 30 ∷ [])
list_add_tail-IsRing_run =
    list_add_tail-IsRing ten_twenty 30 4 (10 ∷ 20 ∷ []) (omega arith) (omega arith)
      ten_twenty-IsRing

list_add-IsRing_run : IsRing (list_add 30 4 ten_twenty) 4 (30 ∷ 10 ∷ 20 ∷ [])
list_add-IsRing_run =
    list_add-IsRing ten_twenty 30 4 (10 ∷ 20 ∷ []) (omega arith) (omega arith) ten_twenty-IsRing

list_del_init-IsRing_example :
    IsRing (list_del_init 10 ten_twenty) 4 (20 ∷ []) × IsRing (list_del_init 10 ten_twenty) 10 []
list_del_init-IsRing_example = list_del_init-IsRing ten_twenty 4 [] 10 (20 ∷ []) ten_twenty-IsRing

list_for_each_visits_run : list_for_each 3 (ten_twenty.next 4) 4 ten_twenty ≡ some (10 ∷ 20 ∷ [])
list_for_each_visits_run =
    list_for_each_visits 3 ten_twenty 4 (10 ∷ 20 ∷ []) (omega arith) ten_twenty-IsRing
