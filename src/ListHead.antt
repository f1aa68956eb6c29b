-- ===== src/ListHead.antt =====
-- common/list.h: the intrusive, circular, doubly linked list. A node is its address; the store
-- holds the two pointers of every `list_head`. Address 0 is the null pointer.
use thirft_proxy.Prelude.{
  ℕ, zero, suc, ◌≡◌, Bool, true, false, not, Option, none, some, List, [], ◌∷◌, ◌==◌, if◌then◌else◌,
}
pub mod Ring
pub mod Insert
pub mod Remove
pub mod Splice
pub mod Frame

pub record Links : Type 0 where
  pub next : ℕ → ℕ
  pub prev : ℕ → ℕ

abbrev pub update : (ℕ → ℕ) → ℕ → ℕ → ℕ → ℕ
update f p v q = if p == q then v else f q

-- `p->next = v` and `p->prev = v`.
abbrev pub set_next : ℕ → ℕ → Links → Links
set_next p v s = record s { next = update s.next p v }

abbrev pub set_prev : ℕ → ℕ → Links → Links
set_prev p v s = record s { prev = update s.prev p v }

unfoldable pub init_list_head : ℕ → Links → Links
init_list_head ptr s = set_prev ptr ptr (set_next ptr ptr s)

-- `__list_add`.
unfoldable pub list_add_between : ℕ → ℕ → ℕ → Links → Links
list_add_between new_entry prev next s =
    set_next prev new_entry
      (set_prev new_entry prev (set_next new_entry next (set_prev next new_entry s)))

unfoldable pub list_add : ℕ → ℕ → Links → Links
unfolding list_add_between
list_add new_entry head s = list_add_between new_entry head (s.next head) s

unfoldable pub list_add_tail : ℕ → ℕ → Links → Links
unfolding list_add_between
list_add_tail new_entry head s = list_add_between new_entry (s.prev head) head s

-- `__list_del`.
unfoldable pub list_del_between : ℕ → ℕ → Links → Links
list_del_between prev next s = set_next prev next (set_prev next prev s)

unfoldable pub list_del : ℕ → Links → Links
unfolding list_del_between
list_del entry s =
    set_prev entry 0 (set_next entry 0 (list_del_between (s.prev entry) (s.next entry) s))

unfoldable pub list_del_init : ℕ → Links → Links
unfolding list_del_between init_list_head
list_del_init entry s = init_list_head entry (list_del_between (s.prev entry) (s.next entry) s)

unfoldable pub list_move : ℕ → ℕ → Links → Links
unfolding list_del_between list_add
list_move list head s = list_add list head (list_del_between (s.prev list) (s.next list) s)

unfoldable pub list_move_tail : ℕ → ℕ → Links → Links
unfolding list_del_between list_add_tail
list_move_tail list head s =
    list_add_tail list head (list_del_between (s.prev list) (s.next list) s)

unfoldable pub list_empty : ℕ → Links → Bool
list_empty head s = s.next head == head

-- `__list_splice`: the three pointers are read before the four writes.
unfoldable pub list_splice_between : ℕ → ℕ → Links → Links
list_splice_between list head s =
    let first = s.next list in
    let last = s.prev list in
    let at = s.next head in
    set_prev at last (set_next last at (set_next head first (set_prev first head s)))

unfoldable pub list_splice : ℕ → ℕ → Links → Links
unfolding list_empty list_splice_between
list_splice list head s = if not (list_empty list s) then list_splice_between list head s else s

unfoldable pub list_splice_init : ℕ → ℕ → Links → Links
unfolding list_empty list_splice_between init_list_head
list_splice_init list head s =
    if not (list_empty list s) then init_list_head list (list_splice_between list head s) else s

abbrev visit : ℕ → Option (List ℕ) → Option (List ℕ)
visit pos none = none
visit pos (some xs) = some (pos ∷ xs)

-- `list_for_each`: the addresses that the loop visits; `none` when the fuel runs out.
unfoldable pub list_for_each : ℕ → ℕ → ℕ → Links → Option (List ℕ)
list_for_each zero pos head s = none
list_for_each (suc fuel) pos head s =
    let rest = visit pos (list_for_each fuel (s.next pos) head s) in
    if pos == head then some [] else rest
