-- ===== src/Links.antt =====
-- list.h: circular doubly linked lists threaded through list_head nodes, over a store of links.
-- A node is its address, and 0 is the null pointer.
pub mod Ring
pub mod Laws
pub mod Delete
pub mod Move
use hyu_ele.Base.{ℕ, Bool, ◌==◌, if◌then◌else◌, update}

-- The `prev` and `next` fields of every node.
pub record Links : Type 0 where
  pub prev : ℕ → ℕ
  pub next : ℕ → ℕ

-- `a->next = b`
unfoldable pub set_next : ℕ → ℕ → Links → Links
set_next a b m = record m { next = update m.next a b }

-- `a->prev = b`
unfoldable pub set_prev : ℕ → ℕ → Links → Links
set_prev a b m = record m { prev = update m.prev a b }

unfoldable pub list_head_init : ℕ → Links → Links
unfolding set_next set_prev
list_head_init list m = set_prev list list (set_next list list m)

unfoldable pub list_add_between : ℕ → ℕ → ℕ → Links → Links
unfolding set_next set_prev
list_add_between new prev next m =
    set_next prev new (set_prev new prev (set_next new next (set_prev next new m)))

unfoldable pub list_add : ℕ → ℕ → Links → Links
list_add new head m = list_add_between new head (m.next head) m

unfoldable pub list_add_tail : ℕ → ℕ → Links → Links
list_add_tail new head m = list_add_between new (m.prev head) head m

unfoldable pub list_add_after : ℕ → ℕ → Links → Links
list_add_after new node m = list_add_between new node (m.next node) m

unfoldable pub list_del_between : ℕ → ℕ → Links → Links
unfolding set_next set_prev
list_del_between prev next m = set_prev next prev (set_next prev next m)

unfoldable pub list_del_entry : ℕ → Links → Links
unfolding list_del_between
list_del_entry entry m = list_del_between (m.prev entry) (m.next entry) m

unfoldable pub list_del : ℕ → Links → Links
unfolding list_del_entry set_next set_prev
list_del entry m = set_next entry 0 (set_prev entry 0 (list_del_entry entry m))

-- Each statement of list_replace reads the fields that the ones before it wrote.
unfoldable pub list_replace : ℕ → ℕ → Links → Links
unfolding set_next set_prev
list_replace old new m =
    let m1 = set_next new (m.next old) m in
    let m2 = set_prev (m1.next new) new m1 in
    let m3 = set_prev new (m2.prev old) m2 in set_next (m3.prev new) new m3

abbrev pub list_empty : ℕ → Links → Bool
list_empty head m = m.next head == head

abbrev pub list_is_first : ℕ → ℕ → Links → Bool
list_is_first list head m = m.prev list == head

abbrev pub list_is_last : ℕ → ℕ → Links → Bool
list_is_last list head m = m.next list == head

abbrev pub list_is_head : ℕ → ℕ → Bool
list_is_head list head = list == head

unfoldable pub list_bulk_move_tail : ℕ → ℕ → Links → Links
unfolding set_next set_prev
list_bulk_move_tail src dst m =
    if list_empty src m
    then m
    else (let m1 = set_next (m.prev dst) (m.next src) m in
        let m2 = set_prev (m1.next src) (m1.prev dst) m1 in
        let m3 = set_next (m2.prev src) dst m2 in
        let m4 = set_prev dst (m3.prev src) m3 in set_prev src src (set_next src src m4))
