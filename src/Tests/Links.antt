-- ===== src/Tests/Links.antt =====
-- list.h on a ring of head 10 that holds 20 and 30.
use hyu_ele.Base.{[], ◌∷◌, arith}
use hyu_ele.Links.{
  Links, list_head_init, list_add, list_add_tail, list_add_between, list_bulk_move_tail,
  list_replace,
}
use hyu_ele.Links.Ring.{IsRing}
use hyu_ele.Links.Move.{list_bulk_move_tail-IsRing}

abbrev nothing : Links
nothing = record { prev = λ _. 0; next = λ _. 0 }

abbrev two : Links
two = list_add_tail 30 10 (list_add_tail 20 10 (list_head_init 10 nothing))

abbrev two_rings : Links
two_rings = list_add 50 40 (list_head_init 40 two)

two-IsRing : IsRing two 10 (20 ∷ 30 ∷ [])
unfolding list_add_tail list_add_between list_head_init
two-IsRing = record { linked = omega arith; distinct = omega arith }

two_rings-IsRing : IsRing two_rings 10 (20 ∷ 30 ∷ [])
unfolding list_add_tail list_add list_add_between list_head_init
two_rings-IsRing = record { linked = omega arith; distinct = omega arith }

two_rings-IsRing_other : IsRing two_rings 40 (50 ∷ [])
unfolding list_add_tail list_add list_add_between list_head_init
two_rings-IsRing_other = record { linked = omega arith; distinct = omega arith }

-- list_replace puts 21 where 20 was.
replaced : IsRing (list_replace 20 21 two) 10 (21 ∷ 30 ∷ [])
unfolding list_add_tail list_add_between list_head_init list_replace
replaced = record { linked = omega arith; distinct = omega arith }

list_bulk_move_tail-IsRing_example :
    IsRing (list_bulk_move_tail 40 10 two_rings) 40 []
    × IsRing (list_bulk_move_tail 40 10 two_rings) 10 (20 ∷ 30 ∷ 50 ∷ [])
list_bulk_move_tail-IsRing_example =
    list_bulk_move_tail-IsRing 40 10 two_rings (50 ∷ []) (20 ∷ 30 ∷ []) two_rings-IsRing_other
      two_rings-IsRing (omega arith)
