-- ===== src/Links/Tests.antt =====
-- A list of libc/list.h with two nodes, at 16 and 32.
use cool_frost.Prelude.{ℕ, ◌≡◌, refl, ◌≢◌, some, [], ◌∷◌, arith}
use cool_frost.Links.{
  Nodes, list_init, list_add, list_add_tail, list_count, count_from, add_between,
}
use cool_frost.Links.Ring.{Holds, Fresh}
use cool_frost.Links.Ring.Order.{
  Reached, made, after, do_add, do_add_tail, Reached-Holds, list_count-length,
}

abbrev blank : Nodes
blank = record { next = λ _. 0; prev = λ _. 0 }

abbrev empty_list : Nodes
empty_list = list_init blank 8

abbrev one_node : Nodes
one_node = list_add empty_list 16 8

abbrev two_nodes : Nodes
two_nodes = list_add_tail one_node 32 8

counts_two : list_count 3 two_nodes 8 ≡ some 2
unfolding list_count count_from list_add_tail list_add list_init add_between
counts_two = refl

apart_8 : ◌≢◌ {A = ℕ} 16 8
apart_8 = λ e. omega arith

Fresh-16 : Fresh 16 []
unfolding Fresh
Fresh-16 = _

Fresh-32 : Fresh 32 (16 ∷ [])
unfolding Fresh
Fresh-32 = (λ e. omega arith, _)

two_Reached : Reached 8 two_nodes (16 ∷ 32 ∷ [])
two_Reached =
    after one_node (16 ∷ []) two_nodes (16 ∷ 32 ∷ [])
      (after empty_list [] one_node (16 ∷ []) (made blank)
        (do_add empty_list [] 16 apart_8 Fresh-16))
      (do_add_tail one_node (16 ∷ []) 32 (λ e. omega arith) Fresh-32)

two_Holds : Holds two_nodes 8 (16 ∷ 32 ∷ [])
two_Holds = Reached-Holds 8 two_nodes (16 ∷ 32 ∷ []) two_Reached

Reached-Holds_example : Holds two_nodes 8 (16 ∷ 32 ∷ [])
Reached-Holds_example = Reached-Holds 8 two_nodes (16 ∷ 32 ∷ []) two_Reached

list_count-length_example : list_count 3 two_nodes 8 ≡ some 2
list_count-length_example = list_count-length two_nodes 8 (16 ∷ 32 ∷ []) 3 two_Holds (omega arith)
