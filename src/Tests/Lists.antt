-- ===== src/Tests/Lists.antt =====
-- A doubly linked list to which elements are added at both ends.
use tcbackup.Prelude.{◌≡◌, [], ◌∷◌, arith}
use tcbackup.Dlist.{Nodes, Dlist, dlist_init, dlist_preappend, dlist_append, dlist_delete_tail}
use tcbackup.Dlist.Listed.{IsDlist, dlist_init-IsDlist}
use tcbackup.Dlist.Pushed.{dlist_preappend-IsDlist, dlist_append-IsDlist}
use tcbackup.Dlist.Popped.{dlist_delete_tail-IsDlist}

abbrev memory : Nodes
memory = record { nodes = λ p. record { element = 0; prev = 0; next = 0 }; next_free = 1 }

abbrev one : Dlist × Nodes
one = dlist_append 7 dlist_init memory

one-IsDlist : IsDlist one.1 one.0 (7 ∷ [])
one-IsDlist = dlist_append-IsDlist 7 memory dlist_init [] (dlist_init-IsDlist memory (omega arith))

abbrev two : Dlist × Nodes
two = dlist_append 8 one.0 one.1

two-IsDlist : IsDlist two.1 two.0 (7 ∷ 8 ∷ [])
two-IsDlist = dlist_append-IsDlist 8 one.1 one.0 (7 ∷ []) one-IsDlist

dlist_preappend-IsDlist_example :
    IsDlist (dlist_preappend 6 two.0 two.1).1 (dlist_preappend 6 two.0 two.1).0 (6 ∷ 7 ∷ 8 ∷ [])
dlist_preappend-IsDlist_example = dlist_preappend-IsDlist 6 two.1 two.0 (7 ∷ 8 ∷ []) two-IsDlist

dlist_delete_tail-IsDlist_example :
    ((dlist_delete_tail two.0 two.1).0 ≡ 8)
    × IsDlist (dlist_delete_tail two.0 two.1).2 (dlist_delete_tail two.0 two.1).1 (7 ∷ [])
dlist_delete_tail-IsDlist_example = dlist_delete_tail-IsDlist two.1 two.0 (7 ∷ []) 8 two-IsDlist
