-- ===== src/Queue/Tests.antt =====
-- The list operations on a heap of three processes, and the theorems at it.
use frostbite.Queue.{node, Heap, remove, NodeList, remove_evt, Ptr}
use frostbite.Base.{◌≡◌, refl, none, some, List, [], ◌∷◌, arith, ◌==◌, if◌then◌else◌, ℤ, pos}
use frostbite.Queue.Remove.{Removed, remove-erase}
use frostbite.Queue.Chain.{Returns, IsQueue}

abbrev events : Ptr → ℤ
events a = if a == 5 then pos 7 else pos 9

-- Nodes 3, 5 and 8 on a list, node 4 on none.
abbrev heap : Heap
heap a =
    if a == 3
    then some (node 5 (pos 9))
    else (if a == 5
        then some (node 8 (pos 7))
        else (if a == 8
            then some (node 0 (pos 9))
            else (if a == 4 then some (node 6 (pos 9)) else none)))

abbrev list : NodeList
list = record { head = 3; tail = 8 }

abbrev slots : List Ptr
slots = 3 ∷ 5 ∷ 8 ∷ []

list-IsQueue : IsQueue events heap list slots
list-IsQueue = record {
  chain = (
    5,
    refl,
    omega arith,
    refl,
    refl,
    (8, refl, omega arith, refl, refl, (0, refl, omega arith, refl, refl, refl)),
  );
  tail_fits = refl;
}

removed_head : Returns (λ (g, l, r). (l.head ≡ 5) × (r ≡ 3)) (remove 4 list 3 heap)
unfolding remove
removed_head = (refl, refl)

-- `remove_evt` of the only node leaves `tail` at that node.
stale_tail :
    Returns
      (λ (g, l, r, f). (l.head ≡ 0) × (l.tail ≡ 8))
      (remove_evt 2 (record { head = 8; tail = 8 }) none (pos 9) heap)
unfolding remove_evt
stale_tail = (refl, refl)

remove-erase_example : Returns (Removed events 5 heap slots) (remove 4 list 5 heap)
remove-erase_example = remove-erase events 5 4 heap list slots list-IsQueue (omega arith)
