-- ===== src/Queue.antt =====
-- The intrusive linked lists of lib/lib.c: `struct Node`, `struct List` and their operations, over
-- an explicit heap. `none` is a NULL dereference or a loop that outran its fuel.
pub mod Chain
pub mod Append
pub mod Remove
pub mod Event
pub mod Search
mod Tests
use frostbite.Base.{
  ℕ, zero, suc, Bool, true, false, Option, none, some, ◌==◌, if◌then◌else◌, ℤ, eqb_ℤ,
}

abbrev pub Ptr : Type 0
Ptr = ℕ

abbrev pub null : Ptr
null = 0

-- A list node is the head of a `struct Process`; `event` is the field that `remove_evt` reads
-- through its cast.
pub record Node : Type 0 where
  pub next : Ptr
  pub event : ℤ

abbrev pub node : Ptr → ℤ → Node
node q e = record { next = q; event = e }

pub record NodeList : Type 0 where
  pub head : Ptr
  pub tail : Ptr

abbrev pub Heap : Type 0
Heap = Ptr → Option Node

unfoldable pub write : Heap → Ptr → Node → Heap
write h p n a = if a == p then some n else h a

infixl 5 ◌>>=◌
abbrev pub ◌>>=◌ : {A B : Type 0} → Option A → (A → Option B) → Option B
none >>= f = none
some a >>= f = f a

-- `*p`
pub load : Ptr → Heap → Option Node
load p h = if p == null then none else h p

-- `p->next = q`
pub set_next : Ptr → Ptr → Heap → Option Heap
unfolding load write
set_next p q h = do n ← load p h; some (write h p (record n { next = q }))

pub push_back : NodeList → Ptr → Heap → Option (Heap × NodeList)
unfolding set_next
push_back l p h =
    if l.head == null
    then (do h' ← set_next p null h; some (h', record { head = p; tail = p }))
    else (do h1 ← set_next l.tail p h; h2 ← set_next p null h1; some (h2, record l { tail = p }))

-- The list after the call, and the node (NULL if there is none).
pub pop_front : NodeList → Heap → Option (NodeList × Ptr)
unfolding load
pop_front l h =
    if l.head == null
    then some (l, null)
    else (if l.tail == l.head
        then some (record { head = null; tail = null }, l.head)
        else (do n ← load l.head h; some (record l { head = n.next }, l.head)))

-- The body of `remove` at the node that was found.
unlink : NodeList → (curr prev next : Ptr) → Heap → Option (Heap × NodeList)
unfolding set_next
unlink l curr prev next h =
    if prev == null
    then (if l.tail == curr
        then some (h, record { head = null; tail = null })
        else some (h, record l { head = next }))
    else (if l.tail == curr
        then (do h' ← set_next prev null h; some (h', record l { tail = prev }))
        else (do h' ← set_next prev next h; some (h', l)))

remove_loop : ℕ → NodeList → (p curr prev : Ptr) → Heap → Option (Heap × NodeList × Ptr)
remove_loop zero l p curr prev h = none
remove_loop (suc k) l p curr prev h = if curr == null then some (h, l, null) else (do
  n ← load curr h
  if p == curr
      then (do (h', l') ← unlink l curr prev n.next h; some (h', l', curr))
      else remove_loop k l p n.next curr h)

-- `fuel` is one more than the length of the list.
pub remove : ℕ → NodeList → Ptr → Heap → Option (Heap × NodeList × Ptr)
unfolding load unlink remove_loop
remove fuel l p h = remove_loop fuel l p l.head null h

abbrev pub front : NodeList → Ptr
front l = l.head

abbrev pub back : NodeList → Ptr
back l = l.tail

abbrev pub empty : NodeList → Bool
empty l = l.head == null

contains_loop : ℕ → (p curr : Ptr) → Heap → Option Bool
contains_loop zero p curr h = none
contains_loop (suc k) p curr h =
    if curr == null
    then some false
    else (do n ← load curr h; if p == curr then some true else contains_loop k p n.next h)

pub contains : ℕ → NodeList → Ptr → Heap → Option Bool
unfolding load contains_loop
contains fuel l p h = contains_loop fuel p l.head h

-- `find(head, node)`: the node itself, or NULL.
pub find : ℕ → (curr p : Ptr) → Heap → Option Ptr
unfolding load
find zero curr p h = none
find (suc k) curr p h =
    if curr == null
    then some null
    else (do n ← load curr h; if p == curr then some curr else find k n.next p h)

pub find_evt : ℕ → Ptr → ℤ → Heap → Option Ptr
unfolding load
find_evt zero curr event h = none
find_evt (suc k) curr event h =
    if curr == null
    then some null
    else (do n ← load curr h; if eqb_ℤ n.event event then some curr else find_evt k n.next event h)

-- The body of `remove_evt` at the node that was found.
unlink_evt : NodeList → (curr prev next : Ptr) → Heap → Option (Heap × NodeList)
unfolding set_next
unlink_evt l curr prev next h =
    if l.head == curr
    then (do h' ← set_next curr null h; some (h', record l { head = next }))
    else (do
      h1 ← set_next prev next h
      h2 ← set_next curr null h1
      some (h2, if l.tail == curr then record l { tail = prev } else l))

evt_loop : ℕ → NodeList → ℤ → (curr prev : Ptr) → Heap → Option (Heap × NodeList × Ptr)
evt_loop zero l event curr prev h = none
evt_loop (suc k) l event curr prev h = if curr == null then some (h, l, null) else (do
  n ← load curr h
  if eqb_ℤ n.event event
      then (do (h', l') ← unlink_evt l curr prev n.next h; some (h', l', curr))
      else evt_loop k l event n.next curr h)

-- Where the search begins: `*from`, unless `from` or `*from` is NULL.
abbrev start_at : NodeList → Option Ptr → Ptr
start_at l none = l.head
start_at l (some p) = if p == null then l.head else p

-- What is stored through `from` when `q` follows the result.
abbrev pub store_from : Option Ptr → Ptr → Option Ptr
store_from none q = none
store_from (some _) q = some q

-- `from` is `none` for NULL; the last part of the result is `*from` after the call.
pub remove_evt : ℕ → NodeList → Option Ptr → ℤ → Heap → Option (Heap × NodeList × Ptr × Option Ptr)
unfolding load unlink_evt evt_loop
remove_evt fuel l from event h = do
  (h', l', p) ← evt_loop fuel l event (start_at l from) null h
  q ← (if p == null then some null else (do n ← load p h'; some n.next))
  some (h', l', p, store_from from q)
