-- ===== src/LinkList.antt =====
-- `ListNode` and `LinkList` of src/mysql/flist.hpp: a doubly linked list with a bound on its length,
-- on a heap of nodes.
pub mod Segment
pub mod Nodes
pub mod Order
pub mod Tail
mod Tests
pub mod Detach
pub mod Clear
pub mod Head
use rellaf.Prelude.{
  ℕ, ◌+◌, ◌-◌, ◌%◌, ◌^◌, Bool, true, false, not, ◌&&◌, Option, none, some, ◌==◌, leb, if◌then◌else◌,
  ◌>>=◌, zero, suc,
}

pub record ListNode {ℓ} (T : Type ℓ) : Type ℓ where
  pub prev : Option ℕ
  pub next : Option ℕ
  pub val : T

-- The node at an address, if there is one that was not freed.
abbrev pub Heap {ℓ} : Type ℓ → Type ℓ
Heap T = ℕ → Option (ListNode T)

pub record LinkList : Type 0 where
  pub max_len : ℕ
  pub len : ℕ
  pub head : Option ℕ
  pub tail : Option ℕ

-- The list with the heap that it lives on.
pub record Store {ℓ} (T : Type ℓ) : Type ℓ where
  pub heap : Heap T
  pub list : LinkList

unfoldable pub isfull : LinkList → Bool
isfull l = not (l.max_len == 0) && leb l.max_len l.len

abbrev pub isempty : LinkList → Bool
isempty l = l.len == 0

-- `++_len` and `--_len` on a `size_t`.
abbrev pub plus_one : ℕ → ℕ
plus_one n = (n + 1) % 2 ^ 64

abbrev pub minus_one : ℕ → ℕ
minus_one n = (n + (2 ^ 64 - 1)) % 2 ^ 64

module _ {ℓ} {T : Type ℓ} where
  unfoldable pub put_node : Heap T → ℕ → ListNode T → Heap T
  put_node h p n q = if q == p then some n else h q

  -- `p->_next`, `p->_next = v` and `p->_prev = v`; `none` is a null or dangling pointer.
  unfoldable pub next_of : Heap T → Option ℕ → Option (Option ℕ)
  next_of h none = none
  next_of h (some p) = elim (h p) [ none ↦ none | some n ↦ some n.next ]

  unfoldable pub prev_of : Heap T → Option ℕ → Option (Option ℕ)
  prev_of h none = none
  prev_of h (some p) = elim (h p) [ none ↦ none | some n ↦ some n.prev ]

  unfoldable pub set_next : Option ℕ → Option ℕ → Heap T → Option (Heap T)
  set_next none v h = none
  set_next (some p) v h = elim (h p) [
    | none ↦ none
    | some n ↦ some (put_node h p (record n { next = v }))
  ]

  unfoldable pub set_prev : Option ℕ → Option ℕ → Heap T → Option (Heap T)
  set_prev none v h = none
  set_prev (some p) v h = elim (h p) [
    | none ↦ none
    | some n ↦ some (put_node h p (record n { prev = v }))
  ]

  unfoldable pub free : ℕ → Heap T → Heap T
  free p h q = if q == p then none else h q

  -- The first node: its `_next` and `_prev` are NULL.
  unfoldable pub link_first : ℕ → Store T → Option (Store T)
  link_first p s = do
    h ← set_next (some p) none s.heap
    h' ← set_prev (some p) none h
    some (record {
      heap = h';
      list = record s.list { tail = some p; head = some p; len = plus_one s.list.len };
    })

  -- A node behind `_tail`.
  unfoldable pub link_behind : ℕ → Store T → Option (Store T)
  link_behind p s = do
    h ← set_next (some p) none s.heap
    h' ← set_prev (some p) s.list.tail h
    h'' ← set_next s.list.tail (some p) h'
    t ← next_of h'' s.list.tail
    some (record { heap = h''; list = record s.list { tail = t; len = plus_one s.list.len } })

  abbrev pub link_tail : ℕ → Store T → Option (Store T)
  link_tail p s = if isempty s.list then link_first p s else link_behind p s

  abbrev with_true : Option (Store T) → Option (Bool × Store T)
  with_true none = none
  with_true (some s) = some (true, s)

  -- `bool add_tail(ListNode<T>* node)`.
  unfoldable pub add_tail_node : ℕ → Store T → Option (Bool × Store T)
  add_tail_node p s = if isfull s.list then some (false, s) else with_true (link_tail p s)

  -- `bool add_tail(T data)`; `node` is the result of the `new`.
  unfoldable pub add_tail : T → Option ℕ → Store T → Option (Bool × Store T)
  add_tail v none s = some (false, s)
  add_tail v (some p) s =
      if isfull s.list
      then some (false, s)
      else with_true (
          link_tail p
            (record s { heap = put_node s.heap p (record { prev = none; next = none; val = v }) }))

  -- `pop_head` of a list of two nodes or more.
  unfoldable pub pop_front : Store T → Option (Option ℕ × Store T)
  pop_front s = do
    second ← next_of s.heap s.list.head
    h ← set_prev second none s.heap
    some (
      s.list.head,
      record { heap = h; list = record s.list { head = second; len = minus_one s.list.len } },
    )

  -- The list without its only node.
  abbrev pub emptied : Store T → Store T
  emptied s = record s {
    list = record s.list { head = none; tail = none; len = minus_one s.list.len };
  }

  unfoldable pub pop_head : Store T → Option (Option ℕ × Store T)
  pop_head s =
      if isempty s.list
      then some (none, s)
      else if s.list.len == 1
      then some (s.list.head, emptied s)
      else pop_front s

  -- The three cases of `detach`, by what `p` has as `_prev` and `_next`.
  unfoldable pub unlink : Option ℕ → Option ℕ → Store T → Option (Store T)
  unlink none next s = do
    h ← set_prev next none s.heap
    some (record { heap = h; list = record s.list { head = next } })
  unlink (some q) none s = do
    h ← set_next (some q) none s.heap
    some (record { heap = h; list = record s.list { tail = some q } })
  unlink (some q) (some r) s = do
    h ← set_prev (some r) (some q) s.heap
    h' ← set_next (some q) (some r) h
    some (record s { heap = h' })

  -- `detach` in a list that has not just one node.
  unfoldable pub detach_one : ℕ → Store T → Option (Store T)
  detach_one p s = do
    prev ← prev_of s.heap (some p)
    next ← next_of s.heap (some p)
    t ← unlink prev next s
    some (record t { list = record t.list { len = minus_one t.list.len } })

  unfoldable pub detach : ℕ → Store T → Option (Store T)
  detach p s = if s.list.len == 1 then some (emptied s) else detach_one p s

  -- The loop of `clear`: `i` rounds from the node `p`.
  unfoldable pub clear_loop : ℕ → Option ℕ → Heap T → Option (Heap T)
  clear_loop zero p h = some h
  clear_loop (suc i) none h = none
  clear_loop (suc i) (some p) h = do n ← next_of h (some p); clear_loop i n (free p h)

  -- `clear` leaves `_head` and `_tail` as they are.
  unfoldable pub clear : Store T → Option (Store T)
  clear s = do
    h ← clear_loop s.list.len s.list.head s.heap
    some (record { heap = h; list = record s.list { len = 0 } })
