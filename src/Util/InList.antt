-- ===== src/Util/InList.antt =====
-- `InListNode` and `InList` of src/intrusive_list.h. A node is a number, whose links stand in the
-- store `nodes`; a null pointer is none. A list has the number `self`, which its nodes hold as owner.
use cache_sim.Base.{
  if◌then◌else◌, ◌==◌, failed, Outcome, ◌>>=◌, ◌>>◌, set, get_or, ℕ, ◌+◌, ◌-◌, ◌%◌, ◌^◌, Bool, true,
  false, ◌&&◌, Option, none, some, List, assert, done,
}

pub record Node : Type 0 where
  pub next : Option ℕ
  pub prev : Option ℕ
  pub owner : Option ℕ

-- `InListNode()`
abbrev pub free_node : Node
free_node = record { next = none; prev = none; owner = none }

-- `InList`, and the store of all nodes.
pub record InList : Type 0 where
  pub self : ℕ
  pub head : Option ℕ
  pub tail : Option ℕ
  pub elems : ℕ
  pub nodes : List Node

abbrev pub new_list : ℕ → List Node → InList
new_list self nodes = record { self = self; head = none; tail = none; elems = 0; nodes = nodes }

abbrev pub node_at : InList → ℕ → Node
node_at l e = get_or l.nodes e free_node

abbrev pub set_node : InList → ℕ → Node → InList
set_node l e n = record l { nodes = set l.nodes e n }

-- `p == e` on pointers, the first of which may be null.
abbrev pub points_to : Option ℕ → ℕ → Bool
points_to none e = false
points_to (some p) e = p == e

-- `if (p) p->prev = v`, and `if (p) p->next = v`.
abbrev pub set_prev : Option ℕ → Option ℕ → InList → InList
set_prev none v l = l
set_prev (some p) v l = set_node l p (record (node_at l p) { prev = v })

abbrev pub set_next : Option ℕ → Option ℕ → InList → InList
set_next none v l = l
set_next (some p) v l = set_node l p (record (node_at l p) { next = v })

abbrev pub is_null : Option ℕ → Bool
is_null none = true
is_null (some p) = false

abbrev pub is_free : Node → Bool
is_free n = is_null n.next && is_null n.prev && is_null n.owner

unfoldable pub unlink : InList → ℕ → Outcome InList
unlink l e = do
  let n = node_at l e
  let l₁ = set_prev n.next n.prev l
  let l₂ = set_next n.prev n.next l₁
  assert (points_to n.owner l.self)
  done (set_node l₂ e free_node)

-- The case of `linkPrev` in which `p` has a next node.
abbrev pub link_next : Option ℕ → InList → ℕ → ℕ → Outcome InList
link_next none l e p = done l
link_next (some q) l e p = do
  assert (points_to (node_at l q).prev p)
  let l₁ = set_node l q (record (node_at l q) { prev = some e })
  done (set_node l₁ e (record (node_at l₁ e) { next = some q }))

unfoldable pub link_prev : InList → ℕ → ℕ → Outcome InList
link_prev l e p = do
  assert (is_free (node_at l e))
  l₁ ← link_next (node_at l p).next l e p
  let l₂ = set_node l₁ p (record (node_at l₁ p) { next = some e })
  done (set_node l₂ e (record (node_at l₂ e) { prev = some p; owner = some l.self }))

abbrev pub own : InList → ℕ → InList
own l e = set_node l e (record (node_at l e) { owner = some l.self })

abbrev pub add_front : Option ℕ → InList → ℕ → Outcome InList
add_front none l e = done (record l { head = some e; tail = some e })
add_front (some h) l e = do
  assert (is_null (node_at l h).prev && points_to (node_at l h).owner l.self)
  let l₁ = set_node l e (record (node_at l e) { next = some h })
  let l₂ = set_node l₁ h (record (node_at l₁ h) { prev = some e })
  done (record l₂ { head = some e })

unfoldable pub push_front : InList → ℕ → Outcome InList
push_front l e = do
  assert (is_free (node_at l e))
  l' ← add_front l.head l e
  done (record (own l' e) { elems = l'.elems + 1 })

-- The test of the head, and then the tail, which an `assert` wants.
abbrev pub add_back : Option ℕ → Option ℕ → InList → ℕ → Outcome InList
add_back none t l e = done (own (record l { head = some e; tail = some e }) e)
add_back (some h) none l e = failed
add_back (some h) (some t) l e = do l' ← link_prev l e t; done (record l' { tail = some e })

unfoldable pub push_back : InList → ℕ → Outcome InList
push_back l e = do
  assert (is_free (node_at l e))
  l' ← add_back l.head l.tail l e
  done (record l' { elems = l'.elems + 1 })

-- `elems--` on a `size_t`.
abbrev pub less_one : InList → InList
less_one l = record l { elems = (l.elems + (2 ^ 64 - 1)) % 2 ^ 64 }

abbrev pub pop_head : Option ℕ → InList → Outcome InList
pop_head none l = done l
pop_head (some e) l = do
  l' ← unlink (record l { head = (node_at l e).next }) e
  done (less_one (if is_null l'.head then record l' { tail = none } else l'))

unfoldable pub pop_front : InList → Outcome InList
pop_front l = pop_head l.head l

-- The head tells whether the list is empty; a null tail behind it is undefined in the source.
abbrev pub pop_tail : Option ℕ → Option ℕ → InList → Outcome InList
pop_tail none t l = done l
pop_tail (some h) none l = failed
pop_tail (some h) (some e) l = do
  l' ← unlink (record l { tail = (node_at l e).prev }) e
  done (less_one (if is_null l'.tail then record l' { head = none } else l'))

unfoldable pub pop_back : InList → Outcome InList
pop_back l = pop_tail l.head l.tail l

unfoldable pub remove : InList → ℕ → Outcome InList
remove l e = do
  let l₁ = if points_to l.head e then record l { head = (node_at l e).next } else l
  let l₂ = if points_to l₁.tail e then record l₁ { tail = (node_at l₁ e).prev } else l₁
  l' ← unlink l₂ e
  done (less_one l')

unfoldable pub insert_after : InList → ℕ → ℕ → Outcome InList
insert_after l p e = do
  assert (is_null (node_at l e).owner)
  assert (points_to (node_at l p).owner l.self)
  l₁ ← link_prev l e p
  let l₂ = if points_to l₁.tail p then record l₁ { tail = some e } else l₁
  done (record l₂ { elems = l₂.elems + 1 })
