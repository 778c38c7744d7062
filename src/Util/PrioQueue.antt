-- ===== src/Util/PrioQueue.antt =====
-- `PrioQueue` of src/prio_queue.h. `span` is its template parameter `B`. A chain of elements is a
-- list, newest first, and the elements themselves are numbers.
pub mod Blocks
use cache_sim.Repl.Lfu.{found}
use cache_sim.Base.{
  leb, ◌==◌, if◌then◌else◌, ltb, failed, ◌>>=◌, ◌>>◌, Outcome, get_or, replicate, set, ℕ, zero, suc,
  ◌+◌, ◌-◌, ◌*◌, ◌/◌, ◌%◌, Bool, true, false, ◌&&◌, Option, none, some, List, [], ◌∷◌, done, assert,
  min,
}

pub record PqBlock : Type 0 where
  pub array : List (List ℕ)
  pub occ : List Bool

abbrev pub new_block : PqBlock
new_block = record { array = replicate 64 []; occ = replicate 64 false }

-- `__builtin_ctzl(occ)`: the lowest bit that is set.
unfoldable pub lowest : List Bool → ℕ → Option ℕ
lowest [] pos = none
lowest (b ∷ bs) pos = let rest = lowest bs (suc pos) in if b then some pos else rest

-- The element that is taken, and the chain behind it. A null pointer in an occupied place would be
-- read by the source; it is a failure here.
abbrev pub take_from : List ℕ → PqBlock → ℕ → Outcome (ℕ × ℕ × PqBlock)
take_from [] b pos = failed
take_from (x ∷ []) b pos =
    done (x, pos, record { array = set b.array pos []; occ = set b.occ pos false })
take_from (x ∷ y ∷ rest) b pos = done (x, pos, record b { array = set b.array pos (y ∷ rest) })

abbrev pub dequeue_at : Option ℕ → PqBlock → Outcome (ℕ × ℕ × PqBlock)
dequeue_at none b = failed
dequeue_at (some pos) b = take_from (get_or b.array pos []) b pos

-- `PQBlock::dequeue`: the element, the offset, and the block afterwards.
unfoldable pub block_dequeue : PqBlock → Outcome (ℕ × ℕ × PqBlock)
block_dequeue b = dequeue_at (lowest b.occ 0) b

-- `PQBlock::enqueue`
unfoldable pub block_enqueue : PqBlock → ℕ → ℕ → PqBlock
block_enqueue b obj pos = record {
  array = set b.array pos (obj ∷ get_or b.array pos []);
  occ = set b.occ pos true;
}

-- `fe_map` is a multimap in the order of its keys.
pub record PrioQueue : Type 0 where
  pub span : ℕ
  pub blocks : List PqBlock
  pub fe_map : List (ℕ × ℕ)
  pub cur_block : ℕ
  pub elems : ℕ

unfoldable pub new_queue : ℕ → PrioQueue
new_queue span = record {
  span = span;
  blocks = replicate span new_block;
  fe_map = [];
  cur_block = 0;
  elems = 0;
}

-- `feMap.insert`: behind the elements with the same key.
unfoldable pub insert_far : List (ℕ × ℕ) → ℕ → ℕ → List (ℕ × ℕ)
insert_far [] cycle obj = (cycle, obj) ∷ []
insert_far (x ∷ xs) cycle obj =
    if ltb cycle x.0 then (cycle, obj) ∷ x ∷ xs else x ∷ insert_far xs cycle obj

-- `blocks[absBlock % B].enqueue(obj, cycle % 64)`
abbrev pub enqueue_near : PrioQueue → ℕ → ℕ → PrioQueue
enqueue_near q obj cycle =
    let i = cycle / 64 % q.span in
    record q {
      blocks = set q.blocks i (block_enqueue (get_or q.blocks i new_block) obj (cycle % 64));
    }

unfoldable pub enqueue : PrioQueue → ℕ → ℕ → Outcome PrioQueue
enqueue q obj cycle = do
  assert (leb q.cur_block (cycle / 64))
  let q' =
      if ltb (cycle / 64) (q.cur_block + q.span)
      then enqueue_near q obj cycle
      else record q { fe_map = insert_far q.fe_map cycle obj }
  done (record q' { elems = q'.elems + 1 })

-- The loop that moves the far elements before `top_cycle` to the blocks.
unfoldable pub move_far : ℕ → List (ℕ × ℕ) → PrioQueue → Outcome PrioQueue
move_far top_cycle [] q = done (record q { fe_map = [] })
move_far top_cycle (x ∷ xs) q =
    if ltb x.0 top_cycle
    then (do
      assert (leb q.cur_block (x.0 / 64))
      assert (ltb (x.0 / 64) (q.cur_block + q.span))
      move_far top_cycle xs (enqueue_near q x.1 x.0))
    else done (record q { fe_map = x ∷ xs })

abbrev pub is_found : Option ℕ → Bool
is_found none = false
is_found (some pos) = true

abbrev pub is_occupied : PrioQueue → ℕ → Bool
is_occupied q block = is_found (lowest (get_or q.blocks (block % q.span) new_block).occ 0)

abbrev pub has_far : List (ℕ × ℕ) → Bool
has_far [] = false
has_far (x ∷ xs) = true

-- A round of the `while` loop of `dequeue`.
unfoldable pub next_block : PrioQueue → Outcome PrioQueue
next_block q =
    let q' = record q { cur_block = q.cur_block + 1 } in
    if (q'.cur_block % (q'.span / 2) == 0) && has_far q'.fe_map
    then move_far ((q'.cur_block + q'.span) * 64) q'.fe_map q'
    else done q'

-- The `while` loop, with `fuel` rounds left; it is `none` if they do not do.
unfoldable pub find_block : ℕ → PrioQueue → Outcome (Option PrioQueue)
find_block zero q = if is_occupied q q.cur_block then done (some q) else done none
find_block (suc fuel) q =
    let rest = next_block q >>= λ q'. find_block fuel q' in
    if is_occupied q q.cur_block then done (some q) else rest

abbrev pub take_first : Option PrioQueue → Outcome (Option (ℕ × ℕ × PrioQueue))
take_first none = done none
take_first (some q) = do
  let i = q.cur_block % q.span
  (obj, offset, b) ← block_dequeue (get_or q.blocks i new_block)
  done (
      some (
        obj,
        q.cur_block * 64 + offset,
        record q { blocks = set q.blocks i b; elems = q.elems - 1 },
      ))

-- The element, its cycle, and the queue afterwards.
unfoldable pub dequeue : ℕ → PrioQueue → Outcome (Option (ℕ × ℕ × PrioQueue))
dequeue fuel q = do assert (ltb 0 q.elems); found ← find_block fuel q; take_first found

-- The loops of `firstCycle`: the first occupied place of `n` blocks from the block `cur_block + i`.
abbrev pub cycle_of : Option ℕ → ℕ → Option ℕ → Option ℕ
cycle_of none block rest = rest
cycle_of (some pos) block rest = some (block * 64 + pos)

unfoldable pub first_near : PrioQueue → ℕ → ℕ → Option ℕ
first_near q zero i = none
first_near q (suc n) i =
    let block = q.cur_block + i in
    cycle_of (lowest (get_or q.blocks (block % q.span) new_block).occ 0) block
      (first_near q n (suc i))

-- The second loop and what follows it, with a far element that may come earlier. The source reads
-- the far map without a test in the last case, where it holds the only elements.
abbrev pub first_late : Option ℕ → List (ℕ × ℕ) → Outcome ℕ
first_late none [] = failed
first_late none (x ∷ xs) = done x.0
first_late (some cycle) [] = done cycle
first_late (some cycle) (x ∷ xs) = done (min cycle x.0)

abbrev pub first_of : Option ℕ → PrioQueue → Outcome ℕ
first_of (some cycle) q = done cycle
first_of none q = first_late (first_near q (q.span - q.span / 2) (q.span / 2)) q.fe_map

unfoldable pub first_cycle : PrioQueue → Outcome ℕ
first_cycle q = do assert (ltb 0 q.elems); first_of (first_near q (q.span / 2) 0) q
