-- ===== src/Util/Tests.antt =====
-- An element goes into an empty block, and comes out again.
use cache_sim.Util.PrioQueue.Blocks.{block_dequeue-block_enqueue, Taken}
use cache_sim.Util.PrioQueue.{new_block, block_dequeue, block_enqueue}
use cache_sim.Base.{Returns, get_or-replicate, get_or, ℕ, ◌<◌, ◌≡◌, false, [], arith}

block-low : (j : ℕ) → j < 7 → get_or new_block.occ j false ≡ false
block-low j h = get_or-replicate 64 j false

block_dequeue-block_enqueue_example :
    Returns (block_dequeue (block_enqueue new_block 41 7)) (Taken 41 7 [])
block_dequeue-block_enqueue_example =
    block_dequeue-block_enqueue new_block 41 7 (omega arith) (omega arith) block-low
