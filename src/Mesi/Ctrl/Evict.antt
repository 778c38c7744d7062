-- ===== src/Mesi/Ctrl/Evict.antt =====
-- `MESICC::processEviction`: a line leaves this cache and the caches below.
use cache_sim.Mesi.Top.Count.{any}
use cache_sim.Mesi.Top.Loop.{Obeys}
use cache_sim.Mesi.Top.Recall.{Recalled}
use cache_sim.Mesi.Ctrl.Nested.{SameLine, Nested, num_kids, DirtyOwned}
use cache_sim.Mesi.Bottom.Frame.{Keeps}
use cache_sim.Mesi.Types.{inv, invalid, is_modified}
use cache_sim.Mesi.Parent.{Serves}
use cache_sim.Mesi.Ctrl.{Forward, MesiCc}
use cache_sim.Mesi.Bottom.{Parents, state_at}
use cache_sim.Mesi.Top.{sharer, entry_at, Children, TopCc}
use cache_sim.Base.{length, ℕ, ◌<◌, ◌≡◌, Bool, false, ◌&&◌, ◌||◌}

-- The line is gone from this cache and those below, the invariant holds for what is left, and
-- `downgrade` is raised exactly when some data was dirty.
pub record Vacated {W : Type 0} (kids : Children W) (line : ℕ) (dirty : ℕ → W → Bool) (c : MesiCc)
    (w : W) (start_cycle : ℕ) (down : Bool) (r : ℕ × MesiCc × W × Bool) : Type 0 where
  pub gone : state_at r.1.bcc line ≡ invalid
  pub below : (j : ℕ) → j < num_kids kids c → kids.read_state j r.2 ≡ invalid
  pub nested : Nested kids line r.1 r.2
  pub downgrade : r.3 ≡ (
      down
      || (any (λ j. sharer (entry_at c.tcc line) j && dirty j w) (num_kids kids c) 0
          || is_modified (state_at c.bcc line)))

module _ {W : Type 0} (kids : Children W) (access : Parents (TopCc × W))
    (forward : Forward (TopCc × W)) (parent : Serves access) (line : ℕ) (dirty : ℕ → W → Bool)
    (keeps : Keeps access line (SameLine kids dirty line)) (c : MesiCc)
    (obeys : Obeys kids (num_kids kids c) dirty)
    (dirty_owned : DirtyOwned kids dirty (num_kids kids c)) where
  -- What the directory's part leaves.
  record Emptied (w : W) (cycle : ℕ) (r : ℕ × TopCc × Bool × W) : Type 0 where
    recalled :
        Recalled kids
          (num_kids kids c)
          c.tcc.children_rtts
          dirty
          obeys
          inv
          cycle
          (entry_at c.tcc line)
          false
          w
          (r.0, entry_at r.1 line, r.2, r.3)
    same_rtts : r.1.children_rtts ≡ c.tcc.children_rtts
    same_array : length r.1.array ≡ length c.tcc.array
