-- ===== src/Mesi/Top/Reach.antt =====
-- A line over time: the accesses of the caches below, the invalidations from above, and the writes
-- to an exclusive line that a cache makes without telling the directory.
use cache_sim.Mesi.Top.Coherent.{single_writer, Coherent}
use cache_sim.Mesi.Top.Count.{count-none}
use cache_sim.Mesi.Top.Loop.{Obeys}
use cache_sim.Mesi.Top.Access.{Served}
use cache_sim.Mesi.Top.Recall.{send_invalidates-Recalled, Recalled}
use cache_sim.Mesi.Top.Protocol.{access_entry-Served}
use cache_sim.Mesi.Types.{AccessType, is_owned, invalid, InvType, getx, is_fwd, Flags, modified}
use cache_sim.Mesi.Parent.{Fits}
use cache_sim.Mesi.Top.{
  Entry, sharer, access_entry, Children, clear_entry, send_invalidates, max_cache_children,
}
use cache_sim.Base.{
  Returns, done, get_or-replicate, length-replicate, ℕ, ◌≤◌, ◌<◌, ◌≡◌, refl, sym, subst, ◌≢◌, Bool,
  true, false, List, arith, ℕ_discrete,
}

module _ {W : Type 0} (kids : Children W) (num : ℕ) (rtts : List ℕ) where
  -- What the entry of a line and the system can become, from a line that no cache holds.
  pub data Reachable : Entry → W → Type 0 where
    fresh :
        (w : W)
        → num ≤ max_cache_children
        → ((j : ℕ) → j < num → kids.read_state j w ≡ invalid)
        → Reachable clear_entry w
    access_step :
        {e : Entry} {w : W}
        → Reachable e w
        → (line_addr : ℕ) (type : AccessType) (child : ℕ) (have_exclusive wb : Bool)
        → (cycle src_id : ℕ) (flags : Flags) (r : ℕ × Entry × Bool × W) → child < num
        → Fits type (kids.read_state child w)
        → (type ≡ getx → have_exclusive ≡ true)
        → access_entry kids num rtts e line_addr type child have_exclusive wb w cycle src_id flags
          ≡ done r
        → Reachable r.1 r.3
    recall_step :
        {e : Entry} {w : W}
        → Reachable e w
        → (line_addr : ℕ) (type : InvType) (wb : Bool) (cycle src_id : ℕ)
        → (r : ℕ × Entry × Bool × W) → is_fwd type ≡ false
        → send_invalidates kids num rtts e
            (record { line_addr = line_addr; type = type; cycle = cycle; src_id = src_id })
            wb
            w
          ≡ done r
        → Reachable r.1 r.3
    write_step :
        {e : Entry} {w : W}
        → Reachable e w
        → (child : ℕ) → child < num
        → is_owned (kids.read_state child w) ≡ true
        → Reachable e (kids.write_state child modified w)

module _ {W : Type 0} (kids : Children W) (num : ℕ) (rtts : List ℕ) (dirty : ℕ → W → Bool)
    (obeys : Obeys kids num dirty) where
  fresh-Coherent :
      (w : W)
      → num ≤ max_cache_children
      → ((j : ℕ) → j < num → kids.read_state j w ≡ invalid)
      → Coherent kids num clear_entry w
  fresh-Coherent w few gone = record {
    counts = record {
      small = few;
      roomy = rw (length-replicate max_cache_children false) few;
      counted = sym (
          count-none (sharer clear_entry) num 0
            (λ j lo hi. get_or-replicate max_cache_children j false));
    };
    alone = λ x. omega arith;
    agree = λ j hj. rw (get_or-replicate max_cache_children j false, gone j hj) refl;
  }

  write-Coherent :
      (e : Entry) (w : W) (child : ℕ)
      → Coherent kids num e w
      → child < num
      → is_owned (kids.read_state child w) ≡ true
      → Coherent kids num e (kids.write_state child modified w)
  write-Coherent e w child co h own = record {
    counts = co.counts;
    alone = co.alone;
    agree = λ j hj. elim (ℕ_discrete child j) [
      | yes same ↦ ground (arith, co.agree j hj, own, obeys.written child modified w h j, same)
      | no other ↦ ground (arith, co.agree j hj, obeys.written child modified w h j)
    ];
  }

  Reachable-Coherent : {e : Entry} {w : W} → Reachable kids num rtts e w → Coherent kids num e w
  Reachable-Coherent (fresh w few gone) = fresh-Coherent w few gone
  Reachable-Coherent
        (access_step {e} {w} before line_addr type child excl wb cycle src_id flags r h fits has
          ran) =
      (subst (λ m. Returns m (Served kids num rtts dirty obeys type flags child cycle e wb w)) ran
        (access_entry-Served kids num rtts dirty obeys e line_addr type child excl wb w cycle src_id
          flags (Reachable-Coherent before) h fits has)).coherent
  Reachable-Coherent (recall_step {e} {w} before line_addr type wb cycle src_id r real ran) =
      (subst (λ m. Returns m (Recalled kids num rtts dirty obeys type cycle e wb w)) ran
        (send_invalidates-Recalled kids num rtts dirty obeys e line_addr type wb w cycle src_id
          (Reachable-Coherent before) real)).coherent
  Reachable-Coherent (write_step {e} {w} before child h own) =
      write-Coherent e w child (Reachable-Coherent before) h own

  -- However the accesses, invalidations and writes to a line follow one another, a child that holds
  -- it in E or M is the only one that holds it.
  pub Reachable-single_writer :
      (e : Entry) (w : W) (i j : ℕ)
      → Reachable kids num rtts e w
      → i < num
      → j < num
      → i ≢ j
      → is_owned (kids.read_state i w) ≡ true
      → kids.read_state j w ≡ invalid
  Reachable-single_writer e w i j reached hi hj ne own =
      single_writer kids num e w i j (Reachable-Coherent reached) hi hj ne own
