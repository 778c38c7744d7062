-- ===== src/Mesi/Ctrl/Covered.antt =====
-- The directory gives the caches below no more than this cache has.
use cache_sim.Mesi.Top.Coherent.{Coherent}
use cache_sim.Mesi.Top.Loop.{Obeys}
use cache_sim.Mesi.Top.Access.{Served}
use cache_sim.Mesi.Top.Protocol.{access_entry-Served}
use cache_sim.Mesi.Ctrl.Nested.{Covers}
use cache_sim.Mesi.Types.{
  is_owned, invalid, gets, puts, Flags, is_clean, MesiState, putx, getx, AccessType, shared,
  is_invalid, invx,
}
use cache_sim.Mesi.Parent.{Fits}
use cache_sim.Mesi.Top.{
  top_gets, sole_owner, is_empty, Children, access_entry, drop_sharer, sharer, Entry, add_sharer,
  send_invalidates,
}
use cache_sim.Base.{
  Bool-cases, ◌==◌, if◌then◌else◌, Ensures-assert, Ensures, Returns-map, Ensures->>=,
  Returns-Ensures, Outcome, Returns, done, failed, ℕ, ◌<◌, ◌≡◌, refl, inl, inr, Bool, true, false,
  not, ◌&&◌, List, arith,
}

module _ {W : Type 0} (kids : Children W) (num : ℕ) (rtts : List ℕ) (dirty : ℕ → W → Bool)
    (obeys : Obeys kids num dirty) where
  -- A GETS leaves the child in E only if this cache is exclusive.
  gets-exclusive :
      (e : Entry) (line_addr child : ℕ) (excl wb : Bool) (w : W) (cycle src_id : ℕ) (flags : Flags)
      → child < num
      → Ensures
          (top_gets kids num rtts e line_addr child excl wb w cycle src_id flags)
          (λ (r : ℕ × Entry × Bool × W). is_owned (kids.read_state child r.3) ≡ true → excl ≡ true)
  gets-exclusive e line_addr child true wb w cycle src_id flags h =
      any_result (top_gets kids num rtts e line_addr child true wb w cycle src_id flags)
    where
      any_result :
          (m : Outcome (ℕ × Entry × Bool × W))
          → Ensures m (λ (r : ℕ × Entry × Bool × W).
            is_owned (kids.read_state child r.3) ≡ true → true ≡ true)
      any_result (done r) = λ _. refl
      any_result failed = tt
  gets-exclusive e line_addr child false wb w cycle src_id flags h =
      elim (Bool-cases (is_empty e && false && not flags.noexcl)) [
        | inl on ↦ absurd (ground (arith, on))
        | inr off ↦ rw off (
            Ensures-assert (not (sharer e child)) _
              (λ (r : ℕ × Entry × Bool × W).
                is_owned (kids.read_state child r.3) ≡ true → false ≡ true)
              λ _.
                Ensures->>=
                  (if sole_owner e
                    then send_invalidates kids num rtts e
                        (record {
                          line_addr = line_addr;
                          type = invx;
                          cycle = cycle;
                          src_id = src_id;
                        })
                        wb w
                    else done (cycle, e, wb, w))
                  _ (λ (r : ℕ × Entry × Bool × W). Unit {0})
                  (λ (r : ℕ × Entry × Bool × W).
                    is_owned (kids.read_state child r.3) ≡ true → false ≡ true)
                  (anything _)
                  λ r _.
                    Ensures-assert (not (sole_owner r.1))
                      (done
                        (r.0, add_sharer r.1 child false, r.2, kids.write_state child shared r.3))
                      (λ (r' : ℕ × Entry × Bool × W).
                        is_owned (kids.read_state child r'.3) ≡ true → false ≡ true)
                      λ _ own. ground (arith, obeys.written child shared r.3 h child))
      ]
    where
      anything : (m : Outcome (ℕ × Entry × Bool × W)) → Ensures m (λ r. Unit {0})
      anything (done r) = tt
      anything failed = tt

  -- With one child in S no child is in E or M.
  shared_child :
      (e : Entry) (w : W) (child j : ℕ)
      → Coherent kids num e w
      → child < num
      → j < num
      → is_clean (kids.read_state child w) ≡ true
      → is_owned (kids.read_state child w) ≡ false
      → is_owned (kids.read_state j w) ≡ false
  shared_child e w child j co h hj clean not_owned = ground (arith, co.agree child h, co.agree j hj)

  -- PUTS changes the state of the child alone.
  puts_frame :
      (e : Entry) (child : ℕ) (wb : Bool) (w : W) (cycle : ℕ)
      → child < num
      → Ensures (drop_sharer kids num rtts e child wb w cycle) (λ r.
        (j : ℕ) → kids.read_state j r.3 ≡ (if child == j then invalid else kids.read_state j w))
  puts_frame e child wb w cycle h =
      Ensures-assert (sharer e child) _
        (λ r.
          (j : ℕ) → kids.read_state j r.3 ≡ (if child == j then invalid else kids.read_state j w))
        λ _ j. obeys.written child invalid w h j

  -- Where this cache has the line in the state `s` that the access needs, and covers the caches below,
  -- it covers them afterwards too.
  pub access_entry-Covers :
      (e : Entry) (line_addr : ℕ) (type : AccessType) (child : ℕ) (s : MesiState) (wb : Bool)
      (w : W) (cycle src_id : ℕ) (flags : Flags)
      → Coherent kids num e w
      → child < num
      → Fits type (kids.read_state child w)
      → is_invalid s ≡ false
      → (type ≡ getx → is_owned s ≡ true)
      → (type ≡ putx → is_owned s ≡ true)
      → Covers kids num s w
      → Returns
          (access_entry kids num rtts e line_addr type child (is_owned s) wb w cycle src_id flags)
          (λ r.
            Served kids num rtts dirty obeys type flags child cycle e wb w r
            × Covers kids num s r.3)
  unfolding access_entry
  access_entry-Covers e line_addr type child s wb w cycle src_id flags co h fits here getx_own
        putx_own cov =
      Returns-map _
        (λ r. Served kids num rtts dirty obeys type flags child cycle e wb w r × Extra type r)
        (λ r.
          Served kids num rtts dirty obeys type flags child cycle e wb w r × Covers kids num s r.3)
        (Returns-Ensures _ (Served kids num rtts dirty obeys type flags child cycle e wb w)
          (Extra type)
          (access_entry-Served kids num rtts dirty obeys e line_addr type child (is_owned s) wb w
            cycle src_id flags co h fits getx_own)
          (extra type))
        λ r p. (p.0, covered type getx_own putx_own r p.0 p.1)
    where
      Extra : AccessType → ℕ × Entry × Bool × W → Type 0
      Extra gets r = is_owned (kids.read_state child r.3) ≡ true → is_owned s ≡ true
      Extra puts r =
          (j : ℕ) → kids.read_state j r.3 ≡ (if child == j then invalid else kids.read_state j w)
      Extra getx r = Unit {0}
      Extra putx r = Unit {0}

      trivial : (m : Outcome (ℕ × Entry × Bool × W)) → Ensures m (λ r. Unit {0})
      trivial (done r) = tt
      trivial failed = tt

      extra :
          (t : AccessType)
          → Ensures
              (access_entry kids num rtts e line_addr t child (is_owned s) wb w cycle src_id flags)
              (Extra t)
      extra gets = gets-exclusive e line_addr child (is_owned s) wb w cycle src_id flags h
      extra puts = puts_frame e child wb w cycle h
      extra getx = trivial _
      extra putx = trivial _

      covered :
          (t : AccessType)
          → (t ≡ getx → is_owned s ≡ true)
          → (t ≡ putx → is_owned s ≡ true)
          → (r : ℕ × Entry × Bool × W)
          → Served kids num rtts dirty obeys t flags child cycle e wb w r
          → Extra t r
          → Covers kids num s r.3
      covered gets o o' r sv x = record {
        valid = λ j hj v. here;
        owned = λ j hj own. elim (Bool-cases (is_owned (kids.read_state child r.3))) [
          | inl mine ↦ x mine
          | inr not_mine ↦
              absurd (
                ground
                  (arith, own, shared_child r.1 r.3 child j sv.coherent h hj sv.given not_mine))
        ];
      }
      covered getx o o' r sv x = record { valid = λ j hj v. here; owned = λ j hj own. o refl }
      covered putx o o' r sv x = record { valid = λ j hj v. here; owned = λ j hj own. o' refl }
      covered puts o o' r sv x = record {
        valid = λ j hj v. here;
        owned = λ j hj own. cov.owned j hj (ground (arith, x j, own));
      }
