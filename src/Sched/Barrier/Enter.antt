-- ===== src/Sched/Barrier/Enter.antt =====
-- A thread that comes onto the run list, and one that comes back to it.
use cache_sim.Sched.Barrier.Steps.{decrement-positive}
use cache_sim.Sched.Barrier.Tally.{one_if, length-append_one, count-append, occurs}
use cache_sim.Sched.Barrier.Sound.{
  write-Changed, Sound, Sound-Changed, listed_once, tally-write, write_self, write_other, tally,
  tally-write_absent,
}
use cache_sim.Sched.Barrier.{
  is_running, is_left, write, Barrier, decrement, left, waiting, ThreadSyncInfo, ThreadState, wait,
  offline,
}
use cache_sim.Base.{
  ℕ, suc, ◌+◌, ◌<◌, ◌≡◌, refl, ap, arith, get_or, length, zero, ◌∙◌, Bool, List, [], ◌∷◌, ◌++◌,
  ℕ_discrete, ◌==◌, sym, ◌≢◌,
}

get_or-append : (xs ys : List ℕ) (i : ℕ) → i < length xs → get_or (xs ++ ys) i 0 ≡ get_or xs i 0
get_or-append [] ys i h = absurd (omega arith)
get_or-append (x ∷ xs) ys zero h = refl
get_or-append (x ∷ xs) ys (suc i) h = get_or-append xs ys i (omega arith)

-- A thread that comes onto the list.
tally-append_absent :
    (f : ThreadState → Bool) (ts : ℕ → ThreadSyncInfo) (t : ℕ) (v : ThreadSyncInfo) (xs : List ℕ)
    → occurs t xs ≡ 0
    → tally f (write ts t v) (xs ++ (t ∷ [])) ≡ tally f ts xs + one_if (f v.state)
tally-append_absent f ts t v xs none_here = omega (
  arith,
  count-append (λ u. f (write ts t v u).state) xs t,
  tally-write_absent f ts t v xs none_here,
  ap (λ i. one_if (f i.state)) (write_self ts t v),
)

pub get_or-append_one : (xs : List ℕ) (t : ℕ) → get_or (xs ++ (t ∷ [])) (length xs) 0 ≡ t
get_or-append_one [] t = refl
get_or-append_one (x ∷ xs) t = get_or-append_one xs t

module _ {W : Type 0} where
  -- A new thread on the run list.
  pub added_Sound :
      (b : Barrier W) (tid : ℕ)
      → Sound b
      → (b.thread_list tid).state ≡ offline
      → Sound (wait (record b { run_list = b.run_list ++ (tid ∷ []) }) tid)
  added_Sound b tid so off =
      let xs = b.run_list in
      let info : ThreadSyncInfo = record (b.thread_list tid) { state = waiting; futex_word = 1 } in
      let none_here : occurs tid xs ≡ 0 = rw (so.listed tid, off) refl in
      record {
        listed = λ u. elim (ℕ_discrete u tid) [
          | yes e ↦
              rw (e, write_self b.thread_list tid info)
                (ground (arith, count-append (λ v. v == tid) xs tid, none_here))
          | no ne ↦
              let differs : tid ≢ u = λ e. ne (sym e) in
              rw (write_other b.thread_list tid u info ne)
                (ground (arith, count-append (λ v. v == u) xs tid, so.listed u, differs))
        ];
        recorded = λ u. elim (ℕ_discrete u tid) [
          | yes e ↦ rw (e, write_self b.thread_list tid info) (λ h. cc)
          | no ne ↦ rw (write_other b.thread_list tid u info ne) (λ h.
              let pl = so.recorded u h in
              (omega (arith, length-append_one xs tid, pl.0), get_or-append xs _ _ pl.0 ∙ pl.1))
        ];
        armed = λ u. elim (ℕ_discrete u tid) [
          | yes e ↦ rw (e, write_self b.thread_list tid info) (λ h. refl)
          | no ne ↦ rw (write_other b.thread_list tid u info ne) (so.armed u)
        ];
        cur_le = omega (arith, so.cur_le, length-append_one xs tid);
        running_count = omega (
          arith,
          so.running_count,
          tally-append_absent is_running b.thread_list tid info xs none_here,
        );
        left_count =
            omega (
              arith,
              so.left_count,
              tally-append_absent is_left b.thread_list tid info xs none_here,
            );
        limited = so.limited;
      }

  -- A thread that left and comes back.
  pub back_Sound :
      (b : Barrier W) (tid : ℕ)
      → Sound b
      → (b.thread_list tid).state ≡ left
      → Sound (wait (record b { left_threads = decrement b.left_threads }) tid)
  back_Sound b tid so out =
      let info : ThreadSyncInfo = record (b.thread_list tid) { state = waiting; futex_word = 1 } in
      let once = listed_once b tid so (rw out refl) in
      let c =
        write-Changed b.run_list b.thread_list tid info (Sound-Changed b so) refl once (λ h. cc)
          (λ h. refl) in
      let same = tally-write is_running b.thread_list tid info b.run_list once in
      let fewer = tally-write is_left b.thread_list tid info b.run_list once in
      let was_not = ap (λ s. one_if (is_running s)) out in
      let was = ap (λ s. one_if (is_left s)) out in
      let some_left : 0 < b.left_threads = omega (arith, so.left_count, fewer, was) in
      let less : b.left_threads ≡ suc (decrement b.left_threads) =
        decrement-positive b.left_threads some_left in
      record {
        listed = c.listed;
        recorded = c.recorded;
        armed = c.armed;
        cur_le = so.cur_le;
        running_count = omega (arith, so.running_count, same, was_not);
        left_count = omega (arith, so.left_count, fewer, was, less);
        limited = so.limited;
      }
