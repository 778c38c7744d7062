-- ===== src/Sched/Scheduler/Frames.antt =====
-- What a call for one thread leaves alone.
use cache_sim.Base.{ℕ, ◌≤◌, ◌<◌, ◌≡◌, ap, ◌∙◌, ◌≢◌, true, false, arith, ℕ_discrete}
use cache_sim.Sched.Scheduler.Lists.{put_self, put_other}
use cache_sim.Sched.Barrier.Tally.{occurs}
use cache_sim.Sched.Scheduler.{ThreadInfo, Scheduler, is_out, put}

-- A thread that is promised a context neither is out nor waits on the run queue. But for the thread of
-- the call such threads are as before, no thread comes to the run queue, and no promise is made.
pub record Frame (s : Scheduler) (g : ℕ) (s' : Scheduler) : Type 0 where
  pub same :
      (u : ℕ)
      → u ≢ g
      → is_out (s.threads u).state ≡ false
      → occurs u s.run_queue ≡ 0
      → s'.threads u ≡ s.threads u
  pub no_more : (u : ℕ) → u ≢ g → occurs u s'.run_queue ≤ occurs u s.run_queue
  pub promises : (u : ℕ) → (s'.threads u).handoff_thread ≡ (s.threads u).handoff_thread

pub Frame-trans : (s s1 s2 : Scheduler) (g : ℕ) → Frame s g s1 → Frame s1 g s2 → Frame s g s2
Frame-trans s s1 s2 g a b = record {
  same = λ u ne n off.
      let first = a.same u ne n off in
      b.same u ne (ap (λ x. is_out x.state) first ∙ n) (omega (arith, a.no_more u ne, off)) ∙ first;
  no_more = λ u ne. omega (arith, a.no_more u ne, b.no_more u ne);
  promises = λ u. b.promises u ∙ a.promises u;
}

pub put-promise :
    (ts : ℕ → ThreadInfo) (g : ℕ) (v : ThreadInfo) (u : ℕ)
    → v.handoff_thread ≡ (ts g).handoff_thread
    → (put ts g v u).handoff_thread ≡ (ts u).handoff_thread
put-promise ts g v u e = elim (ℕ_discrete u g) [
  | yes same ↦ rw (same, put_self ts g v) e
  | no ne ↦ ap (λ x. x.handoff_thread) (put_other ts g u v ne)
]

-- One thread changes, and keeps its promise.
pub put-Frame :
    (s s' : Scheduler) (g : ℕ) (v : ThreadInfo)
    → s'.threads ≡ put s.threads g v
    → v.handoff_thread ≡ (s.threads g).handoff_thread
    → ((u : ℕ) → u ≢ g → occurs u s'.run_queue ≤ occurs u s.run_queue)
    → Frame s g s'
put-Frame s s' g v threads kept fewer = record {
  same = λ u ne n off. ap (λ t. t u) threads ∙ put_other s.threads g u v ne;
  no_more = fewer;
  promises = λ u. ap (λ t. (t u).handoff_thread) threads ∙ put-promise s.threads g v u kept;
}

-- A thread that is out changes.
pub out-Frame :
    (s s' : Scheduler) (g o : ℕ) (v : ThreadInfo)
    → s'.threads ≡ put s.threads o v
    → is_out (s.threads o).state ≡ true
    → v.handoff_thread ≡ (s.threads o).handoff_thread
    → s'.run_queue ≡ s.run_queue
    → Frame s g s'
out-Frame s s' g o v threads was kept run = record {
  same = λ u ne n off.
      let apart : u ≢ o =
        λ e. absurd (ground (arith, was, n, ap (λ k. is_out (s.threads k).state) e)) in
      ap (λ t. t u) threads ∙ put_other s.threads o u v apart;
  no_more = λ u ne. rw run (omega arith);
  promises = λ u. ap (λ t. (t u).handoff_thread) threads ∙ put-promise s.threads o v u kept;
}

-- A thread that waits on the run queue changes, and comes off it.
pub queued-Frame :
    (s s' : Scheduler) (g h : ℕ) (v : ThreadInfo)
    → s'.threads ≡ put s.threads h v
    → 0 < occurs h s.run_queue
    → v.handoff_thread ≡ (s.threads h).handoff_thread
    → ((u : ℕ) → occurs u s'.run_queue ≤ occurs u s.run_queue)
    → Frame s g s'
queued-Frame s s' g h v threads waited kept fewer = record {
  same = λ u ne n off.
      let apart : u ≢ h =
        λ e. absurd (ground (arith, waited, off, ap (λ k. occurs k s.run_queue) e)) in
      ap (λ t. t u) threads ∙ put_other s.threads h u v apart;
  no_more = λ u ne. fewer u;
  promises = λ u. ap (λ t. (t u).handoff_thread) threads ∙ put-promise s.threads h v u kept;
}
