-- ===== src/Sched/Scheduler/Unseat.antt =====
-- A thread that gives its context up, which is then in limbo.
use cache_sim.Sched.Scheduler.Seat.{used-put}
use cache_sim.Sched.Scheduler.Lists.{put_self, put_other}
use cache_sim.Sched.Scheduler.Switches.{used_by-injective, seat_of}
use cache_sim.Sched.Scheduler.Fits.{Served, Fits, put-Queues, Seat, FitsWith}
use cache_sim.Sched.Scheduler.Moves.{put-in_range}
use cache_sim.Sched.Barrier.Tally.{count, one_if, occurs}
use cache_sim.Sched.Barrier.Steps.{decrement-positive}
use cache_sim.Base.{
  ltb, decrement, ℕ, ◌+◌, ◌<◌, ◌≡◌, refl, sym, ap, subst, ◌∙◌, ◌≢◌, inl, inr, true, false, ◌&&◌,
  List, [], ◌∷◌, arith, ℕ_discrete,
}
use cache_sim.Sched.Scheduler.{
  is_queued, running, ThreadState, out, is_idle, sleeping, used_by, started, blocked, queued,
  range_from, Scheduler, holds, is_used, put, is_sleeping, ThreadInfo, idle_context,
}

-- The thread of `g` becomes `v`, and its context is idle.
abbrev pub unseated : Scheduler → ℕ → ThreadInfo → List ℕ → List ℕ → Scheduler
unseated s g v out' sleep' = record s {
  threads = put s.threads g v;
  contexts = put s.contexts (s.threads g).cid idle_context;
  scheduled_threads = decrement s.scheduled_threads;
  out_queue = out';
  sleep_queue = sleep';
}

pub has_not_queued : (st : ThreadState) → holds st ≡ true → is_queued st ≡ false
has_not_queued running e = refl
has_not_queued out e = refl
has_not_queued started e = cc
has_not_queued blocked e = cc
has_not_queued sleeping e = cc
has_not_queued queued e = cc

module _ (s : Scheduler) (g : ℕ) (v : ThreadInfo) (out' sleep' : List ℕ) (f : Fits s)
    (had : holds (s.threads g).state ≡ true) (gone : holds v.state ≡ false)
    (same_cid : v.cid ≡ (s.threads g).cid) where
  taken : s.contexts (s.threads g).cid ≡ used_by g
  taken = (f.seats.held g had).1

  -- Another thread has another context.
  apart : (u c : ℕ) → u ≢ g → s.contexts c ≡ used_by u → c ≢ (s.threads g).cid
  apart u c ne mine e =
      ne (used_by-injective u g (sym mine ∙ subst (λ k. s.contexts k ≡ used_by g) (sym e) taken))

  place_now : (d : ℕ) → Seat (put s.threads g v) (put s.contexts (s.threads g).cid idle_context) d
  place_now d = elim (ℕ_discrete d (s.threads g).cid) [
    | yes e ↦ inl (ground (arith, e))
    | no ne ↦ rw (put_other s.contexts _ d idle_context ne) (elim (f.seats.seat d) [
      | inl e ↦ inl e
      | inr (h, e, hold, at) ↦
          let other : h ≢ g = λ same. ne (sym at ∙ ap (λ k. (s.threads k).cid) same) in
          inr (
            h,
            e,
            rw (put_other s.threads g h v other) hold,
            rw (put_other s.threads g h v other) at,
          )
    ])
  ]

  held_now :
      (u : ℕ)
      → holds (put s.threads g v u).state ≡ true
      → ((put s.threads g v u).cid < s.num_cores)
        × (put s.contexts (s.threads g).cid idle_context (put s.threads g v u).cid ≡ used_by u)
  held_now u = elim (ℕ_discrete u g) [
    | yes e ↦ rw (e, put_self s.threads g v, gone) (λ hold. cc)
    | no ne ↦ rw (put_other s.threads g u v ne) (λ hold.
        let old = f.seats.held u hold in
        (old.0, rw (put_other s.contexts _ _ idle_context (apart u _ ne old.1)) old.1))
  ]

  vacant_now :
      (d : ℕ)
      → occurs d ((s.threads g).cid ∷ []) + occurs d s.free_list
        ≡ one_if
            (ltb d s.num_cores && is_idle (put s.contexts (s.threads g).cid idle_context d).state)
  vacant_now d = elim (ℕ_discrete d (s.threads g).cid) [
    | yes e ↦
        rw (e, put_self s.contexts (s.threads g).cid idle_context)
          (ground (
            arith,
            f.seats.vacant (s.threads g).cid,
            ap (λ x. is_idle x.state) taken,
            (f.seats.held g had).0,
          ))
    | no ne ↦
        let differs : (s.threads g).cid ≢ d = λ e. ne (sym e) in
        rw (put_other s.contexts _ d idle_context ne) (ground (arith, differs, f.seats.vacant d))
  ]

  counted_now :
      decrement s.scheduled_threads
      ≡ count
          (λ d. is_used (put s.contexts (s.threads g).cid idle_context d).state)
          (range_from 0 s.num_cores)
  counted_now =
      let fewer =
        used-put s.contexts (s.threads g).cid idle_context s.num_cores (f.seats.held g had).0 in
      let was = ap (λ x. one_if (is_used x.state)) taken in
      let positive : 0 < s.scheduled_threads = omega (arith, fewer, was, f.seats.counted) in
      omega (arith, fewer, was, f.seats.counted, decrement-positive s.scheduled_threads positive)

  kept_turn :
      occurs g s.run_queue ≡ 0
      → Served s.num_cores
          (put s.threads g v)
          (put s.contexts (s.threads g).cid idle_context)
          ((s.threads g).cid ∷ [])
          s.run_queue
  kept_turn off u d o l m z =
      let apart_u : u ≢ g =
        λ e. absurd (ground (arith, off, subst (λ k. 0 < occurs k s.run_queue) e o)) in
      let mask : (s.threads u).mask d ≡ true =
        subst (λ x. x.mask d ≡ true) (put_other s.threads g u v apart_u) m in
      let b = f.served u d o l mask refl in
      let elsewhere : d ≢ (s.threads g).cid = λ e. ground (arith, e, z) in
      let other : b.0 ≢ g = λ same. elsewhere (
        sym
          (seat_of s.num_cores s.threads s.contexts [] s.free_list s.scheduled_threads b.0 d f.seats
            b.1).1
        ∙ ap (λ k. (s.threads k).cid) same) in
      (
        b.0,
        rw (put_other s.contexts _ d idle_context elsewhere) b.1,
        rw (put_other s.threads g b.0 v other) b.2,
      )

  pub unseat-FitsWith :
      ((u : ℕ) → u ≢ g → occurs u out' ≡ occurs u s.out_queue)
      → ((u : ℕ) → u ≢ g → occurs u sleep' ≡ occurs u s.sleep_queue)
      → occurs g out' ≡ 0
      → occurs g sleep' ≡ one_if (is_sleeping v.state)
      → FitsWith ((s.threads g).cid ∷ []) (unseated s g v out' sleep')
  unseat-FitsWith same_out same_sleep out_g sleep_g =
      let off : occurs g s.run_queue ≡ 0 = ground (arith, f.queues.runs g, has_not_queued _ had) in
      record {
        queues =
            put-Queues s.threads s.run_queue s.out_queue s.sleep_queue s.run_queue out' sleep' g v
              f.queues (λ u ne. refl) same_out same_sleep (omega (arith, off))
              (ground (arith, out_g, gone)) sleep_g (λ o. absurd (omega (arith, off, o)));
        seats = record {
          seat = place_now;
          held = held_now;
          vacant = vacant_now;
          counted = counted_now;
        };
        served = kept_turn off;
        in_range = put-in_range [] s g v f (rw same_cid (f.in_range g));
        small = f.small;
      }
