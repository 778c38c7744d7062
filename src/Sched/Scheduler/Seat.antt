-- ===== src/Sched/Scheduler/Seat.antt =====
-- A context in limbo that a thread gets.
use cache_sim.Sched.Scheduler.Lists.{put_self, put_other, length-range_from, occurs-range_from}
use cache_sim.Sched.Scheduler.Fits.{FitsWith, Fits, Seat, put-Queues, Busy}
use cache_sim.Sched.Scheduler.Moves.{rests, put-in_range}
use cache_sim.Sched.Barrier.Tally.{one_if, occurs, count-le_length, count-change_at, count}
use cache_sim.Sched.Scheduler.{
  running, holds, range_from, idle_context, is_idle, is_used, ContextInfo, put, may_run, Scheduler,
  used_by,
}
use cache_sim.Base.{
  ltb, ℕ, ◌+◌, ◌%◌, ◌^◌, ◌<◌, ◌≡◌, refl, sym, ap, subst, ◌∙◌, ◌≢◌, inl, inr, true, false, ◌&&◌, [],
  ◌∷◌, arith, ℕ_discrete,
}

-- The contexts in use after one of them changes.
pub used-put :
    (cs : ℕ → ContextInfo) (c : ℕ) (x : ContextInfo) (n : ℕ)
    → c < n
    → count (λ d. is_used (put cs c x d).state) (range_from 0 n) + one_if (is_used (cs c).state)
      ≡ count (λ d. is_used (cs d).state) (range_from 0 n) + one_if (is_used x.state)
used-put cs c x n inside =
    let change =
      count-change_at (λ d. is_used (cs d).state) (λ d. is_used (put cs c x d).state)
        (range_from 0 n) c 1 (λ u ne. ap (λ y. is_used y.state) (sym (put_other cs c u x ne)))
        (occurs-range_from c 0 n ∙ ground (arith, inside)) in
    omega (arith, change, ap (λ y. one_if (is_used y.state)) (put_self cs c x))

-- The thread `g`, which has no context, gets the context `c`.
abbrev pub seated : Scheduler → ℕ → ℕ → Scheduler
seated s g c = record s {
  threads = put s.threads g (record (s.threads g) { state = running; cid = c });
  contexts = put s.contexts c (used_by g);
  scheduled_threads = (s.scheduled_threads + 1) % 2 ^ 32;
}

module _ (s : Scheduler) (g c : ℕ) (f : FitsWith (c ∷ []) s)
    (waits : may_run (s.threads g).state ≡ true) (off : occurs g s.run_queue ≡ 0)
    (inside : c < s.num_cores) (was_idle : s.contexts c ≡ idle_context) where
  has_none : (h : ℕ) → h ≡ g → holds (s.threads h).state ≡ true → ⊥
  has_none h same hold =
      let mine : holds (s.threads g).state ≡ true =
        subst (λ k. holds (s.threads k).state ≡ true) same hold in
      absurd (ground (arith, mine, rests (s.threads g).state waits))

  place_now : (d : ℕ) → Seat (seated s g c).threads (seated s g c).contexts d
  place_now d = elim (ℕ_discrete d c) [
    | yes e ↦ rw (e, put_self s.contexts c (used_by g)) (inr (g, refl, ground arith, ground arith))
    | no ne ↦ rw (put_other s.contexts c d (used_by g) ne) (elim (f.seats.seat d) [
      | inl e ↦ inl e
      | inr (h, e, hold, at) ↦
          let other : h ≢ g = λ same. has_none h same hold in
          inr (h, e, ground (arith, other, hold), ground (arith, other, at))
    ])
  ]

  apart : (u : ℕ) → s.contexts (s.threads u).cid ≡ used_by u → (s.threads u).cid ≢ c
  apart u mine e =
      let here : s.contexts c ≡ used_by u = subst (λ k. s.contexts k ≡ used_by u) e mine in
      let clash : true ≡ false = ap (λ x. is_idle x.state) (sym was_idle ∙ here) in cc

  held_now :
      (u : ℕ)
      → holds ((seated s g c).threads u).state ≡ true
      → (((seated s g c).threads u).cid < s.num_cores)
        × ((seated s g c).contexts ((seated s g c).threads u).cid ≡ used_by u)
  held_now u = elim (ℕ_discrete u g) [
    | yes e ↦
        rw (e, put_self s.threads g (record (s.threads g) { state = running; cid = c }))
          (λ hold. (inside, put_self s.contexts c (used_by g)))
    | no ne ↦
        rw (put_other s.threads g u (record (s.threads g) { state = running; cid = c }) ne) (λ hold.
          let old = f.seats.held u hold in
          (old.0, rw (put_other s.contexts c _ (used_by g) (apart u old.1)) old.1))
  ]

  vacant_now :
      (d : ℕ)
      → occurs d s.free_list
        ≡ one_if (ltb d s.num_cores && is_idle ((seated s g c).contexts d).state)
  vacant_now d = elim (ℕ_discrete d c) [
    | yes e ↦
        rw (e, put_self s.contexts c (used_by g))
          (ground (arith, f.seats.vacant c, ap (λ x. is_idle x.state) was_idle))
    | no ne ↦
        let differs : c ≢ d = λ e. ne (sym e) in
        rw (put_other s.contexts c d (used_by g) ne) (ground (arith, differs, f.seats.vacant d))
  ]

  counted_now :
      (s.scheduled_threads + 1) % 2 ^ 32
      ≡ count (λ d. is_used ((seated s g c).contexts d).state) (range_from 0 s.num_cores)
  counted_now = omega (
    arith,
    used-put s.contexts c (used_by g) s.num_cores inside,
    ap (λ x. one_if (is_used x.state)) was_idle,
    count-le_length (λ d. is_used ((seated s g c).contexts d).state) (range_from 0 s.num_cores),
    f.seats.counted,
    length-range_from 0 s.num_cores,
    f.small,
  )

  kept_turn :
      (u d : ℕ)
      → d ≢ c
      → 0 < occurs u s.run_queue
      → d < s.num_cores
      → ((seated s g c).threads u).mask d ≡ true
      → Busy (seated s g c).threads (seated s g c).contexts d
  kept_turn u d ne o l m =
      let differs : c ≢ d = λ e. ne (sym e) in
      let mask : (s.threads u).mask d ≡ true = ground (arith, m) in
      let b = f.served u d o l mask (ground (arith, differs)) in
      (
        b.0,
        rw (put_other s.contexts c d (used_by g) ne) b.1,
        elim (ℕ_discrete b.0 g) [
          | yes e ↦ rw e (ap (λ x. x.state) (put_self s.threads g _))
          | no other ↦ rw (put_other s.threads g b.0 _ other) b.2
        ],
      )

  pub seat-Fits : Fits (seated s g c)
  seat-Fits =
      let rest = rests (s.threads g).state waits in
      record {
        queues =
            put-Queues s.threads s.run_queue s.out_queue s.sleep_queue s.run_queue s.out_queue
              s.sleep_queue g _ f.queues (λ u ne. refl) (λ u ne. refl) (λ u ne. refl)
              (omega (arith, off)) (ground (arith, f.queues.outs g, rest))
              (ground (arith, f.queues.sleeps g, rest)) (λ o. absurd (omega (arith, off, o)));
        seats = record {
          seat = place_now;
          held = held_now;
          vacant = λ d. omega (arith, vacant_now d);
          counted = counted_now;
        };
        served = λ u d o l m z. elim (ℕ_discrete d c) [
          | yes e ↦ (
            g,
            rw e (put_self s.contexts c (used_by g)),
            ap (λ x. x.state) (put_self s.threads g _),
          )
          | no ne ↦ kept_turn u d ne o l m
        ];
        in_range = put-in_range (c ∷ []) s g _ f inside;
        small = f.small;
      }
