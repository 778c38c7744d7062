-- ===== src/Sched/Barrier/Wake.antt =====
-- `checkRunList`: threads are woken in the order of the run list.
use cache_sim.Sched.Barrier.Tally.{one_if}
use cache_sim.Sched.Barrier.Sound.{
  tally-write, Sound, tally, tally-same, state_waiting, write-Changed, listed_once, Sound-Changed,
}
use cache_sim.Sched.Barrier.{
  is_waiting, Barrier, is_running, write, running, waiting, is_left, ThreadSyncInfo, wake_loop,
  wake_one, check_run_list,
}
use cache_sim.Base.{
  get_or, length, ℕ, ◌+◌, ◌≤◌, ◌<◌, ◌≡◌, refl, ◌⊎◌, true, false, arith, Bool-cases, ltb, Returns,
  drop, suc, ap, inl, inr, List, [], ◌∷◌, Returns-map, Returns->>=, drop-[], drop-∷, ◌∙◌, ◌-◌,
}

-- The threads that run, and the places of the run list that had no turn in this phase.
abbrev pub turns : {W : Type 0} → Barrier W → ℕ
turns b = b.running_threads + (length b.run_list - b.cur_thread_idx)

-- What the barrier is after its loop.
pub record Woken {W : Type 0} (b b' : Barrier W) : Type 0 where
  pub sound : Sound b'
  pub same_list : b'.run_list ≡ b.run_list
  pub same_left : b'.left_threads ≡ b.left_threads
  pub same_parallel : b'.parallel_threads ≡ b.parallel_threads
  pub more : b.running_threads ≤ b'.running_threads
  pub same_sched : b'.sched ≡ b.sched
  pub turns_le : turns b' ≤ turns b

-- No thread that has its turn could run but does not.
abbrev pub Full : {W : Type 0} → Barrier W → Type 0
Full b = (b.running_threads ≡ b.parallel_threads) ⊎ (b.cur_thread_idx ≡ length b.run_list)

module _ {W : Type 0} where
  woken_Sound :
      (b : Barrier W) (wtid : ℕ)
      → Sound b
      → b.cur_thread_idx < length b.run_list
      → b.running_threads < b.parallel_threads
      → get_or b.run_list b.cur_thread_idx 0 ≡ wtid
      → (b.thread_list wtid).state ≡ waiting
      → Sound (record b {
        cur_thread_idx = b.cur_thread_idx + 1;
        thread_list =
            write b.thread_list wtid
              (record { state = running; last_idx = b.cur_thread_idx; futex_word = 0 });
        running_threads = b.running_threads + 1;
      })
  woken_Sound b wtid so hc hr here w =
      let info : ThreadSyncInfo = record {
        state = running;
        last_idx = b.cur_thread_idx;
        futex_word = 0;
      } in
      let once = listed_once b wtid so (rw w refl) in
      let c =
        write-Changed b.run_list b.thread_list wtid info (Sound-Changed b so) refl once
          (λ h. (hc, here)) (λ h. cc) in
      record {
        listed = c.listed;
        recorded = c.recorded;
        armed = c.armed;
        cur_le = omega arith;
        running_count = omega (
          arith,
          so.running_count,
          ap (λ s. one_if (is_running s)) w,
          tally-write is_running b.thread_list wtid info b.run_list once,
        );
        left_count = omega (
          arith,
          so.left_count,
          ap (λ s. one_if (is_left s)) w,
          tally-write is_left b.thread_list wtid info b.run_list once,
        );
        limited = omega arith;
      }

  Woken-∙ : (b b1 b2 : Barrier W) → Woken b b1 → Woken b1 b2 → Woken b b2
  Woken-∙ b b1 b2 p q = record {
    sound = q.sound;
    same_list = q.same_list ∙ p.same_list;
    same_left = q.same_left ∙ p.same_left;
    same_parallel = q.same_parallel ∙ p.same_parallel;
    more = omega (arith, p.more, q.more);
    same_sched = q.same_sched ∙ p.same_sched;
    turns_le = omega (arith, p.turns_le, q.turns_le);
  }

  -- A round of the loop.
  record Round (b b' : Barrier W) (wtid : ℕ) : Type 0 where
    woken : Woken b b'
    next : b'.cur_thread_idx ≡ suc b.cur_thread_idx
    kept :
        (t : ℕ)
        → is_waiting (b.thread_list wtid).state ≡ false
        → (b'.thread_list t).state ≡ (b.thread_list t).state
    ran : is_waiting (b.thread_list wtid).state ≡ true → 0 < b'.running_threads

  wake_one-Round :
      (b : Barrier W) (wtid : ℕ)
      → Sound b
      → b.cur_thread_idx < length b.run_list
      → b.running_threads < b.parallel_threads
      → get_or b.run_list b.cur_thread_idx 0 ≡ wtid
      → Returns (wake_one b wtid) (λ b'. Round b b' wtid)
  unfolding wake_one
  wake_one-Round b wtid so hc hr e = elim (Bool-cases (is_waiting (b.thread_list wtid).state)) [
    | inl w ↦
        rw (w, so.armed wtid w)
          (record {
            woken = record {
              sound = woken_Sound b wtid so hc hr e (state_waiting _ w);
              same_list = refl;
              same_left = refl;
              same_parallel = refl;
              more = omega arith;
              same_sched = refl;
              turns_le = omega arith;
            };
            next = omega arith;
            kept = λ t h. cc;
            ran = λ h. omega arith;
          })
    | inr n ↦ rw n (record {
      woken = record {
        sound = record {
          listed = so.listed;
          recorded = so.recorded;
          armed = so.armed;
          cur_le = omega arith;
          running_count = so.running_count;
          left_count = so.left_count;
          limited = so.limited;
        };
        same_list = refl;
        same_left = refl;
        same_parallel = refl;
        more = omega arith;
        same_sched = refl;
        turns_le = omega arith;
      };
      next = omega arith;
      kept = λ t h. refl;
      ran = λ h. cc;
    })
  ]

  -- The whole loop over `rest`.
  pub record Finished (rest : List ℕ) (b b' : Barrier W) : Type 0 where
    pub woken : Woken b b'
    pub full : Full b'
    pub progress :
        0 < b.parallel_threads → 0 < tally is_waiting b.thread_list rest → 0 < b'.running_threads

  unwoken : (b : Barrier W) → Sound b → Woken b b
  unwoken b so = record {
    sound = so;
    same_list = refl;
    same_left = refl;
    same_parallel = refl;
    more = omega arith;
    same_sched = refl;
    turns_le = omega arith;
  }

  Round-Finished :
      (rest : List ℕ) (w : ℕ) (b b1 b2 : Barrier W)
      → Round b b1 w
      → Finished rest b1 b2
      → Finished (w ∷ rest) b b2
  Round-Finished rest w b b1 b2 r fin = record {
    woken = Woken-∙ b b1 b2 r.woken fin.woken;
    full = fin.full;
    progress = λ p q. elim (Bool-cases (is_waiting (b.thread_list w).state)) [
      | inl w_waits ↦ omega (arith, r.ran w_waits, fin.woken.more)
      | inr w_not ↦ fin.progress (rw r.woken.same_parallel p) (
          rw (tally-same is_waiting b.thread_list b1.thread_list rest (λ t. r.kept t w_not))
            (omega (arith, ap one_if w_not, q)))
    ];
  }

  pub wake_loop-Finished :
      (rest : List ℕ) (b : Barrier W)
      → Sound b
      → drop b.cur_thread_idx b.run_list ≡ rest
      → Returns (wake_loop rest b) (Finished rest b)
  unfolding wake_loop
  wake_loop-Finished [] b so e = record {
    woken = unwoken b so;
    full = inr (omega (arith, so.cur_le, drop-[] b.cur_thread_idx b.run_list e));
    progress = λ p q. absurd (omega arith);
  }
  wake_loop-Finished (w ∷ rest) b so e =
      elim (Bool-cases (ltb b.running_threads b.parallel_threads)) [
        | inl y ↦
            let (hc, hw, hrest) = drop-∷ b.cur_thread_idx b.run_list rest w 0 e in
            rw (wake_loop, y)
              (Returns->>= (wake_one b w) (wake_loop rest) (λ b'. Round b b' w)
                (Finished (w ∷ rest) b) (wake_one-Round b w so hc (ground (arith, y)) hw)
                λ b1 r.
                  Returns-map _ (Finished rest b1) (Finished (w ∷ rest) b)
                    (wake_loop-Finished rest b1 r.woken.sound
                      (rw (r.next, r.woken.same_list) hrest))
                    (λ b2. Round-Finished rest w b b1 b2 r))
        | inr n ↦
            rw (wake_loop, n)
              (record {
                woken = unwoken b so;
                full = inl (ground (arith, n, so.limited));
                progress = λ p q. ground (arith, n);
              })
      ]

  pub check_run_list-Finished :
      (b : Barrier W)
      → Sound b
      → Returns (check_run_list b) (Finished (drop b.cur_thread_idx b.run_list) b)
  unfolding check_run_list
  check_run_list-Finished b so = wake_loop-Finished _ b so refl
