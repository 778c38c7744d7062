-- ===== src/Sched/Barrier/Shuffle.antt =====
-- Threads that change places on the run list, in the shuffle and in a reschedule.
use cache_sim.Sched.Barrier.Tally.{count, count-swap}
use cache_sim.Sched.Barrier.Sound.{
  Placed, Recorded, had_turn, note-state, note-futex_word, tally, tally-same,
}
use cache_sim.Sched.Barrier.{ThreadSyncInfo, shuffle_loop, note, ThreadState}
use cache_sim.Base.{
  get_or-set_ne, set, get_or, length-set, length, get_or-set_self, ℕ, zero, suc, ◌≤◌, ◌<◌, ◌≡◌,
  refl, sym, ap, ◌∙◌, ◌≢◌, ◌⊎◌, inl, inr, Bool, List, arith, ℕ_discrete,
}

-- Each thread notes where it went.
abbrev pub Relocated : (xs : List ℕ) (ts ts' : ℕ → ThreadSyncInfo) (i j : ℕ) → Type 0
Relocated xs ts ts' i j =
    (u : ℕ)
    → ((ts' u).state ≡ (ts u).state)
      × ((ts' u).futex_word ≡ (ts u).futex_word)
      × (((ts' u).last_idx ≡ i) × (get_or xs j 0 ≡ u)
          ⊎ (((ts' u).last_idx ≡ j) × (get_or xs i 0 ≡ u)
              ⊎ (((ts' u).last_idx ≡ (ts u).last_idx) × (get_or xs i 0 ≢ u) × (get_or xs j 0 ≢ u))))

-- What stays as it was when the order of the run list changes.
pub record Reordered (xs xs' : List ℕ) (ts ts' : ℕ → ThreadSyncInfo) : Type 0 where
  pub same_length : length xs' ≡ length xs
  pub kept_state : (u : ℕ) → (ts' u).state ≡ (ts u).state
  pub kept_futex_word : (u : ℕ) → (ts' u).futex_word ≡ (ts u).futex_word
  pub same_count : (p : ℕ → Bool) → count p xs' ≡ count p xs
  pub recorded : Recorded xs ts → Recorded xs' ts'

get_or-swapped_first :
    (xs : List ℕ) (i j : ℕ)
    → i < length xs
    → j < length xs
    → get_or (set (set xs i (get_or xs j 0)) j (get_or xs i 0)) i 0 ≡ get_or xs j 0
get_or-swapped_first xs i j hi hj = elim (ℕ_discrete j i) [
  | yes e ↦ rw e (
      get_or-set_self (set xs i (get_or xs i 0)) i (get_or xs i 0) 0
        (rw (length-set xs i (get_or xs i 0)) hi))
  | no ne ↦
      get_or-set_ne (set xs i (get_or xs j 0)) j i (get_or xs i 0) 0 ne
      ∙ get_or-set_self xs i (get_or xs j 0) 0 hi
]

swap-Placed :
    (xs : List ℕ) (ts ts' : ℕ → ThreadSyncInfo) (i j u : ℕ)
    → i < length xs
    → j < length xs
    → Relocated xs ts ts' i j
    → Placed xs (ts u) u
    → Placed (set (set xs i (get_or xs j 0)) j (get_or xs i 0)) (ts' u) u
swap-Placed xs ts ts' i j u hi hj re pl =
    let long : length (set (set xs i (get_or xs j 0)) j (get_or xs i 0)) ≡ length xs =
      length-set (set xs i (get_or xs j 0)) j (get_or xs i 0) ∙ length-set xs i (get_or xs j 0) in
    elim ((re u).2) [
      | inl a ↦ rw (long, a.0) (hi, get_or-swapped_first xs i j hi hj ∙ a.1)
      | inr (inl b) ↦
          rw (long, b.0)
            (
              hj,
              get_or-set_self (set xs i (get_or xs j 0)) j (get_or xs i 0) 0
                    (rw (length-set xs i (get_or xs j 0)) hj)
                  ∙ b.1,
            )
      | inr (inr c) ↦
          rw (long, c.0)
            (
              pl.0,
              get_or-set_ne (set xs i (get_or xs j 0)) j (ts u).last_idx (get_or xs i 0) 0
                    (λ e. c.2 (ap (λ k. get_or xs k 0) e ∙ pl.1))
                  ∙ get_or-set_ne xs i (ts u).last_idx (get_or xs j 0) 0
                      (λ e. c.1 (ap (λ k. get_or xs k 0) e ∙ pl.1))
                  ∙ pl.1,
            )
    ]

pub swap-Reordered :
    (xs : List ℕ) (ts ts' : ℕ → ThreadSyncInfo) (i j : ℕ)
    → i < length xs
    → j < length xs
    → Relocated xs ts ts' i j
    → Reordered xs (set (set xs i (get_or xs j 0)) j (get_or xs i 0)) ts ts'
swap-Reordered xs ts ts' i j hi hj re = record {
  same_length =
      length-set (set xs i (get_or xs j 0)) j (get_or xs i 0) ∙ length-set xs i (get_or xs j 0);
  kept_state = λ u. (re u).0;
  kept_futex_word = λ u. (re u).1;
  same_count = λ p. count-swap p xs i j hi hj;
  recorded = λ r u h. swap-Placed xs ts ts' i j u hi hj re (r u (ap had_turn (sym (re u).0) ∙ h));
}

Reordered-∙ :
    (xs ys zs : List ℕ) (ts us vs : ℕ → ThreadSyncInfo)
    → Reordered xs ys ts us
    → Reordered ys zs us vs
    → Reordered xs zs ts vs
Reordered-∙ xs ys zs ts us vs p q = record {
  same_length = q.same_length ∙ p.same_length;
  kept_state = λ u. q.kept_state u ∙ p.kept_state u;
  kept_futex_word = λ u. q.kept_futex_word u ∙ p.kept_futex_word u;
  same_count = λ f. q.same_count f ∙ p.same_count f;
  recorded = λ r. q.recorded (p.recorded r);
}

-- Where a thread stands after two notes.
two_notes :
    (ts : ℕ → ThreadSyncInfo) (s t k l u : ℕ)
    → (((note (note ts s k) t l u).last_idx ≡ l) × (t ≡ u))
      ⊎ (((note (note ts s k) t l u).last_idx ≡ k) × (s ≡ u)
          ⊎ (((note (note ts s k) t l u).last_idx ≡ (ts u).last_idx) × (s ≢ u) × (t ≢ u)))
two_notes ts s t k l u = elim (ℕ_discrete u t) [
  | yes e ↦ inl (rw e (ground arith, refl))
  | no ne ↦ elim (ℕ_discrete u s) [
    | yes e ↦ inr (inl (ground (arith, ne, e), sym e))
    | no ns ↦ inr (inr (ground (arith, ne, ns), (λ e. ns (sym e)), (λ e. ne (sym e))))
  ]
]

-- The notes of the shuffle, and those of a reschedule.
shuffle-Relocated :
    (xs : List ℕ) (ts : ℕ → ThreadSyncInfo) (i j : ℕ)
    → Relocated xs ts (note (note ts (get_or xs i 0) j) (get_or xs j 0) i) i j
shuffle-Relocated xs ts i j u = (
  note-state (note ts (get_or xs i 0) j) (get_or xs j 0) i u ∙ note-state ts (get_or xs i 0) j u,
  note-futex_word (note ts (get_or xs i 0) j) (get_or xs j 0) i u
      ∙ note-futex_word ts (get_or xs i 0) j u,
  two_notes ts (get_or xs i 0) (get_or xs j 0) j i u,
)

pub reschedule-Relocated :
    (xs : List ℕ) (ts : ℕ → ThreadSyncInfo) (i j : ℕ)
    → Relocated xs ts (note (note ts (get_or xs j 0) i) (get_or xs i 0) j) i j
reschedule-Relocated xs ts i j u = (
  note-state (note ts (get_or xs j 0) i) (get_or xs i 0) j u ∙ note-state ts (get_or xs j 0) i u,
  note-futex_word (note ts (get_or xs j 0) i) (get_or xs i 0) j u
      ∙ note-futex_word ts (get_or xs j 0) i u,
  elim (two_notes ts (get_or xs j 0) (get_or xs i 0) i j u) [
    | inl a ↦ inr (inl a)
    | inr (inl b) ↦ inl b
    | inr (inr c) ↦ inr (inr (c.0, c.2, c.1))
  ],
)

pub shuffle_loop-Reordered :
    (draw : ℕ → ℕ) (n : ℕ) (xs : List ℕ) (ts : ℕ → ThreadSyncInfo)
    → ((i : ℕ) → draw i ≤ i)
    → (0 < n → n < length xs)
    → Reordered xs (shuffle_loop draw n xs ts).0 ts (shuffle_loop draw n xs ts).1
unfolding shuffle_loop
shuffle_loop-Reordered draw zero xs ts fair h = record {
  same_length = refl;
  kept_state = λ u. refl;
  kept_futex_word = λ u. refl;
  same_count = λ p. refl;
  recorded = λ r. r;
}
shuffle_loop-Reordered draw (suc i) xs ts fair h =
    let hi : suc i < length xs = h (omega arith) in
    let hj : draw (suc i) < length xs = omega (arith, fair (suc i)) in
    let first =
      swap-Reordered xs ts _ (suc i) (draw (suc i)) hi hj
        (shuffle-Relocated xs ts (suc i) (draw (suc i))) in
    Reordered-∙ xs _ _ ts _ _ first
      (shuffle_loop-Reordered draw i _ _ fair (λ p. rw first.same_length (omega arith)))

pub same_tally :
    {xs xs' : List ℕ} {ts ts' : ℕ → ThreadSyncInfo}
    → Reordered xs xs' ts ts'
    → (f : ThreadState → Bool) → tally f ts' xs' ≡ tally f ts xs
same_tally {xs} {xs'} {ts} {ts'} re f =
    tally-same f ts ts' xs' re.kept_state ∙ re.same_count (λ u. f (ts u).state)
