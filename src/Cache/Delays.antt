-- ===== src/Cache/Delays.antt =====
-- The three new events of a joined record, before they get children.
use cache_sim.Cache.Forks.{Startable, Plain, Childless}
use cache_sim.Timing.Stitch.{
  Unchanged, set_min_start_cycle-Unchanged, length-append3, Unchanged-∙,
  set_min_start_cycle-children, event_at-append_old, event_at-append_new,
}
use cache_sim.Base.{
  length, ℕ, ◌+◌, ◌<◌, ◌≡◌, ◌∙◌, none, List, [], ◌∷◌, ◌++◌, arith, suc, refl, subst, ap, zero, ◌%◌,
  ◌^◌,
}
use cache_sim.Timing.{delay_event, ev_none, set_min_start_cycle, event_at, TimingEvent}

-- The store with three new delays, and the marks on them.
abbrev pub grown : List TimingEvent → ℕ → ℕ → List TimingEvent
grown evs a b = evs ++ (delay_event 0 ∷ delay_event a ∷ delay_event b ∷ [])

abbrev pub marked : List TimingEvent → ℕ → ℕ → List TimingEvent
marked evs n c =
    set_min_start_cycle (set_min_start_cycle (set_min_start_cycle evs n c) (n + 1) c) (n + 2) c

pub marked-Unchanged :
    (evs : List TimingEvent) (n c : ℕ) → n + 2 < length evs → Unchanged evs (marked evs n c)
marked-Unchanged evs n c h =
    let m1 = set_min_start_cycle evs n c in
    let m2 = set_min_start_cycle m1 (n + 1) c in
    let u1 = set_min_start_cycle-Unchanged evs n c (omega (arith, h)) in
    let u2 =
      Unchanged-∙ evs m1 m2 u1
        (set_min_start_cycle-Unchanged m1 (n + 1) c (omega (arith, h, u1.same_length))) in
    Unchanged-∙ evs m2 _ u2
      (set_min_start_cycle-Unchanged m2 (n + 2) c (omega (arith, h, u2.same_length)))

pub grown-Plain :
    (evs : List TimingEvent) (a b k : ℕ) → k < 3 → Plain (grown evs a b) (length evs + k)
unfolding delay_event
grown-Plain evs a b k h =
    let long = length-append3 evs (delay_event 0) (delay_event a) (delay_event b) in
    let here = event_at-append_new evs (delay_event 0 ∷ delay_event a ∷ delay_event b ∷ []) k in
    (
      (omega (arith, long), ap (λ e. e.state) here ∙ new_state a b k h),
      ap (λ e. e.domain) here ∙ new_domain a b k h,
    )
  where
    new_state :
        (a b k : ℕ)
        → k < 3
        → (event_at (delay_event 0 ∷ delay_event a ∷ delay_event b ∷ []) k).state ≡ ev_none
    new_state a b zero h = refl
    new_state a b (suc zero) h = refl
    new_state a b (suc (suc zero)) h = refl
    new_state a b (suc (suc (suc k))) h = absurd (omega arith)

    new_domain :
        (a b k : ℕ)
        → k < 3
        → (event_at (delay_event 0 ∷ delay_event a ∷ delay_event b ∷ []) k).domain ≡ none
    new_domain a b zero h = refl
    new_domain a b (suc zero) h = refl
    new_domain a b (suc (suc zero)) h = refl
    new_domain a b (suc (suc (suc k))) h = absurd (omega arith)

pub grown-Startable :
    (evs : List TimingEvent) (a b k : ℕ) → Startable evs k → Startable (grown evs a b) k
grown-Startable evs a b k (h, s) = (
  omega (arith, length-append3 evs (delay_event 0) (delay_event a) (delay_event b)),
  ap (λ e. e.state) (event_at-append_old evs _ k h) ∙ s,
)

new_children :
    (a b k : ℕ) → (event_at (delay_event 0 ∷ delay_event a ∷ delay_event b ∷ []) k).children ≡ []
unfolding delay_event
new_children a b zero = refl
new_children a b (suc zero) = refl
new_children a b (suc (suc zero)) = refl
new_children a b (suc (suc (suc k))) = refl

marked-children :
    (evs : List TimingEvent) (n c k : ℕ)
    → n + 2 < length evs
    → (event_at (marked evs n c) k).children ≡ (event_at evs k).children
marked-children evs n c k h =
    let m1 = set_min_start_cycle evs n c in
    let m2 = set_min_start_cycle m1 (n + 1) c in
    let u1 = set_min_start_cycle-Unchanged evs n c (omega (arith, h)) in
    let u2 = set_min_start_cycle-Unchanged m1 (n + 1) c (omega (arith, h, u1.same_length)) in
    set_min_start_cycle-children m2 (n + 2) c k (omega (arith, h, u1.same_length, u2.same_length))
    ∙ set_min_start_cycle-children m1 (n + 1) c k (omega (arith, h, u1.same_length))
    ∙ set_min_start_cycle-children evs n c k (omega (arith, h))

pub add_zero : (n : ℕ) → n + 0 ≡ n
add_zero n = omega arith

pub delays :
    (evs : List TimingEvent) (a b c : ℕ)
    → ((event_at (marked (grown evs a b) (length evs) c) (length evs)).pre_delay ≡ 0)
      × ((event_at (marked (grown evs a b) (length evs) c) (length evs + 1)).pre_delay ≡ a % 2 ^ 32)
      × ((event_at (marked (grown evs a b) (length evs) c) (length evs + 2)).pre_delay ≡ b % 2 ^ 32)
unfolding delay_event
delays evs a b c =
    let new = delay_event 0 ∷ delay_event a ∷ delay_event b ∷ [] in
    let u =
      marked-Unchanged (grown evs a b) (length evs) c
        (omega (arith, length-append3 evs (delay_event 0) (delay_event a) (delay_event b))) in
    (
      subst (λ k. (event_at (marked (grown evs a b) (length evs) c) k).pre_delay ≡ 0)
          (add_zero (length evs))
          (u.same_delay (length evs + 0) ∙ ap (λ e. e.pre_delay) (event_at-append_new evs new 0)),
      u.same_delay (length evs + 1) ∙ ap (λ e. e.pre_delay) (event_at-append_new evs new 1),
      u.same_delay (length evs + 2) ∙ ap (λ e. e.pre_delay) (event_at-append_new evs new 2),
    )

pub childless :
    (evs : List TimingEvent) (a b c k : ℕ)
    → Childless (marked (grown evs a b) (length evs) c) (length evs + k)
childless evs a b c k =
    marked-children (grown evs a b) (length evs) c (length evs + k)
      (omega (arith, length-append3 evs (delay_event 0) (delay_event a) (delay_event b)))
    ∙ ap (λ e. e.children)
        (event_at-append_new evs (delay_event 0 ∷ delay_event a ∷ delay_event b ∷ []) k)
    ∙ new_children a b k
