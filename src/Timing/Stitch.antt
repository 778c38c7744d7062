-- ===== src/Timing/Stitch.antt =====
-- Adding a child to an event that has no domain yet changes no state, no domain and no delay of any
-- event, and the children of that event only.
use cache_sim.Base.{
  Returns, set, get_or-set_self, get_or-set_ne, length, length-set, ℕ, ◌<◌, ◌≡◌, refl, ap, ◌∙◌,
  none, List, [], ◌∷◌, ◌++◌, ℕ_discrete, Returns->>=, Returns-assert, zero, suc, ◌+◌, sym, subst,
  Option, some, arith, ◌||◌, ◌≢◌,
}
use cache_sim.Timing.{
  no_event, ev_none, pass_domain, TimingEvent, event_at, add_child, set_min_start_cycle, is_queued,
  is_none,
}

-- The states, domains and delays of the events stay as they are.
pub record Unchanged (evs evs' : List TimingEvent) : Type 0 where
  pub same_length : length evs' ≡ length evs
  pub same_state : (k : ℕ) → (event_at evs' k).state ≡ (event_at evs k).state
  pub same_domain : (k : ℕ) → (event_at evs' k).domain ≡ (event_at evs k).domain
  pub same_delay : (k : ℕ) → (event_at evs' k).pre_delay ≡ (event_at evs k).pre_delay

pub Unchanged-∙ : (a b c : List TimingEvent) → Unchanged a b → Unchanged b c → Unchanged a c
Unchanged-∙ a b c p q = record {
  same_length = q.same_length ∙ p.same_length;
  same_state = λ k. q.same_state k ∙ p.same_state k;
  same_domain = λ k. q.same_domain k ∙ p.same_domain k;
  same_delay = λ k. q.same_delay k ∙ p.same_delay k;
}

pub set-Unchanged :
    (evs : List TimingEvent) (id : ℕ) (v : TimingEvent)
    → id < length evs
    → v.state ≡ (event_at evs id).state
    → v.domain ≡ (event_at evs id).domain
    → v.pre_delay ≡ (event_at evs id).pre_delay
    → Unchanged evs (set evs id v)
set-Unchanged evs id v h st dom del = record {
  same_length = length-set evs id v;
  same_state = λ k. elim (ℕ_discrete id k) [
    | yes e ↦ rw (← e, get_or-set_self evs id v no_event h) st
    | no ne ↦ ap (λ x. x.state) (get_or-set_ne evs id k v no_event ne)
  ];
  same_domain = λ k. elim (ℕ_discrete id k) [
    | yes e ↦ rw (← e, get_or-set_self evs id v no_event h) dom
    | no ne ↦ ap (λ x. x.domain) (get_or-set_ne evs id k v no_event ne)
  ];
  same_delay = λ k. elim (ℕ_discrete id k) [
    | yes e ↦ rw (← e, get_or-set_self evs id v no_event h) del
    | no ne ↦ ap (λ x. x.pre_delay) (get_or-set_ne evs id k v no_event ne)
  ];
}

pass_domain-none :
    (dom : Option ℕ) (evs : List TimingEvent) (child : ℕ)
    → dom ≡ none
    → Returns (pass_domain dom evs child) (λ evs'. evs' ≡ evs)
unfolding pass_domain
pass_domain-none none evs child e = refl
pass_domain-none (some dom) evs child e = cc

set-children :
    (evs : List TimingEvent) (id : ℕ) (v : TimingEvent) (k : ℕ)
    → id < length evs
    → v.children ≡ (event_at evs id).children
    → (event_at (set evs id v) k).children ≡ (event_at evs k).children
set-children evs id v k h same = elim (ℕ_discrete id k) [
  | yes e ↦ rw (← e, get_or-set_self evs id v no_event h) same
  | no ne ↦ ap (λ x. x.children) (get_or-set_ne evs id k v no_event ne)
]

-- The event `id` has one more child.
pub record Linked (evs : List TimingEvent) (id child : ℕ) (evs' : List TimingEvent) : Type 0 where
  pub unchanged : Unchanged evs evs'
  pub one_more : (event_at evs' id).children ≡ (event_at evs id).children ++ (child ∷ [])
  pub others : (k : ℕ) → id ≢ k → (event_at evs' k).children ≡ (event_at evs k).children

pub add_child-Linked :
    (evs : List TimingEvent) (id child : ℕ)
    → id < length evs
    → child < length evs
    → (event_at evs id).state ≡ ev_none
    → (event_at evs child).state ≡ ev_none
    → (event_at evs id).domain ≡ none
    → Returns (add_child evs id child) (Linked evs id child)
unfolding add_child
add_child-Linked evs id child hi hc si sc di =
    let v = record (event_at evs id) { children = (event_at evs id).children ++ (child ∷ []) } in
    let first = set-Unchanged evs id v hi refl refl refl in
    Returns-assert (is_none (event_at evs id).state || is_queued (event_at evs id).state) _
      (Linked evs id child) (rw si refl)
      (Returns-assert (is_none (event_at evs child).state) _ (Linked evs id child) (rw sc refl) (
        Returns->>= (pass_domain (event_at evs id).domain (set evs id v) child) _
          (λ e. e ≡ set evs id v) (Linked evs id child)
          (pass_domain-none (event_at evs id).domain (set evs id v) child di)
          λ e same.
            let w = record (event_at e child) {
              num_parents = (event_at e child).num_parents + 1;
            } in
            let inside : child < length e = rw (same, first.same_length) hc in
            record {
              unchanged =
                  Unchanged-∙ evs e _ (subst (Unchanged evs) (sym same) first)
                    (set-Unchanged e child w inside refl refl refl);
              one_more =
                  set-children e child w id inside refl
                  ∙ ap (λ l. (event_at l id).children) same
                  ∙ ap (λ x. x.children) (get_or-set_self evs id v no_event hi);
              others = λ k ne.
                  set-children e child w k inside refl
                  ∙ ap (λ l. (event_at l k).children) same
                  ∙ ap (λ x. x.children) (get_or-set_ne evs id k v no_event ne);
            }))

pub set_min_start_cycle-Unchanged :
    (evs : List TimingEvent) (id c : ℕ)
    → id < length evs
    → Unchanged evs (set_min_start_cycle evs id c)
unfolding set_min_start_cycle
set_min_start_cycle-Unchanged evs id c h =
    set-Unchanged evs id (record (event_at evs id) { min_start_cycle = c }) h refl refl refl

pub set_min_start_cycle-children :
    (evs : List TimingEvent) (id c k : ℕ)
    → id < length evs
    → (event_at (set_min_start_cycle evs id c) k).children ≡ (event_at evs k).children
unfolding set_min_start_cycle
set_min_start_cycle-children evs id c k h =
    set-children evs id (record (event_at evs id) { min_start_cycle = c }) k h refl

-- The old events, and three new ones behind them.
pub length-append3 :
    (evs : List TimingEvent) (x y z : TimingEvent)
    → length (evs ++ (x ∷ y ∷ z ∷ [])) ≡ length evs + 3
length-append3 [] x y z = refl
length-append3 (e ∷ evs) x y z = omega (arith, length-append3 evs x y z)

pub event_at-append_old :
    (evs new : List TimingEvent) (k : ℕ) → k < length evs → event_at (evs ++ new) k ≡ event_at evs k
event_at-append_old [] new k h = absurd (omega arith)
event_at-append_old (e ∷ evs) new zero h = refl
event_at-append_old (e ∷ evs) new (suc k) h = event_at-append_old evs new k (omega arith)

zero_add : (k : ℕ) → 0 + k ≡ k
zero_add k = omega arith

suc_add : (n k : ℕ) → suc n + k ≡ suc (n + k)
suc_add n k = omega arith

pub event_at-append_new :
    (evs new : List TimingEvent) (k : ℕ) → event_at (evs ++ new) (length evs + k) ≡ event_at new k
event_at-append_new [] new k = ap (event_at new) (zero_add k)
event_at-append_new (e ∷ evs) new k =
    ap (event_at (e ∷ (evs ++ new))) (suc_add (length evs) k) ∙ event_at-append_new evs new k
