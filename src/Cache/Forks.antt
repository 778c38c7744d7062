-- ===== src/Cache/Forks.antt =====
-- The edges that join the records of an access.
use cache_sim.Sched.Scheduler.Calls.{start}
use cache_sim.Timing.Stitch.{Unchanged, Unchanged-∙, add_child-Linked, Linked}
use cache_sim.Base.{
  Returns, ◌>>=◌, Outcome, Returns->>=, length, ℕ, ◌<◌, ◌≡◌, ◌∙◌, none, List, [], ◌∷◌, ◌++◌, ap,
  sym, ◌≢◌,
}
use cache_sim.Timing.{add_child, EventRecorder, ev_none, event_at, TimingEvent}

-- The event can still be given children and parents.
abbrev pub Startable : List TimingEvent → ℕ → Type 0
Startable evs id = (id < length evs) × ((event_at evs id).state ≡ ev_none)

pub Unchanged-Startable :
    (evs evs' : List TimingEvent) (k : ℕ) → Unchanged evs evs' → Startable evs k → Startable evs' k
Unchanged-Startable evs evs' k u (h, s) = (rw u.same_length h, u.same_state k ∙ s)

-- An event to which `add_child` passes no domain on.
abbrev pub Plain : List TimingEvent → ℕ → Type 0
Plain evs id = Startable evs id × ((event_at evs id).domain ≡ none)

pub Unchanged-Plain :
    (evs evs' : List TimingEvent) (k : ℕ) → Unchanged evs evs' → Plain evs k → Plain evs' k
Unchanged-Plain evs evs' k u (s, d) = (Unchanged-Startable evs evs' k u s, u.same_domain k ∙ d)

add_child-Plain :
    (evs : List TimingEvent) (id child : ℕ)
    → Plain evs id
    → Startable evs child
    → Returns (add_child evs id child) (Linked evs id child)
add_child-Plain evs id child ((hi, si), di) (hc, sc) = add_child-Linked evs id child hi hc si sc di

-- The edges of a start event and two delays, which had no children.
pub record Forked (evs : List TimingEvent) (start d_wb d_acc wb_start acc_start : ℕ)
    (e : List TimingEvent) : Type 0 where
  pub unchanged : Unchanged evs e
  pub forks : (event_at e start).children ≡ d_wb ∷ d_acc ∷ []
  pub to_wb : (event_at e d_wb).children ≡ wb_start ∷ []
  pub to_acc : (event_at e d_acc).children ≡ acc_start ∷ []

abbrev pub Childless : List TimingEvent → ℕ → Type 0
Childless evs k = (event_at evs k).children ≡ []

abbrev more : ℕ → List ℕ → List ℕ
more child l = l ++ (child ∷ [])

four-Forked :
    (evs e1 e2 e3 e4 : List TimingEvent) (start d_wb d_acc wb_start acc_start : ℕ)
    → start ≢ d_wb
    → start ≢ d_acc
    → d_wb ≢ d_acc
    → Childless evs start × Childless evs d_wb × Childless evs d_acc
    → Linked evs start d_wb e1
    → Linked e1 d_wb wb_start e2
    → Linked e2 start d_acc e3
    → Linked e3 d_acc acc_start e4
    → Forked evs start d_wb d_acc wb_start acc_start e4
four-Forked evs e1 e2 e3 e4 start d_wb d_acc wb acc n1 n2 n3 (c1, c2, c3) l1 l2 l3 l4 =
    let o1 : d_wb ≢ start = λ e. n1 (sym e) in
    let o2 : d_acc ≢ start = λ e. n2 (sym e) in
    let o3 : d_acc ≢ d_wb = λ e. n3 (sym e) in
    record {
      unchanged =
          Unchanged-∙ evs e3 e4
            (Unchanged-∙ evs e2 e3 (Unchanged-∙ evs e1 e2 l1.unchanged l2.unchanged) l3.unchanged)
            l4.unchanged;
      forks =
          l4.others start o2
          ∙ l3.one_more
          ∙ ap (more d_acc) (l2.others start o1 ∙ l1.one_more ∙ ap (more d_wb) c1);
      to_wb =
          l4.others d_wb o3
          ∙ l3.others d_wb n1
          ∙ l2.one_more
          ∙ ap (more wb) (l1.others d_wb n1 ∙ c2);
      to_acc =
          l4.one_more
          ∙ ap (more acc) (l3.others d_acc n2 ∙ l2.others d_acc n3 ∙ l1.others d_acc n2 ∙ c3);
    }

pub link4 :
    (evs : List TimingEvent) (start d_wb d_acc wb_start acc_start : ℕ)
    → Plain evs start
    → Plain evs d_wb
    → Plain evs d_acc
    → Startable evs wb_start
    → Startable evs acc_start
    → start ≢ d_wb
    → start ≢ d_acc
    → d_wb ≢ d_acc
    → Childless evs start × Childless evs d_wb × Childless evs d_acc
    → (k : List TimingEvent → Outcome EventRecorder) (Q : EventRecorder → Type 0)
    → ((e : List TimingEvent) → Forked evs start d_wb d_acc wb_start acc_start e → Returns (k e) Q)
    → Returns
        (add_child evs start d_wb >>= λ e1. add_child e1 d_wb wb_start >>= λ e2.
          add_child e2 start d_acc >>= λ e3. add_child e3 d_acc acc_start >>= k)
        Q
link4 evs start d_wb d_acc wb_start acc_start ps pw pa sw sa n1 n2 n3 none_yet k Q cont =
    Returns->>= (add_child evs start d_wb) _ (Linked evs start d_wb) Q
      (add_child-Plain evs start d_wb ps pw.0)
      λ e1 l1.
        let u1 = l1.unchanged in
        Returns->>= (add_child e1 d_wb wb_start) _ (Linked e1 d_wb wb_start) Q
          (add_child-Plain e1 d_wb wb_start (Unchanged-Plain evs e1 d_wb u1 pw)
            (Unchanged-Startable evs e1 wb_start u1 sw))
          λ e2 l2.
            let u2 = Unchanged-∙ evs e1 e2 u1 l2.unchanged in
            Returns->>= (add_child e2 start d_acc) _ (Linked e2 start d_acc) Q
              (add_child-Plain e2 start d_acc (Unchanged-Plain evs e2 start u2 ps)
                (Unchanged-Startable evs e2 d_acc u2 pa.0))
              λ e3 l3.
                let u3 = Unchanged-∙ evs e2 e3 u2 l3.unchanged in
                Returns->>= (add_child e3 d_acc acc_start) k (Linked e3 d_acc acc_start) Q
                  (add_child-Plain e3 d_acc acc_start (Unchanged-Plain evs e3 d_acc u3 pa)
                    (Unchanged-Startable evs e3 acc_start u3 sa))
                  λ e4 l4. cont e4 (
                    four-Forked evs e1 e2 e3 e4 start d_wb d_acc wb_start acc_start n1 n2 n3
                      none_yet l1 l2 l3 l4)
