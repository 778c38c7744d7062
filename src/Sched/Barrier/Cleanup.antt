-- ===== src/Sched/Barrier/Cleanup.antt =====
-- The cleanup pass: the threads that left go offline and off the run list.
use cache_sim.Mesi.Top.Count.{within}
use cache_sim.Sched.Barrier.Tally.{
  count-set, count-drop_last, one_if, get_or-set_equal, count, length-drop_last, occurs,
  count-change_at, count-none_at,
}
use cache_sim.Sched.Barrier.Sound.{
  Recorded, Armed, tally, Listed, note-state, write_other, write_self, had_turn, state_left, Placed,
  note-futex_word,
}
use cache_sim.Sched.Barrier.{
  ThreadSyncInfo, is_left, is_running, is_waiting, offline, ThreadState, move, note, cleanup_loop,
}
use cache_sim.Base.{
  set, drop_last, length-set, length, get_or, ℕ, zero, suc, ◌+◌, ◌-◌, ◌<◌, ◌≡◌, refl, ap, ◌∙◌, Bool,
  List, [], ◌∷◌, arith, ◌≢◌, true, ℕ_discrete, ◌==◌, get_or-set_ne, get_or-set_self, sym,
  Bool-cases, inl, inr, false,
}

-- What the pass leaves of a run list and of its threads.
pub record Cleaned (xs xs' : List ℕ) (ts ts' : ℕ → ThreadSyncInfo) : Type 0 where
  pub listed : Listed xs' ts'
  pub recorded : Recorded xs' ts'
  pub armed : Armed ts'
  pub same_running : tally is_running ts' xs' ≡ tally is_running ts xs
  pub same_waiting : tally is_waiting ts' xs' ≡ tally is_waiting ts xs
  pub shorter : length xs' + tally is_left ts xs ≡ length xs
  pub none_left : tally is_left ts' xs' ≡ 0

-- The list without its element at `i`, whose place the last element takes.
pub count-take_out :
    (p : ℕ → Bool) (xs : List ℕ) (i : ℕ)
    → i < length xs
    → count p (drop_last (set xs i (get_or xs (length xs - 1) 0))) + one_if (p (get_or xs i 0))
      ≡ count p xs
count-take_out p xs i h =
    let last = get_or xs (length xs - 1) 0 in
    let first = count-set p xs i last h in
    let second = count-drop_last p (set xs i last) (rw (length-set xs i last) (omega arith)) in
    let same =
      ap (λ k. one_if (p (get_or (set xs i last) (k - 1) 0))) (length-set xs i last)
      ∙ ap (λ v. one_if (p v)) (get_or-set_equal xs i (length xs - 1) h) in
    omega (arith, first, second, same)

get_or-drop_last :
    (xs : List ℕ) (i : ℕ) → suc i < length xs → get_or (drop_last xs) i 0 ≡ get_or xs i 0
get_or-drop_last [] i h = absurd (omega arith)
get_or-drop_last (x ∷ []) i h = absurd (omega arith)
get_or-drop_last (x ∷ y ∷ ys) zero h = refl
get_or-drop_last (x ∷ y ∷ ys) (suc i) h = get_or-drop_last (y ∷ ys) i (omega arith)

module _ (xs : List ℕ) (ts : ℕ → ThreadSyncInfo) (idx : ℕ) (listed : Listed xs ts)
    (inside : idx < length xs) (is_out : is_left (ts (get_or xs idx 0)).state ≡ true) where
  abbrev wtid : ℕ
  wtid = get_or xs idx 0

  abbrev stid : ℕ
  stid = get_or xs (length xs - 1) 0

  abbrev xs1 : List ℕ
  xs1 = drop_last (set xs idx stid)

  abbrev ts1 : ℕ → ThreadSyncInfo
  ts1 = note (move ts wtid offline) stid idx

  length-taken : suc (length xs1) ≡ length xs
  length-taken = omega (arith, length-drop_last (set xs idx stid), length-set xs idx stid)

  once : occurs wtid xs ≡ 1
  once = rw (listed wtid, state_left _ is_out) refl

  state_here : (ts1 wtid).state ≡ offline
  state_here =
      note-state (move ts wtid offline) stid idx wtid
      ∙ ap (λ i. i.state) (write_self ts wtid (record (ts wtid) { state = offline }))

  state_other : (u : ℕ) → u ≢ wtid → (ts1 u).state ≡ (ts u).state
  state_other u ne =
      note-state (move ts wtid offline) stid idx u
      ∙ ap (λ i. i.state) (write_other ts wtid u (record (ts wtid) { state = offline }) ne)

  taken_once : occurs wtid xs1 ≡ 0
  taken_once = ground (arith, count-take_out (λ u. u == wtid) xs idx inside, once)

  taken_same : (t : ℕ) → t ≢ wtid → occurs t xs1 ≡ occurs t xs
  taken_same t ne =
      let differs : wtid ≢ t = λ e. ne (sym e) in
      ground (arith, count-take_out (λ u. u == t) xs idx inside, differs)

  taken_Listed : Listed xs1 ts1
  taken_Listed t = elim (ℕ_discrete t wtid) [
    | yes e ↦ rw (e, state_here) taken_once
    | no ne ↦ rw (state_other t ne) (taken_same t ne ∙ listed t)
  ]

  not_last : (t l : ℕ) → t ≢ stid → get_or xs l 0 ≡ t → l < length xs → suc l < length xs
  not_last t l ns e h =
      let differs : l ≢ length xs - 1 = λ k. ns (sym e ∙ ap (λ i. get_or xs i 0) k) in
      omega (arith, differs)

  taken_Placed : (t : ℕ) → t ≢ wtid → Placed xs (ts t) t → Placed xs1 (ts1 t) t
  taken_Placed t ne (within, there) =
      let long : length (set xs idx stid) ≡ length xs = length-set xs idx stid in
      elim (ℕ_discrete t stid) [
        | yes e ↦
            let room : suc idx < length xs =
              let differs : idx ≢ length xs - 1 = λ k. ne (e ∙ ap (λ i. get_or xs i 0) (sym k)) in
              omega (arith, differs) in
            let moved : (ts1 t).last_idx ≡ idx = rw e (ground arith) in
            rw moved (
              omega (arith, length-taken),
              get_or-drop_last (set xs idx stid) idx (omega (arith, long))
                  ∙ get_or-set_self xs idx stid 0 inside
                  ∙ sym e,
            )
        | no ns ↦
            let room : suc (ts t).last_idx < length xs =
              not_last t (ts t).last_idx ns there within in
            let stays : (ts1 t).last_idx ≡ (ts t).last_idx = ground (arith, ne, ns) in
            rw stays (
              omega (arith, length-taken),
              get_or-drop_last (set xs idx stid) (ts t).last_idx (omega (arith, long))
                  ∙ get_or-set_ne xs idx (ts t).last_idx stid 0
                      (λ k. ne (sym there ∙ ap (λ i. get_or xs i 0) (sym k)))
                  ∙ there,
            )
      ]

  taken_Recorded : Recorded xs ts → Recorded xs1 ts1
  taken_Recorded r t h =
      let ne : t ≢ wtid =
        λ e. let off = ap (λ v. had_turn (ts1 v).state) e ∙ ap had_turn state_here in cc in
      taken_Placed t ne (r t (ap had_turn (sym (state_other t ne)) ∙ h))

  taken_tally :
      (f : ThreadState → Bool) → tally f ts1 xs1 + one_if (f (ts wtid).state) ≡ tally f ts xs
  taken_tally f = omega (
    arith,
    count-take_out (λ u. f (ts u).state) xs idx inside,
    count-change_at (λ u. f (ts u).state) (λ u. f (ts1 u).state) xs1 wtid 0
        (λ u ne. ap f (sym (state_other u ne))) taken_once,
  )

  taken_Armed : Armed ts → Armed ts1
  taken_Armed a t = elim (ℕ_discrete t wtid) [
    | yes e ↦ rw (e, state_here) (λ h. cc)
    | no ne ↦ rw (state_other t ne) (λ h.
        note-futex_word (move ts wtid offline) stid idx t
        ∙ ap (λ i. i.futex_word) (write_other ts wtid t (record (ts wtid) { state = offline }) ne)
        ∙ a t h)
  ]

  -- The elements before `idx` stay where they are.
  taken_before :
      (i : ℕ)
      → i < idx
      → is_left (ts (get_or xs i 0)).state ≡ false
      → is_left (ts1 (get_or xs1 i 0)).state ≡ false
  taken_before i h stays =
      let there : get_or xs1 i 0 ≡ get_or xs i 0 =
        get_or-drop_last (set xs idx stid) i (omega (arith, length-set xs idx stid))
        ∙ get_or-set_ne xs idx i stid 0 (λ e. omega arith) in
      let differs : get_or xs i 0 ≢ wtid = λ e. let same = ap (λ v. is_left (ts v).state) e in cc in
      rw (there, state_other (get_or xs i 0) differs) stays

  -- The rest of the pass over the shorter list.
  taken_Cleaned :
      (xs' : List ℕ) (ts' : ℕ → ThreadSyncInfo) → Cleaned xs1 xs' ts1 ts' → Cleaned xs xs' ts ts'
  taken_Cleaned xs' ts' c =
      let out = state_left _ is_out in
      record {
        listed = c.listed;
        recorded = c.recorded;
        armed = c.armed;
        same_running =
            omega
              (arith, c.same_running, taken_tally is_running, ap (λ s. one_if (is_running s)) out);
        same_waiting =
            omega
              (arith, c.same_waiting, taken_tally is_waiting, ap (λ s. one_if (is_waiting s)) out);
        shorter =
            omega (
              arith,
              c.shorter,
              length-taken,
              taken_tally is_left,
              ap (λ s. one_if (is_left s)) out,
            );
        none_left = c.none_left;
      }

pub cleanup_loop-Cleaned :
    (k idx : ℕ) (xs : List ℕ) (ts : ℕ → ThreadSyncInfo)
    → idx + k ≡ length xs
    → Listed xs ts
    → Recorded xs ts
    → Armed ts
    → ((i : ℕ) → i < idx → is_left (ts (get_or xs i 0)).state ≡ false)
    → Cleaned xs (cleanup_loop k idx xs ts).0 ts (cleanup_loop k idx xs ts).1
unfolding cleanup_loop
cleanup_loop-Cleaned zero idx xs ts e li re ar before =
    let none_here = count-none_at (λ u. is_left (ts u).state) xs (λ i h. before i (omega arith)) in
    record {
      listed = li;
      recorded = re;
      armed = ar;
      same_running = refl;
      same_waiting = refl;
      shorter = omega (arith, none_here);
      none_left = none_here;
    }
cleanup_loop-Cleaned (suc k) idx xs ts e li re ar before =
    elim (Bool-cases (is_left (ts (get_or xs idx 0)).state)) [
      | inl out ↦
          rw (cleanup_loop, out)
            (taken_Cleaned xs ts idx li (omega arith) out _ _ (
              cleanup_loop-Cleaned k idx _ _
                (omega (arith, length-taken xs ts idx li (omega arith) out))
                (taken_Listed xs ts idx li (omega arith) out)
                (taken_Recorded xs ts idx li (omega arith) out re)
                (taken_Armed xs ts idx li (omega arith) out ar)
                (λ i h. taken_before xs ts idx li (omega arith) out i h (before i h))))
      | inr stays ↦
          rw (cleanup_loop, stays)
            (cleanup_loop-Cleaned k (idx + 1) xs ts (omega arith) li re ar (λ i h.
              elim (ℕ_discrete i idx) [
                | yes here ↦ rw here stays
                | no ne ↦ before i (omega arith)
              ]))
    ]
