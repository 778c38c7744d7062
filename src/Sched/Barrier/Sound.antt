-- ===== src/Sched/Barrier/Sound.antt =====
-- What holds of a barrier between two steps.
use cache_sim.Sched.Barrier.Tally.{count, count-same, one_if, occurs, count, count-change_at}
use cache_sim.Sched.Barrier.{
  is_left, write, is_offline, is_waiting, ThreadSyncInfo, note, Barrier, is_running, ThreadState,
  waiting, offline, running, left,
}
use cache_sim.Base.{
  length, get_or, ℕ, ◌+◌, ◌≤◌, ◌<◌, ◌≡◌, sym, ap, ◌≢◌, Bool, true, false, not, ◌||◌, List, [], ◌∷◌,
  arith, ℕ_discrete, refl,
}

-- The threads on the run list whose state satisfies `f`.
abbrev pub tally : (ThreadState → Bool) → (ℕ → ThreadSyncInfo) → List ℕ → ℕ
tally f ts xs = count (λ t. f (ts t).state) xs

-- The run list holds each thread that is not offline once.
abbrev pub Listed : List ℕ → (ℕ → ThreadSyncInfo) → Type 0
Listed xs ts = (t : ℕ) → occurs t xs ≡ one_if (not (is_offline (ts t).state))

-- A thread that had its turn knows its place.
abbrev pub Placed : List ℕ → ThreadSyncInfo → ℕ → Type 0
Placed xs info t = (info.last_idx < length xs) × (get_or xs info.last_idx 0 ≡ t)

abbrev pub had_turn : ThreadState → Bool
had_turn s = is_running s || is_left s

abbrev pub Recorded : List ℕ → (ℕ → ThreadSyncInfo) → Type 0
Recorded xs ts = (t : ℕ) → had_turn (ts t).state ≡ true → Placed xs (ts t) t

-- A thread that waits sleeps until its futex word is cleared.
abbrev pub Armed : (ℕ → ThreadSyncInfo) → Type 0
Armed ts = (t : ℕ) → is_waiting (ts t).state ≡ true → (ts t).futex_word ≡ 1

pub record Sound {W : Type 0} (b : Barrier W) : Type 0 where
  pub listed : Listed b.run_list b.thread_list
  pub recorded : Recorded b.run_list b.thread_list
  pub armed : Armed b.thread_list
  pub cur_le : b.cur_thread_idx ≤ length b.run_list
  pub running_count : b.running_threads ≡ tally is_running b.thread_list b.run_list
  pub left_count : b.left_threads ≡ tally is_left b.thread_list b.run_list
  pub limited : b.running_threads ≤ b.parallel_threads

pub state_waiting : (s : ThreadState) → is_waiting s ≡ true → s ≡ waiting
state_waiting waiting e = refl
state_waiting offline e = cc
state_waiting running e = cc
state_waiting left e = cc

pub state_running : (s : ThreadState) → is_running s ≡ true → s ≡ running
state_running running e = refl
state_running offline e = cc
state_running waiting e = cc
state_running left e = cc

pub state_left : (s : ThreadState) → is_left s ≡ true → s ≡ left
state_left left e = refl
state_left offline e = cc
state_left waiting e = cc
state_left running e = cc

pub state_offline : (s : ThreadState) → is_offline s ≡ true → s ≡ offline
state_offline offline e = refl
state_offline waiting e = cc
state_offline running e = cc
state_offline left e = cc

pub write_self : (ts : ℕ → ThreadSyncInfo) (t : ℕ) (v : ThreadSyncInfo) → write ts t v t ≡ v
write_self ts t v = ground arith

pub write_other :
    (ts : ℕ → ThreadSyncInfo) (t u : ℕ) (v : ThreadSyncInfo) → u ≢ t → write ts t v u ≡ ts u
write_other ts t u v ne = ground (arith, ne)

pub note-state : (ts : ℕ → ThreadSyncInfo) (t i u : ℕ) → (note ts t i u).state ≡ (ts u).state
note-state ts t i u = elim (ℕ_discrete u t) [
  | yes e ↦ rw e (ground arith)
  | no ne ↦ ground (arith, ne)
]

pub note-futex_word :
    (ts : ℕ → ThreadSyncInfo) (t i u : ℕ) → (note ts t i u).futex_word ≡ (ts u).futex_word
note-futex_word ts t i u = elim (ℕ_discrete u t) [
  | yes e ↦ rw e (ground arith)
  | no ne ↦ ground (arith, ne)
]

pub tally-same :
    (f : ThreadState → Bool) (ts ts' : ℕ → ThreadSyncInfo) (xs : List ℕ)
    → ((u : ℕ) → (ts' u).state ≡ (ts u).state)
    → tally f ts' xs ≡ tally f ts xs
tally-same f ts ts' xs h = count-same _ _ xs (λ u. ap f (h u))

-- A thread on the list, once, that changes its state.
pub tally-write :
    (f : ThreadState → Bool) (ts : ℕ → ThreadSyncInfo) (t : ℕ) (v : ThreadSyncInfo) (xs : List ℕ)
    → occurs t xs ≡ 1
    → tally f (write ts t v) xs + one_if (f (ts t).state) ≡ tally f ts xs + one_if (f v.state)
tally-write f ts t v xs once =
    let change =
      count-change_at (λ u. f (ts u).state) (λ u. f (write ts t v u).state) xs t 1
        (λ u ne. ap (λ i. f i.state) (sym (write_other ts t u v ne))) once in
    omega (arith, change, ap (λ i. one_if (f i.state)) (write_self ts t v))

-- A thread that is not on the list.
pub tally-write_absent :
    (f : ThreadState → Bool) (ts : ℕ → ThreadSyncInfo) (t : ℕ) (v : ThreadSyncInfo) (xs : List ℕ)
    → occurs t xs ≡ 0
    → tally f (write ts t v) xs ≡ tally f ts xs
tally-write_absent f ts t v xs none_here =
    let change =
      count-change_at (λ u. f (ts u).state) (λ u. f (write ts t v u).state) xs t 0
        (λ u ne. ap (λ i. f i.state) (sym (write_other ts t u v ne))) none_here in
    omega (arith, change)

-- All threads on the list wait, run or left.
pub tally-total :
    (ts : ℕ → ThreadSyncInfo) (xs : List ℕ)
    → ((t : ℕ) → 0 < occurs t xs → is_offline (ts t).state ≡ false)
    → tally is_waiting ts xs + tally is_running ts xs + tally is_left ts xs ≡ length xs
tally-total ts [] h = omega arith
tally-total ts (x ∷ xs) h =
    ground (arith, h x (ground arith), tally-total ts xs (λ t o. h t (ground (arith, o))))

-- A thread of the list that goes on to another state in which it stays there.
pub record Changed (xs : List ℕ) (ts : ℕ → ThreadSyncInfo) : Type 0 where
  pub listed : Listed xs ts
  pub recorded : Recorded xs ts
  pub armed : Armed ts

pub write-Changed :
    (xs : List ℕ) (ts : ℕ → ThreadSyncInfo) (t : ℕ) (v : ThreadSyncInfo)
    → Changed xs ts
    → is_offline v.state ≡ false
    → occurs t xs ≡ 1
    → (had_turn v.state ≡ true → Placed xs v t)
    → (is_waiting v.state ≡ true → v.futex_word ≡ 1)
    → Changed xs (write ts t v)
write-Changed xs ts t v c on once placed futex = record {
  listed = λ u. elim (ℕ_discrete u t) [
    | yes e ↦ rw (e, write_self ts t v, on) once
    | no ne ↦ rw (write_other ts t u v ne) (c.listed u)
  ];
  recorded = λ u. elim (ℕ_discrete u t) [
    | yes e ↦ rw (e, write_self ts t v) placed
    | no ne ↦ rw (write_other ts t u v ne) (c.recorded u)
  ];
  armed = λ u. elim (ℕ_discrete u t) [
    | yes e ↦ rw (e, write_self ts t v) futex
    | no ne ↦ rw (write_other ts t u v ne) (c.armed u)
  ];
}

module _ {W : Type 0} where
  pub Sound-Changed : (b : Barrier W) → Sound b → Changed b.run_list b.thread_list
  Sound-Changed b so = record { listed = so.listed; recorded = so.recorded; armed = so.armed }

  pub listed_once :
      (b : Barrier W) (t : ℕ)
      → Sound b
      → is_offline (b.thread_list t).state ≡ false
      → occurs t b.run_list ≡ 1
  listed_once b t so here = rw (so.listed t, here) refl

  pub counts-total :
      (b : Barrier W)
      → Sound b
      → tally is_waiting b.thread_list b.run_list + b.running_threads + b.left_threads
        ≡ length b.run_list
  counts-total b so = omega (
    arith,
    so.running_count,
    so.left_count,
    tally-total b.thread_list b.run_list (λ t o. ground (arith, so.listed t, o)),
  )

  -- A thread that waits is counted.
  pub waiting-counted :
      (b : Barrier W) (t : ℕ)
      → Sound b
      → (b.thread_list t).state ≡ waiting
      → 0 < tally is_waiting b.thread_list b.run_list
  waiting-counted b t so w =
      let gone : ThreadSyncInfo = record (b.thread_list t) { state = left } in
      omega (
        arith,
        tally-write is_waiting b.thread_list t gone b.run_list (listed_once b t so (rw w refl)),
        ap (λ s. one_if (is_waiting s)) w,
      )
