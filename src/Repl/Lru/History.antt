-- ===== src/Repl/Lru/History.antt =====
-- The time stamps of `LRUReplPolicy` against the history of a cache: LRU evicts the line whose last
-- use lies farthest back.
use cache_sim.Repl.Lru.Rank.{rank-Least, Least, Among}
use cache_sim.Base.{
  if◌then◌else◌, ◌==◌, length, length-replicate, get_or, get_or-set, get_or-replicate, length-set,
  get_or-set_default, ℕ, ◌+◌, ◌%◌, ◌^◌, ◌≤◌, ◌<◌, ◌≡◌, ◌∙◌, inl, inr, true, false, List, [], ◌∷◌,
  arith,
}
use cache_sim.Repl.Lru.{Lru, Lines, new_lru, update, replaced, rank, score}

-- What happens to lines: an access, or a replacement.
pub data Event : Type 0 where
  used : ℕ → Event
  evicted : ℕ → Event

-- The policy after a history, whose newest event stands first.
unfoldable pub run : ℕ → List Event → Lru
run num_lines [] = new_lru num_lines
run num_lines (used i ∷ es) = update (run num_lines es) i
run num_lines (evicted i ∷ es) = replaced (run num_lines es) i

unfoldable pub uses : List Event → ℕ
uses [] = 0
uses (used i ∷ es) = uses es + 1
uses (evicted i ∷ es) = uses es

-- When a line was last used since it came in, counted in uses; 0 if it was not.
unfoldable pub last_use : List Event → ℕ → ℕ
last_use [] j = 0
last_use (used i ∷ es) j = if i == j then uses es + 1 else last_use es j
last_use (evicted i ∷ es) j = if i == j then 0 else last_use es j

abbrev pub InRange : ℕ → List Event → Type 0
InRange n [] = Unit {0}
InRange n (used i ∷ es) = (i < n) × InRange n es
InRange n (evicted i ∷ es) = (i < n) × InRange n es

run_clock : (n : ℕ) (es : List Event) → (run n es).timestamp ≡ uses es + 1
unfolding run uses update replaced new_lru
run_clock n [] = omega arith
run_clock n (used i ∷ es) = omega (arith, run_clock n es)
run_clock n (evicted i ∷ es) = run_clock n es

length-run : (n : ℕ) (es : List Event) → length (run n es).array ≡ n
unfolding run update replaced new_lru
length-run n [] = length-replicate n 0
length-run n (used i ∷ es) = length-set (run n es).array i _ ∙ length-run n es
length-run n (evicted i ∷ es) = length-set (run n es).array i 0 ∙ length-run n es

-- After any history of lines in range, the time stamp of a line is the time of its last use.
pub run-last_use :
    (n : ℕ) (es : List Event) (j : ℕ) → InRange n es → get_or (run n es).array j 0 ≡ last_use es j
unfolding run last_use update replaced new_lru
run-last_use n [] j h = get_or-replicate n j 0
run-last_use n (used i ∷ es) j h = ground (
  arith,
  get_or-set (run n es).array i j (run n es).timestamp 0 (omega (arith, length-run n es)),
  run_clock n es,
  run-last_use n es j h.1,
)
run-last_use n (evicted i ∷ es) j h =
    ground (arith, get_or-set_default (run n es).array i j 0, run-last_use n es j h.1)

last_use-le : (es : List Event) (j : ℕ) → last_use es j ≤ uses es
unfolding last_use uses
last_use-le [] j = omega arith
last_use-le (used i ∷ es) j = ground (arith, last_use-le es j)
last_use-le (evicted i ∷ es) j = ground (arith, last_use-le es j)

-- Without sharers, and with every candidate valid, the score is the time of the last use.
score-last_use :
    (n : ℕ) (es : List Event) (lines : Lines) (j : ℕ)
    → InRange n es
    → uses es < 2 ^ 32
    → lines.is_valid j ≡ true
    → score false lines (run n es) j % 2 ^ 32 ≡ last_use es j
unfolding score
score-last_use n es lines j h few valid =
    rw (valid, run-last_use n es j h) (omega (arith, last_use-le es j))

abbrev pub AllValid : Lines → List ℕ → Type 0
AllValid lines [] = Unit {0}
AllValid lines (c ∷ cs) = (lines.is_valid c ≡ true) × AllValid lines cs

-- No candidate was last used before `v`.
abbrev pub Oldest : List Event → ℕ → List ℕ → Type 0
Oldest es v [] = Unit {0}
Oldest es v (c ∷ cs) = (last_use es v ≤ last_use es c) × Oldest es v cs

valid-Among :
    (lines : Lines) (v : ℕ) (cs : List ℕ) → AllValid lines cs → Among v cs → lines.is_valid v ≡ true
valid-Among lines v [] a m = absurd m
valid-Among lines v (c ∷ cs) a (inl e) = rw e a.0
valid-Among lines v (c ∷ cs) a (inr m) = valid-Among lines v cs a.1 m

Least-Oldest :
    (n : ℕ) (es : List Event) (lines : Lines) (v : ℕ) (cs : List ℕ)
    → InRange n es
    → uses es < 2 ^ 32
    → lines.is_valid v ≡ true
    → AllValid lines cs
    → Least (score false lines (run n es)) v cs
    → Oldest es v cs
Least-Oldest n es lines v [] h few ok a l = tt
Least-Oldest n es lines v (c ∷ cs) h few ok a l = (
  omega (arith, l.0, score-last_use n es lines v h few ok, score-last_use n es lines c h few a.0),
  Least-Oldest n es lines v cs h few ok a.1 l.1,
)

-- In a history, of lines of the array, with fewer than 2 ^ 32 uses, the victim among valid candidates, by the policy that is not
-- aware of sharers, is one of them, and none of them was last used before it.
pub rank_evicts-Oldest :
    (n : ℕ) (es : List Event) (lines : Lines) (c : ℕ) (cs : List ℕ)
    → InRange n es
    → uses es < 2 ^ 32
    → AllValid lines (c ∷ cs)
    → Among (rank false lines (run n es) (c ∷ cs)) (c ∷ cs)
      × Oldest es (rank false lines (run n es) (c ∷ cs)) (c ∷ cs)
rank_evicts-Oldest n es lines c cs h few a =
    let (m, l) = rank-Least false lines (run n es) c cs in
    (m, Least-Oldest n es lines _ (c ∷ cs) h few (valid-Among lines _ (c ∷ cs) a m) a l)
