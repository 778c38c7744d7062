-- ===== src/Mesi/Race.antt =====
-- `CheckForMESIRace` of src/coherence_ctrls.h: a request meets a line that was invalidated or
-- downgraded after the request was made.
use cache_sim.Base.{
  ◌≡◌, refl, Bool, true, false, Outcome, done, failed, Returns, ◌>>◌, assert, arith, ◌⊎◌, inl, inr,
  if◌then◌else◌,
}
use cache_sim.Mesi.Parent.{Fits}
use cache_sim.Mesi.Types.{
  MesiState, invalid, shared, exclusive, modified, AccessType, gets, getx, puts, putx, is_invalid,
  is_shared, is_owned,
}

abbrev pub same_state : MesiState → MesiState → Bool
same_state invalid invalid = true
same_state shared shared = true
same_state exclusive exclusive = true
same_state modified modified = true
same_state _ _ = false

abbrev put_race : AccessType → MesiState → Outcome (Bool × AccessType)
put_race type invalid = done (true, type)
put_race type shared = done (false, puts)
put_race type _ = failed

-- Whether the access is skipped, and its type afterwards.
unfoldable pub check_for_mesi_race :
    AccessType → MesiState → MesiState → Outcome (Bool × AccessType)
check_for_mesi_race type state initial_state = elim (same_state state initial_state) [
  | true ↦ done (false, type)
  | false ↦ (elim type [
    | gets ↦ failed
    | getx ↦ (do assert (is_shared initial_state); assert (is_invalid state); done (false, getx))
    | put ↦ put_race put state
  ])
]

-- What any number of invalidations by the parent can do to a line: INVX takes an owned line to S,
-- and INV a valid one to I.
pub data Downgraded (s : MesiState) : MesiState → Type 0 where
  untouched : Downgraded s s
  downgrade : {t : MesiState} → Downgraded s t → is_owned t ≡ true → Downgraded s shared
  invalidate : {t : MesiState} → Downgraded s t → is_invalid t ≡ false → Downgraded s invalid

Downgraded-cases :
    (s : MesiState) {t : MesiState}
    → Downgraded s t
    → (t ≡ s) ⊎ (t ≡ invalid) ⊎ ((t ≡ shared) × (is_owned s ≡ true))
Downgraded-cases s untouched = inl refl
Downgraded-cases s (downgrade d o) = ground (arith, Downgraded-cases s d)
Downgraded-cases s (invalidate d v) = inr (inl refl)

-- What the check may hand on: a skipped request finds its line gone, any other fits its line.
abbrev pub Settled : MesiState → Bool × AccessType → Type 0
Settled s (skip, type) = if skip then s ≡ invalid else Fits type s

-- A request that fitted its line before any number of downgrades and invalidations never panics in
-- the check; it is skipped only if its line is gone, and otherwise its new type fits the line.
pub check_for_mesi_race-Settled :
    (type : AccessType) (before now : MesiState)
    → Fits type before
    → Downgraded before now
    → Returns (check_for_mesi_race type now before) (Settled now)
unfolding check_for_mesi_race
check_for_mesi_race-Settled gets before now fits moved =
    ground (arith, Downgraded-cases before moved)
check_for_mesi_race-Settled getx before now fits moved =
    ground (arith, Downgraded-cases before moved)
check_for_mesi_race-Settled puts before now fits moved =
    ground (arith, Downgraded-cases before moved)
check_for_mesi_race-Settled putx before now fits moved =
    ground (arith, Downgraded-cases before moved)
