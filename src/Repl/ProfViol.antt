-- ===== src/Repl/ProfViol.antt =====
-- `ProfViolReplPolicy` of src/repl_policies.h, over any policy `T`, whose operations are parameters.
use cache_sim.Mesi.Types.{AccessType, gets, getx, putx, puts}
use cache_sim.Compressor.Store.{num_lines}
use cache_sim.Base.{
  ltb, if◌then◌else◌, done, failed, Outcome, assert, ◌>>◌, ◌>>=◌, get_or, set, replicate, ℕ, ◌+◌,
  min, max, Bool, true, false, List,
}

pub record AccTimes : Type 0 where
  pub read : ℕ
  pub write : ℕ

abbrev pub no_times : AccTimes
no_times = record { read = 0; write = 0 }

pub record ProfViol (T : Type 0) : Type 0 where
  pub base : T
  pub acc_times : List AccTimes
  pub prof_raw : ℕ
  pub prof_war : ℕ
  pub prof_rar : ℕ
  pub prof_waw : ℕ
  pub prof_no_viol_acc : ℕ
  pub prof_aae : ℕ
  pub prof_no_viol_ev : ℕ
  pub repl_cycle : ℕ

-- Whether an access at `cycle` came before a read that was simulated first, and not a write.
abbrev pub is_read_viol : AccTimes → ℕ → Outcome Bool
is_read_viol t cycle =
    if ltb cycle (min t.read t.write)
    then done (ltb t.read t.write)
    else if ltb cycle t.read
    then done true
    else (do assert (ltb cycle t.write); done false)

-- The test `req->type == GETS`, which asserts a GET.
abbrev pub is_read : AccessType → Outcome Bool
is_read gets = done true
is_read getx = done false
is_read puts = failed
is_read putx = failed

module _ {T : Type 0} (base_update : T → ℕ → T) (base_replaced : T → ℕ → T) where
  -- The constructor and `init`.
  unfoldable pub new_prof_viol : T → ℕ → ProfViol T
  new_prof_viol base num_lines = record {
    base = base;
    acc_times = replicate num_lines no_times;
    prof_raw = 0;
    prof_war = 0;
    prof_rar = 0;
    prof_waw = 0;
    prof_no_viol_acc = 0;
    prof_aae = 0;
    prof_no_viol_ev = 0;
    repl_cycle = 0;
  }

  abbrev pub count_viol : ProfViol T → Bool → Bool → ProfViol T
  count_viol p true true = record p { prof_rar = p.prof_rar + 1 }
  count_viol p true false = record p { prof_raw = p.prof_raw + 1 }
  count_viol p false true = record p { prof_war = p.prof_war + 1 }
  count_viol p false false = record p { prof_waw = p.prof_waw + 1 }

  abbrev pub profile : ProfViol T → AccTimes → Bool → ℕ → Outcome (ProfViol T)
  profile p t read cycle =
      if ltb cycle (max t.read t.write)
      then (do read_viol ← is_read_viol t cycle; done (count_viol p read read_viol))
      else done (record p { prof_no_viol_acc = p.prof_no_viol_acc + 1 })

  abbrev pub note_time : AccTimes → Bool → ℕ → AccTimes
  note_time t read cycle =
      if read then record t { read = max t.read cycle } else record t { write = max t.write cycle }

  -- The base policy is updated at the start, and once more at the end.
  unfoldable pub update : ProfViol T → ℕ → AccessType → ℕ → Outcome (ProfViol T)
  update p id type cycle = do
    let t = get_or p.acc_times id no_times
    read ← is_read type
    p' ← profile (record p { base = base_update p.base id }) t read cycle
    done (record p' {
      acc_times = set p'.acc_times id (note_time t read cycle);
      base = base_update p'.base id;
    })

  unfoldable pub replaced : ProfViol T → ℕ → ProfViol T
  replaced p id =
      let t = get_or p.acc_times id no_times in
      let times = set p.acc_times id no_times in
      let base' = base_replaced p.base id in
      if ltb p.repl_cycle (max t.read t.write)
      then record p { base = base'; acc_times = times; prof_aae = p.prof_aae + 1 }
      else record p { base = base'; acc_times = times; prof_no_viol_ev = p.prof_no_viol_ev + 1 }
