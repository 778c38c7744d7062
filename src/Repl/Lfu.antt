-- ===== src/Repl/Lfu.antt =====
-- `LFUReplPolicy` of src/repl_policies.h.
use cache_sim.Compressor.Store.{num_lines}
use cache_sim.Repl.Lru.{Lines, rank}
use cache_sim.Base.{
  if◌then◌else◌, ◌==◌, ltb, failed, done, Outcome, set, get_or, replicate, ℕ, ◌+◌, ◌-◌, ◌*◌, ◌/◌,
  ◌%◌, ◌^◌, Bool, true, false, not, ◌&&◌, ◌||◌, Option, none, some, List,
}

pub record LfuInfo : Type 0 where
  pub ts : ℕ
  pub acc : ℕ

abbrev pub no_info : LfuInfo
no_info = record { ts = 0; acc = 0 }

pub record Rank : Type 0 where
  pub lfu_info : LfuInfo
  pub sharers : ℕ
  pub valid : Bool

-- `Rank::reset`
abbrev pub no_rank : Rank
no_rank = record { lfu_info = no_info; sharers = 0; valid = false }

-- `best_candidate` is none for -1.
pub record Lfu : Type 0 where
  pub timestamp : ℕ
  pub best_candidate : Option ℕ
  pub array : List LfuInfo
  pub best_rank : Rank

unfoldable pub new_lfu : ℕ → Lfu
new_lfu num_lines = record {
  timestamp = 1;
  best_candidate = none;
  array = replicate num_lines no_info;
  best_rank = no_rank;
}

-- The inverse frequency, as a `uint64_t`.
abbrev pub inv_freq : ℕ → LfuInfo → ℕ
inv_freq cur_ts i = (cur_ts + 2 ^ 64 - i.ts) % 2 ^ 64 / i.acc

-- `Rank::lessThan`
unfoldable pub less_than : Rank → Rank → ℕ → Bool
less_than a b cur_ts =
    if not a.valid && b.valid
    then true
    else if (a.valid && b.valid) || (not a.valid && not b.valid)
    then (if (a.sharers == 0) && ltb 0 b.sharers
        then true
        else if ltb 0 a.sharers && (b.sharers == 0)
        then false
        else if a.lfu_info.acc == 0
        then true
        else if b.lfu_info.acc == 0
        then false
        else ltb (inv_freq cur_ts b.lfu_info) (inv_freq cur_ts a.lfu_info))
    else false

-- The time stamp becomes the mean of those of all the accesses.
unfoldable pub update : Lfu → ℕ → Lfu
update r id =
    let i = get_or r.array id no_info in
    record r {
      array = set r.array id (record {
        ts = (i.acc * i.ts + r.timestamp) % 2 ^ 64 / ((i.acc + 1) % 2 ^ 64);
        acc = (i.acc + 1) % 2 ^ 64;
      });
      timestamp = (r.timestamp + 1000) % 2 ^ 64;
    }

abbrev pub rank_of : Lines → Lfu → ℕ → Rank
rank_of lines r id = record {
  lfu_info = get_or r.array id no_info;
  sharers = lines.num_sharers id;
  valid = lines.is_valid id;
}

abbrev pub keep_best : Option ℕ → Lfu → Rank → ℕ → Lfu
keep_best none r rank id = record r { best_rank = rank; best_candidate = some id }
keep_best (some best) r rank id =
    if less_than rank r.best_rank r.timestamp
    then record r { best_rank = rank; best_candidate = some id }
    else r

unfoldable pub record_candidate : Lines → Lfu → ℕ → Lfu
record_candidate lines r id = keep_best r.best_candidate r (rank_of lines r id) id

abbrev pub found : Option ℕ → Outcome ℕ
found none = failed
found (some id) = done id

unfoldable pub get_best_candidate : Lfu → Outcome ℕ
get_best_candidate r = found r.best_candidate

unfoldable pub replaced : Lfu → ℕ → Lfu
replaced r id = record r {
  best_candidate = none;
  best_rank = no_rank;
  array = set r.array id (record (get_or r.array id no_info) { acc = 0 });
}
