-- ===== src/Runners/Reconcile.antt =====
-- master_api/src/services/runner_instance_service.py, `_reconcile_busy_runners_loop`: a sweep over the
-- runners that are BUSY, which frees those whose experiments are over. What a runner answers when asked
-- for its experiment is given for each sweep; `lower` is `str.lower`, and
-- `rstrip_slashes` is `rstrip("/")`.
use gigaevo_platform.Prelude.{
  ℕ, ◌+◌, ◌-◌, String, Bool, true, false, not, ◌&&◌, Option, none, some, List, [], ◌∷◌, ltb, leb,
  if◌then◌else◌, keep,
}
use gigaevo_platform.Prelude.Eq.{◌==◌, string_eq, nat_eq, contains}
use gigaevo_platform.Experiments.{Experiment, get_experiment}
use gigaevo_platform.Runners.{Runner, Pool, is_busy, count_active}
use gigaevo_platform.Runners.Release.{release_runner_by_id_if_experiment, set_runner_ready}

-- The settings, with the bounds that the loop puts on them, and whether the database's driver hands out
-- times with a zone, as PostgreSQL's do for a column with `timezone=True`.
pub record Settings : Type 0 where
  pub limit : ℕ
  pub grace : ℕ
  pub max_404s : ℕ
  pub zoned : Bool

abbrev or_default : ℕ → ℕ → ℕ
or_default d n = if n == 0 then d else n

abbrev pub settings : ℕ → ℕ → ℕ → Bool → Settings
settings limit grace max_404s zoned = record {
  limit = or_default 1 limit;
  grace = or_default 30 grace;
  max_404s = or_default 2 max_404s;
  zoned = zoned;
}

-- The answer to the question for the status: 404, a status, or none that can be used.
pub data Answer : Type 0 where
  not_found : Answer
  reported : String → Answer
  unusable : Answer

-- The counts of answers 404, by runner and experiment.
abbrev pub Counts : Type 0
Counts = List ((String × String) × ℕ)

abbrev pub is_key : String → String → String × String → Bool
is_key id e key = key.0 == id && key.1 == e

-- `d.get(key, 0)`
unfoldable pub count_of : Counts → String → String → ℕ
count_of [] id e = 0
count_of ((key, n) ∷ counts) id e =
    let rest = count_of counts id e in if is_key id e key then n else rest

-- `d.pop(key, None)`
unfoldable pub forget : Counts → String → String → Counts
forget [] id e = []
forget ((key, n) ∷ counts) id e =
    let rest = forget counts id e in if is_key id e key then rest else (key, n) ∷ rest

-- `d[key] = n`; the order of the entries is never read.
abbrev pub set_count : Counts → String → String → ℕ → Counts
set_count counts id e n = ((id, e), n) ∷ forget counts id e

pub record Reconciler : Type 0 where
  pub pool : Pool
  pub counts : Counts

-- `datetime.now() - started_at`: the time now has no zone, and a subtraction of a time that has one raises.
-- A start that lies in the future has a negative age, for which there is none here.
abbrev pub age : Bool → ℕ → ℕ → Option ℕ
age true now started = none
age false now started = if leb started now then some (now - started) else none

abbrev pub is_young : ℕ → Option ℕ → Bool
is_young grace none = false
is_young grace (some n) = ltb n grace

-- Right after its start, a runner may not know its experiment yet. Where the age raises, the answer is no.
abbrev pub within : Settings → ℕ → Option ℕ → Bool
within set now none = false
within set now (some started) = ltb 0 set.grace && is_young set.grace (age set.zoned now started)

abbrev pub started_at : Option Experiment → Option ℕ
started_at none = none
started_at (some x) = x.started_at

unfoldable pub within_grace : Settings → ℕ → Pool → String → Bool
unfolding get_experiment
within_grace set now pool e = within set now (started_at (get_experiment pool.experiments e))

abbrev pub terminal_statuses : List String
terminal_statuses = "completed" ∷ "failed" ∷ "terminated" ∷ "cancelled" ∷ []

module _ (lower rstrip_slashes : String → String) where
  abbrev pub released : Settings → String → String → ℕ → Reconciler → Reconciler
  released set id e now s = record {
    pool = (release_runner_by_id_if_experiment set.limit id e now s.pool).1;
    counts = forget s.counts id e;
  }

  -- What the answer for one experiment of one runner leads to.
  unfoldable pub on_answer : Settings → String → String → ℕ → Answer → Reconciler → Reconciler
  unfolding within_grace count_of forget release_runner_by_id_if_experiment
  on_answer set id e now not_found s =
      let seen = count_of s.counts id e + 1 in
      if within_grace set now s.pool e
      then s
      else if ltb seen set.max_404s
      then record s { counts = set_count s.counts id e seen }
      else released set id e now s
  on_answer set id e now (reported status) s =
      if contains (lower status) terminal_statuses
      then released set id e now s
      else record s { counts = forget s.counts id e }
  on_answer set id e now unusable s = s

  -- The runner's address, without which it is not asked.
  abbrev pub has_address : Runner → Bool
  has_address r = not (rstrip_slashes r.endpoint_url == "")

  abbrev pub reconcile_current :
      Settings → (String → String → Answer) → ℕ → Runner → Option String → Reconciler → Reconciler
  reconcile_current set ask now r none s = record s { pool = (set_runner_ready r.id now s.pool).1 }
  reconcile_current set ask now r (some e) s =
      if e == ""
      then record s { pool = (set_runner_ready r.id now s.pool).1 }
      else if has_address r
      then on_answer set r.id e now (ask r.id e) s
      else s

  -- The body of the loop for one runner, in either mode.
  unfoldable pub reconcile_runner :
      Settings → (String → String → Answer) → ℕ → Runner → Reconciler → Reconciler
  unfolding on_answer set_runner_ready count_active
  reconcile_runner set ask now r s =
      if ltb 1 set.limit
      then if leb (count_active s.pool.experiments r.id none) 0
        then record s { pool = (set_runner_ready r.id now s.pool).1 }
        else s
      else reconcile_current set ask now r r.current_experiment_id s

  abbrev pub reconcile_each :
      Settings → (String → String → Answer) → ℕ → List Runner → Reconciler → Reconciler
  reconcile_each set ask now [] s = s
  reconcile_each set ask now (r ∷ rs) s =
      let next = reconcile_runner set ask now r s in reconcile_each set ask now rs next

  -- One sweep, over the runners that are BUSY when it starts.
  unfoldable pub sweep : Settings → (String → String → Answer) → ℕ → Reconciler → Reconciler
  unfolding reconcile_runner
  sweep set ask now s = reconcile_each set ask now (keep (λ r. is_busy r.status) s.pool.runners) s
