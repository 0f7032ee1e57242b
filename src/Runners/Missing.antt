-- ===== src/Runners/Missing.antt =====
-- The reconciler, and a runner that no longer knows its experiment.
use gigaevo_platform.Prelude.{
  ℕ, suc, ◌+◌, ◌≤◌, ◌<◌, String, ◌⊎◌, ◌≡◌, refl, sym, inl, inr, true, false, Option, none, some,
  List, [], ◌∷◌, arith, ltb, leb, if◌then◌else◌, Bool-cases, length, All, Bool,
}
use gigaevo_platform.Prelude.Eq.{◌==◌, string_eq, nat_eq, beq_refl}
use mathlib.Core.Path.{subst}
use gigaevo_platform.Runners.{RunnerInstanceStatus, ready, Runner, Pool, get_runner}
use gigaevo_platform.Runners.Release.{mark_ready, release_runner_by_id_if_experiment}
use gigaevo_platform.Runners.Fair.{get_runner-update_runner}
use gigaevo_platform.Runners.Reconcile.{
  Settings, Answer, not_found, Counts, count_of, forget, set_count, Reconciler, on_answer, released,
  has_address, reconcile_runner, within_grace, within, started_at, age, is_young,
}
use gigaevo_platform.Experiments.{get_experiment}

count_of-set_count : (c : Counts) (id e : String) (n : ℕ) → count_of (set_count c id e n) id e ≡ n
unfolding count_of forget
count_of-set_count c id e n = rw (beq_refl id, beq_refl e)

nil_of_length : {A : Type 0} (xs : List A) → length xs ≡ 0 → xs ≡ []
nil_of_length [] h = refl
nil_of_length (x ∷ xs) h = ground (arith, h)

-- A runner's status and experiment.
abbrev pub standing : Option Runner → Option (RunnerInstanceStatus × Option String)
standing none = none
standing (some r) = some (r.status, r.current_experiment_id)

-- A release with one experiment per runner.
release_runner_by_id_if_experiment-standing :
    (limit : ℕ) (e : String) (now : ℕ) (r : Runner) (pool : Pool)
    → limit ≤ 1
    → r.current_experiment_id ≡ some e
    → get_runner pool.runners r.id ≡ some r
    → standing
        (get_runner (release_runner_by_id_if_experiment limit r.id e now pool).1.runners r.id)
      ≡ some (ready, none)
unfolding release_runner_by_id_if_experiment
release_runner_by_id_if_experiment-standing limit e now r pool single current found =
    let one_each : leb limit 1 ≡ true = ground (arith, single) in
    rw (
      one_each,
      found,
      current,
      beq_refl e,
      get_runner-update_runner pool.runners r.id r.id (mark_ready now) (λ x. refl),
      beq_refl r.id,
      found,
    )

-- Outside the time of grace, as the code takes it: the database hands out times with a zone, or the start
-- lies in the future, or at least that time back.
abbrev pub IsPast : Settings → ℕ → Option ℕ → Type 0
IsPast set now none = Unit
IsPast set now (some started) = (set.zoned ≡ true) ⊎ ((now < started) ⊎ (started + set.grace ≤ now))

young_lem :
    (zoned : Bool) (grace now started : ℕ)
    → (zoned ≡ true) ⊎ ((now < started) ⊎ (started + grace ≤ now))
    → is_young grace (age zoned now started) ≡ false
young_lem true grace now started h = refl
young_lem false grace now started (inl e) = cc
young_lem false grace now started (inr (inl early)) = ground (arith, early)
young_lem false grace now started (inr (inr past)) = ground (arith, past)

within-past :
    (set : Settings) (now : ℕ) (o : Option ℕ) → IsPast set now o → within set now o ≡ false
within-past set now none h = refl
within-past set now (some started) h = ground (arith, young_lem set.zoned set.grace now started h)

-- The experiment is not known, has not been started, or was started outside the time of grace.
abbrev pub IsLate : Settings → ℕ → Pool → String → Type 0
IsLate set now pool e = IsPast set now (started_at (get_experiment pool.experiments e))

within_grace-late :
    (set : Settings) (now : ℕ) (pool : Pool) (e : String)
    → IsLate set now pool e
    → within_grace set now pool e ≡ false
unfolding within_grace
within_grace-late set now pool e h =
    within-past set now (started_at (get_experiment pool.experiments e)) h

module _ (lower rstrip_slashes : String → String) (set : Settings)
    (ask : String → String → Answer) where
  -- What the loop does with one runner, at some times.
  abbrev pub visits : List ℕ → Runner → Reconciler → Reconciler
  visits [] r s = s
  visits (now ∷ times) r s =
      let next = reconcile_runner lower rstrip_slashes set ask now r s in visits times r next

  -- A time outside the time of grace of a runner's experiment.
  abbrev pub IsMissing : Runner → String → Pool → ℕ → Type 0
  IsMissing r e pool now = IsLate set now pool e

  -- Freed, if there were enough answers, and else as before.
  abbrev verdict : Runner → String → ℕ → Option (RunnerInstanceStatus × Option String)
  verdict r e total = if leb set.max_404s total then some (ready, none) else some (r.status, some e)

  module _ (r : Runner) (e : String) (single : set.limit ≤ 1)
      (current : r.current_experiment_id ≡ some e) (named : (e == "") ≡ false)
      (addressed : has_address lower rstrip_slashes r ≡ true) (asked : ask r.id e ≡ not_found) where
    visit_lem :
        (now : ℕ) (s : Reconciler)
        → within_grace set now s.pool e ≡ false
        → reconcile_runner lower rstrip_slashes set ask now r s ≡ (
            if ltb (count_of s.counts r.id e + 1) set.max_404s
            then record s { counts = set_count s.counts r.id e (count_of s.counts r.id e + 1) }
            else released lower rstrip_slashes set r.id e now s)
    unfolding reconcile_runner on_answer
    visit_lem now s late =
        let shared : ltb 1 set.limit ≡ false = ground (arith, single) in
        rw (shared, current, named, addressed, asked, late)

    -- With one experiment per runner, a runner whose answers on its experiment are 404, at times at
    -- which the experiment has no start, or one in the future, or one that lies at least the time
    -- of grace back, or at any times if the database hands out times with a zone, and not more
    -- often than the threshold, stands as before as long as the answers are fewer than the
    -- threshold, and is READY with no experiment when they reach it.
    pub visits-standing :
        (times : List ℕ) (s : Reconciler)
        → All (IsMissing r e s.pool) times
        → get_runner s.pool.runners r.id ≡ some r
        → count_of s.counts r.id e < set.max_404s
        → count_of s.counts r.id e + length times ≤ set.max_404s
        → standing (get_runner (visits times r s).pool.runners r.id) ≡ (
            if leb set.max_404s (count_of s.counts r.id e + length times)
            then some (ready, none)
            else some (r.status, some e))
    visits-standing [] s late found below total =
        let few : leb set.max_404s (count_of s.counts r.id e + 0) ≡ false = ground (arith, below) in
        rw (found, few, current)
    visits-standing (now ∷ times) s late found below total =
        let seen = count_of s.counts r.id e + 1 in
        let total_seen = count_of s.counts r.id e + suc (length times) in
        let counted : Reconciler = record s { counts = set_count s.counts r.id e seen } in
        let freed = released lower rstrip_slashes set r.id e now s in
        let step : reconcile_runner lower rstrip_slashes set ask now r s
            ≡ (if ltb seen set.max_404s then counted else freed) =
          visit_lem now s (within_grace-late set now s.pool e late.0) in
        elim (Bool-cases (ltb seen set.max_404s)) [
          | inl b ↦
              let count : count_of counted.counts r.id e ≡ seen =
                count_of-set_count s.counts r.id e seen in
              let rest =
                visits-standing times counted late.1 found (ground (arith, count, b))
                  (omega (arith, count, total)) in
              let same : count_of counted.counts r.id e + length times ≡ total_seen =
                omega (arith, count) in
              subst
                (λ next.
                  standing (get_runner (visits times r next).pool.runners r.id)
                  ≡ verdict r e total_seen)
                (sym (
                  subst
                    (λ c.
                      reconcile_runner lower rstrip_slashes set ask now r s
                      ≡ (if c then counted else freed))
                    b step))
                (subst
                  (λ n.
                    standing (get_runner (visits times r counted).pool.runners r.id)
                    ≡ verdict r e n)
                  same rest)
          | inr b ↦
              let over : times ≡ [] = nil_of_length times (ground (arith, total, b)) in
              let reached : leb set.max_404s total_seen ≡ true = ground (arith, total, b) in
              subst
                (λ next.
                  standing (get_runner (visits times r next).pool.runners r.id)
                  ≡ verdict r e total_seen)
                (sym (
                  subst
                    (λ c.
                      reconcile_runner lower rstrip_slashes set ask now r s
                      ≡ (if c then counted else freed))
                    b step))
                (subst
                  (λ c.
                    standing (get_runner (visits times r freed).pool.runners r.id)
                    ≡ (if c then some (ready, none) else some (r.status, some e)))
                  (sym reached)
                  (subst
                    (λ ts.
                      standing (get_runner (visits ts r freed).pool.runners r.id)
                      ≡ some (ready, none))
                    (sym over)
                    (release_runner_by_id_if_experiment-standing set.limit e now r s.pool single
                      current found)))
        ]
