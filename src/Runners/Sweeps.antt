-- ===== src/Runners/Sweeps.antt =====
-- The sweeps of the reconciler, and a runner that holds an experiment.
use gigaevo_platform.Prelude.{
  ℕ, ◌+◌, ◌≤◌, String, ◌≡◌, refl, sym, inl, inr, Bool, true, false, not, ◌||◌, Option, none, some,
  List, [], ◌∷◌, arith, eq_iff, ltb, leb, if◌then◌else◌, Bool-cases, keep, All, All-mono, All-keep,
}
use gigaevo_platform.Prelude.Eq.{◌==◌, string_eq, nat_eq, contains}
use mathlib.Core.Path.{subst}
use gigaevo_platform.Prelude.{if-elim}
use gigaevo_platform.Runners.{count_active, Runner, is_text, is_busy, get_runner}
use gigaevo_platform.Runners.Release.{set_runner_ready}
use gigaevo_platform.Runners.Holding.{is_kept, IsHeld}
use gigaevo_platform.Runners.Writes.{ready-IsHeld}
use gigaevo_platform.Runners.Ownership.{release_runner_by_id_if_experiment-IsHeld}
use gigaevo_platform.Runners.Reconcile.{
  Settings, Answer, not_found, reported, unusable, Reconciler, terminal_statuses, on_answer,
  released, has_address, reconcile_current, reconcile_runner, reconcile_each, sweep, within_grace,
  count_of, forget, set_count,
}

-- An answer that shows the experiment to go on, or nothing.
abbrev pub goes_on : (String → String) → Answer → Bool
goes_on lower not_found = false
goes_on lower (reported status) = not (contains (lower status) terminal_statuses)
goes_on lower unusable = true

module _ (lower rstrip_slashes : String → String) (set : Settings) (id e : String) where
  on_answer-IsHeld :
      (k f : String) (now : ℕ) (a : Answer) (s : Reconciler)
      → leb set.limit 1 ≡ true
      → (not (k == id) || not (f == e) || goes_on lower a) ≡ true
      → IsHeld id e s.pool.runners
      → IsHeld id e (on_answer lower rstrip_slashes set k f now a s).pool.runners
  unfolding on_answer
  on_answer-IsHeld k f now not_found s single other h =
      let seen = count_of s.counts k f + 1 in
      let result = released lower rstrip_slashes set k f now s in
      let counted : Reconciler = record s { counts = set_count s.counts k f seen } in
      if-elim (λ r. IsHeld id e r.pool.runners) (within_grace set now s.pool f) s
        (if ltb seen set.max_404s then counted else result) (λ b. h)
        (λ b.
          if-elim (λ r. IsHeld id e r.pool.runners) (ltb seen set.max_404s) counted result (λ c. h)
            (λ c.
              release_runner_by_id_if_experiment-IsHeld set.limit id e k f now s.pool single
                (ground (arith, other)) h))
  on_answer-IsHeld k f now (reported status) s single other h =
      let forgotten : Reconciler = record s { counts = forget s.counts k f } in
      if-elim (λ r. IsHeld id e r.pool.runners) (contains (lower status) terminal_statuses)
        (released lower rstrip_slashes set k f now s) forgotten
        (λ b.
          let over : (not (k == id) || not (f == e) || false) ≡ true =
            subst (λ c. (not (k == id) || not (f == e) || not c) ≡ true) b other in
          release_runner_by_id_if_experiment-IsHeld set.limit id e k f now s.pool single
            (ground (arith, over)) h)
        (λ b. h)
  on_answer-IsHeld k f now unusable s single other h = h

  asked_other :
      (ask : String → String → Answer) (k f : String)
      → goes_on lower (ask id e) ≡ true
      → (not (k == id) || not (f == e) || goes_on lower (ask k f)) ≡ true
  asked_other ask k f on = elim (Bool-cases (k == id)) [
    | inr b ↦ ground (arith, b)
    | inl b ↦ elim (Bool-cases (f == e)) [
      | inr c ↦ ground (arith, c)
      | inl c ↦
          let same : goes_on lower (ask k f) ≡ true =
            subst (λ j. goes_on lower (ask j f) ≡ true) (sym ((eq_iff k id).0 b))
              (subst (λ g. goes_on lower (ask id g) ≡ true) (sym ((eq_iff f e).0 c)) on) in
          ground (arith, same)
    ]
  ]

  reconcile_current-IsHeld :
      (ask : String → String → Answer) (now : ℕ) (r : Runner) (current : Option String)
      (s : Reconciler)
      → leb set.limit 1 ≡ true
      → goes_on lower (ask id e) ≡ true
      → (e == "") ≡ false
      → (not (r.id == id) || is_text e current) ≡ true
      → IsHeld id e s.pool.runners
      → IsHeld id e (reconcile_current lower rstrip_slashes set ask now r current s).pool.runners
  unfolding set_runner_ready
  reconcile_current-IsHeld ask now r none s single on named kept h =
      ready-IsHeld id e r.id now s.pool (get_runner s.pool.runners r.id) (ground (arith, kept)) refl
        h
  reconcile_current-IsHeld ask now r (some f) s single on named kept h =
      let readied : Reconciler = record s { pool = (set_runner_ready r.id now s.pool).1 } in
      let answered = on_answer lower rstrip_slashes set r.id f now (ask r.id f) s in
      let addressed = has_address lower rstrip_slashes r in
      if-elim (λ o. IsHeld id e o.pool.runners) (f == "") readied
        (if addressed then answered else s)
        (λ b.
          ready-IsHeld id e r.id now s.pool (get_runner s.pool.runners r.id)
            (ground (arith, b, kept, named, eq_iff f "", eq_iff f e, eq_iff e "")) refl h)
        (λ b.
          if-elim (λ o. IsHeld id e o.pool.runners) addressed answered s
            (λ c. on_answer-IsHeld r.id f now (ask r.id f) s single (asked_other ask r.id f on) h)
            (λ c. h))

  reconcile_runner-IsHeld :
      (ask : String → String → Answer) (now : ℕ) (r : Runner) (s : Reconciler)
      → leb set.limit 1 ≡ true
      → goes_on lower (ask id e) ≡ true
      → (e == "") ≡ false
      → is_kept id e r ≡ true
      → IsHeld id e s.pool.runners
      → IsHeld id e (reconcile_runner lower rstrip_slashes set ask now r s).pool.runners
  unfolding reconcile_runner
  reconcile_runner-IsHeld ask now r s single on named kept h =
      let shared : ltb 1 set.limit ≡ false = ground (arith, single) in
      let counted : Reconciler =
        (if leb (count_active s.pool.experiments r.id none) 0
          then record s { pool = (set_runner_ready r.id now s.pool).1 }
          else s) in
      let current =
        reconcile_current lower rstrip_slashes set ask now r r.current_experiment_id s in
      subst (λ b. IsHeld id e (if b then counted else current).pool.runners) (sym shared)
        (reconcile_current-IsHeld ask now r r.current_experiment_id s single on named kept h)

  reconcile_each-IsHeld :
      (ask : String → String → Answer) (now : ℕ) (rs : List Runner) (s : Reconciler)
      → leb set.limit 1 ≡ true
      → goes_on lower (ask id e) ≡ true
      → (e == "") ≡ false
      → All (λ r. is_kept id e r ≡ true) rs
      → IsHeld id e s.pool.runners
      → IsHeld id e (reconcile_each lower rstrip_slashes set ask now rs s).pool.runners
  reconcile_each-IsHeld ask now [] s single on named kept h = h
  reconcile_each-IsHeld ask now (r ∷ rs) s single on named kept h =
      reconcile_each-IsHeld ask now rs (reconcile_runner lower rstrip_slashes set ask now r s)
        single on named kept.1 (reconcile_runner-IsHeld ask now r s single on named kept.0 h)

  -- With one experiment per runner, a sweep of the reconciler leaves a runner the experiment that
  -- it holds, whose id is not empty, if the answer is a status that is not terminal or cannot be
  -- used.
  pub sweep-IsHeld :
      (ask : String → String → Answer) (now : ℕ) (s : Reconciler)
      → set.limit ≤ 1
      → goes_on lower (ask id e) ≡ true
      → (e == "") ≡ false
      → IsHeld id e s.pool.runners
      → IsHeld id e (sweep lower rstrip_slashes set ask now s).pool.runners
  unfolding sweep
  sweep-IsHeld ask now s single on named h =
      let all = All-keep (λ r. is_kept id e r ≡ true) (λ r. is_busy r.status) s.pool.runners h.1 in
      reconcile_each-IsHeld ask now (keep (λ r. is_busy r.status) s.pool.runners) s
        (ground (arith, single)) on named
        (All-mono (λ r. (is_kept id e r ≡ true) × (is_busy r.status ≡ true))
          (λ r. is_kept id e r ≡ true) (keep (λ r. is_busy r.status) s.pool.runners) (λ r b. b.0)
          all)
        h
