-- ===== src/Runners/Capacity.antt =====
-- The scheduler's question for capacity, and the allocation that follows it.
use gigaevo_platform.Prelude.{
  ℕ, ◌≤◌, ◌<◌, String, ◌≡◌, refl, sym, ◌∙◌, inl, inr, Bool, true, false, ◌&&◌, Option, none, some,
  List, [], ◌∷◌, arith, ltb, leb, Bool-cases, is_some, keep, All, cons_if,
}
use gigaevo_platform.Prelude.Eq.{string_eq, nat_eq}
use mathlib.Core.Path.{subst}
use gigaevo_platform.Prelude.{Any}
use gigaevo_platform.Experiments.{Experiment}
use gigaevo_platform.Runners.{
  Runner, Pool, is_free, in_service, is_unlocked, some_below, has_ready_runner_capacity,
}
use gigaevo_platform.Runners.Allocate.{
  occupy, picked, pick_loop, pick_runner_with_capacity, allocate_runner_for_experiment,
}
use gigaevo_platform.Runners.Fair.{load, IsLeast, pick_loop-IsLeast}

-- Where nothing is locked, the rows that a search keeps are those that pass its test.
keep-unlocked :
    (p : Runner → Bool) (rs : List Runner) → keep (λ r. p r && is_unlocked [] r) rs ≡ keep p rs
keep-unlocked p [] = refl
keep-unlocked p (r ∷ rs) = elim (Bool-cases (p r)) [
  | inl b ↦ rw (b, keep-unlocked p rs)
  | inr b ↦ rw (b, keep-unlocked p rs)
]

some_below-none :
    (es : List Experiment) (limit : ℕ) (rs : List Runner)
    → All (λ x. limit ≤ load es x.id) (keep in_service rs)
    → some_below es limit rs ≡ false
some_below-none es limit [] h = refl
some_below-none es limit (r ∷ rs) h = elim (Bool-cases (in_service r)) [
  | inl b ↦
      let all =
        subst (λ c. All (λ x. limit ≤ load es x.id) (cons_if c r (keep in_service rs))) b h in
      let full : ltb (load es r.id) limit ≡ false = ground (arith, all.0) in
      rw (b, full, some_below-none es limit rs all.1)
  | inr b ↦
      let all =
        subst (λ c. All (λ x. limit ≤ load es x.id) (cons_if c r (keep in_service rs))) b h in
      rw (b, some_below-none es limit rs all)
]

later_below :
    (es : List Experiment) (limit : ℕ) (r : Runner) (rs : List Runner)
    → some_below es limit rs ≡ true
    → some_below es limit (r ∷ rs) ≡ true
later_below es limit r rs h = ground (arith, h)

some_below-some :
    (es : List Experiment) (limit : ℕ) (rs : List Runner) (r : Runner)
    → Any (λ x. x ≡ r) (keep in_service rs)
    → load es r.id < limit
    → some_below es limit rs ≡ true
some_below-some es limit [] r h less = elim h [ ]
some_below-some es limit (x ∷ rs) r h less = elim (Bool-cases (in_service x)) [
  | inl b ↦ elim (subst (λ c. Any (λ y. y ≡ r) (cons_if c x (keep in_service rs))) b h) [
    | inl same ↦
        let room : ltb (load es x.id) limit ≡ true =
          subst (λ y. ltb (load es y.id) limit ≡ true) (sym same) (ground (arith, less)) in
        rw (b, room)
    | inr later ↦ later_below es limit x rs (some_below-some es limit rs r later less)
  ]
  | inr b ↦ later_below es limit x rs (
      some_below-some es limit rs r
        (subst (λ c. Any (λ y. y ≡ r) (cons_if c x (keep in_service rs))) b h) less)
]

below_least :
    (es : List Experiment) (limit : ℕ) (rs : List Runner) (found : Option Runner)
    → IsLeast es limit (keep in_service rs) found
    → some_below es limit rs ≡ is_some found
below_least es limit rs none h = some_below-none es limit rs h
below_least es limit rs (some r) (any, less, all) = some_below-some es limit rs r any less

occupy-is_some :
    (e : String) (now : ℕ) (found : Option Runner) (pool : Pool)
    → is_some (occupy e now found pool).0 ≡ is_some found
occupy-is_some e now none pool = refl
occupy-is_some e now (some r) pool = refl

capacity-picked :
    (limit : ℕ) (pool : Pool)
    → has_ready_runner_capacity limit pool ≡ is_some (picked limit [] pool)
unfolding has_ready_runner_capacity pick_runner_with_capacity
capacity-picked limit pool = elim (Bool-cases (leb limit 1)) [
  | inl b ↦ rw (b, keep-unlocked is_free pool.runners)
  | inr b ↦
      rw (b, keep-unlocked in_service pool.runners)
        (below_least pool.experiments limit pool.runners
          (pick_loop pool.experiments limit none limit (keep in_service pool.runners))
          (pick_loop-IsLeast pool.experiments limit (keep in_service pool.runners)))
]

-- The test for capacity holds exactly when an allocation, where no row is locked, takes a runner.
pub has_ready_runner_capacity-allocate :
    (limit : ℕ) (e : String) (now : ℕ) (pool : Pool)
    → has_ready_runner_capacity limit pool
      ≡ is_some (allocate_runner_for_experiment limit [] e now pool).0
unfolding allocate_runner_for_experiment
has_ready_runner_capacity-allocate limit e now pool =
    capacity-picked limit pool ∙ sym (occupy-is_some e now (picked limit [] pool) pool)
