-- ===== src/Runners/Fair.antt =====
-- Which runner an allocation picks.
use gigaevo_platform.Prelude.{
  ℕ, ◌≤◌, ◌<◌, String, ◌≡◌, refl, sym, ap, ◌⊎◌, inl, inr, Bool, true, false, ◌&&◌, Option, none,
  some, List, [], ◌∷◌, arith, eq_iff, ltb, leb, if◌then◌else◌, Bool-cases, get_or, keep, All,
}
use gigaevo_platform.Prelude.Eq.{◌==◌, string_eq, nat_eq}
use mathlib.Core.Path.{subst}
use gigaevo_platform.Prelude.{Any, if-elim}
use gigaevo_platform.Experiments.{Experiment}
use gigaevo_platform.Runners.{
  Runner, Pool, count_active, get_runner, update_runner, in_service, is_unlocked,
}
use gigaevo_platform.Runners.Allocate.{
  admits, admitted, mark_busy, occupy, pick_loop, pick_runner_with_capacity, pick_free,
  allocate_runner_for_experiment,
}

abbrev pub load : List Experiment → String → ℕ
load es id = count_active es id none

-- A runner of the list with the smallest load, which is below the limit; or no runner is below it.
abbrev pub IsLeast : List Experiment → ℕ → List Runner → Option Runner → Type 0
IsLeast es limit rs none = All (λ x. limit ≤ load es x.id) rs
IsLeast es limit rs (some r) =
    Any (λ x. x ≡ r) rs × (load es r.id < limit) × All (λ x. load es r.id ≤ load es x.id) rs

-- What the loop returns: the best so far, which no other beats, or one that beats it and all others.
abbrev Improves : List Experiment → Option Runner → ℕ → List Runner → Option Runner → Type 0
Improves es best bound rs found =
    ((found ≡ best) × All (λ x. bound ≤ load es x.id) rs)
    ⊎ ((r : Runner) × (found ≡ some r)
        × Any (λ x. x ≡ r) rs
        × (load es r.id < bound)
        × All (λ x. load es r.id ≤ load es x.id) rs)

improve_step :
    (es : List Experiment) (limit : ℕ) (best : Option Runner) (bound : ℕ) (r : Runner)
    (rs : List Runner) (found : Option Runner) (better : Bool)
    → bound ≤ limit
    → (ltb (load es r.id) limit && ltb (load es r.id) bound) ≡ better
    → Improves es
        (if better then some r else best)
        (if better then load es r.id else bound)
        rs
        found
    → Improves es best bound (r ∷ rs) found
improve_step es limit best bound r rs found true h e (inl (p, all)) =
    inr (r, p, inl refl, ground (arith, h, e), (omega arith, all))
improve_step es limit best bound r rs found true h e (inr (x, p, any, less, all)) =
    inr (x, p, inr any, ground (arith, h, e, less), (omega (arith, less), all))
improve_step es limit best bound r rs found false h e (inl (p, all)) =
    inl (p, (ground (arith, h, e), all))
improve_step es limit best bound r rs found false h e (inr (x, p, any, less, all)) =
    inr (x, p, inr any, less, (ground (arith, h, e, less), all))

pick_loop-Improves :
    (es : List Experiment) (limit : ℕ) (best : Option Runner) (bound : ℕ) (rs : List Runner)
    → bound ≤ limit
    → Improves es best bound rs (pick_loop es limit best bound rs)
unfolding pick_loop
pick_loop-Improves es limit best bound [] h = inl (refl, tt)
pick_loop-Improves es limit best bound (r ∷ rs) h =
    let better = ltb (load es r.id) limit && ltb (load es r.id) bound in
    let next = (if better then some r else best) in
    let next_bound = (if better then load es r.id else bound) in
    improve_step es limit best bound r rs (pick_loop es limit next next_bound rs) better h refl (
      pick_loop-Improves es limit next next_bound rs
        (if-elim (λ n. n ≤ limit) better (load es r.id) bound (λ e. ground (arith, e)) (λ e. h)))

pub pick_loop-IsLeast :
    (es : List Experiment) (limit : ℕ) (rs : List Runner)
    → IsLeast es limit rs (pick_loop es limit none limit rs)
pick_loop-IsLeast es limit rs = elim (pick_loop-Improves es limit none limit rs (omega arith)) [
  | inl (p, all) ↦ subst (IsLeast es limit rs) (sym p) all
  | inr (r, p, any, less, all) ↦ subst (IsLeast es limit rs) (sym p) (any, less, all)
]

-- The runners that may take another experiment: those in service whose rows are not locked.
abbrev pub candidates : List String → Pool → List Runner
candidates locked pool = keep (λ r. in_service r && is_unlocked locked r) pool.runners

abbrev pub changed : (Runner → Runner) → Option Runner → Option Runner
changed f none = none
changed f (some r) = some (f r)

-- What an allocation does: it takes no runner, changes nothing, and no candidate has room; or it takes
-- the candidate with the least load, which has room, and no other row of a runner changes.
abbrev pub Fair : ℕ → List String → String → ℕ → Pool → Option Runner × Pool → Type 0
Fair limit locked e now pool (none, after) =
    (after ≡ pool) × All (λ x. limit ≤ load pool.experiments x.id) (candidates locked pool)
Fair limit locked e now pool (some r, after) =
    Any (λ x. mark_busy e now x ≡ r) (candidates locked pool)
    × (load pool.experiments r.id < limit)
    × All (λ x. load pool.experiments r.id ≤ load pool.experiments x.id) (candidates locked pool)
    × ((id : String)
        → get_runner after.runners id ≡ (
            if r.id == id
            then changed (mark_busy e now) (get_runner pool.runners id)
            else get_runner pool.runners id))

pub get_runner-update_runner :
    (rs : List Runner) (k id : String) (f : Runner → Runner)
    → ((r : Runner) → (f r).id ≡ r.id)
    → get_runner (update_runner k f rs) id
      ≡ (if k == id then changed f (get_runner rs id) else get_runner rs id)
unfolding get_runner update_runner
get_runner-update_runner [] k id f same = ground arith
get_runner-update_runner (r ∷ rs) k id f same = ground (
  arith,
  same r,
  eq_iff k id,
  eq_iff r.id k,
  eq_iff r.id id,
  get_runner-update_runner rs k id f same,
)

Any-map :
    (P Q : Runner → Type 0) (rs : List Runner) → ((x : Runner) → P x → Q x) → Any P rs → Any Q rs
Any-map P Q [] f h = elim h [ ]
Any-map P Q (r ∷ rs) f (inl h) = inl (f r h)
Any-map P Q (r ∷ rs) f (inr h) = inr (Any-map P Q rs f h)

occupy-Fair :
    (limit : ℕ) (locked : List String) (e : String) (now : ℕ) (pool : Pool) (found : Option Runner)
    → IsLeast pool.experiments limit (candidates locked pool) found
    → Fair limit locked e now pool (occupy e now found pool)
occupy-Fair limit locked e now pool none h = (refl, h)
occupy-Fair limit locked e now pool (some r) (any, less, all) = (
  Any-map (λ x. x ≡ r) (λ x. mark_busy e now x ≡ mark_busy e now r) (candidates locked pool)
      (λ x p. ap (mark_busy e now) p) any,
  less,
  all,
  λ id. get_runner-update_runner pool.runners r.id id (mark_busy e now) (λ x. refl),
)

-- With a limit of two or more, an allocation takes no runner and changes nothing only if no READY
-- or BUSY runner that is not locked is below the limit; and else it takes such a runner with the
-- fewest active experiments, below the limit, marks it, and leaves the rows of all other runners.
pub allocate-Fair :
    (limit : ℕ) (locked : List String) (e : String) (now : ℕ) (pool : Pool)
    → 2 ≤ limit
    → Fair limit locked e now pool (allocate_runner_for_experiment limit locked e now pool)
unfolding allocate_runner_for_experiment pick_runner_with_capacity
allocate-Fair limit locked e now pool h =
    let shared : leb limit 1 ≡ false = ground (arith, h) in
    subst
      (λ b. Fair limit locked e now pool (
        occupy e now
          (if b then pick_free locked pool else pick_runner_with_capacity locked limit pool) pool))
      (sym shared)
      (occupy-Fair limit locked e now pool (pick_runner_with_capacity locked limit pool)
        (pick_loop-IsLeast pool.experiments limit (candidates locked pool)))

-- A runner that is admitted is the one found, and passed the test.
pub admitted-admits :
    (limit : ℕ) (es : List Experiment) (found : Option Runner) (r : Runner)
    → admitted limit es found ≡ some r
    → (found ≡ some r) × (admits limit es r ≡ true)
admitted-admits limit es none r p = cc
admitted-admits limit es (some x) r p = elim (Bool-cases (admits limit es x)) [
  | inl b ↦
      let same : some x ≡ some r = subst (λ c. (if c then some x else none) ≡ some r) b p in
      (same, subst (λ y. admits limit es y ≡ true) (ap (λ o. get_or o x) same) b)
  | inr b ↦
      let absurd : none ≡ some r = subst (λ c. (if c then some x else none) ≡ some r) b p in cc
]
