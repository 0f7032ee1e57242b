-- ===== src/Experiments/Claim.antt =====
-- Which experiment the scheduler claims.
use gigaevo_platform.Prelude.{
  ℕ, ◌≤◌, String, ◌≡◌, refl, sym, ◌∙◌, inl, inr, Option, none, some, List, [], ◌∷◌, arith, eq_iff,
  ltb, if◌then◌else◌, keep, All, All-mono, false, true, Bool-cases, ◌↔◌,
}
use gigaevo_platform.Prelude.Eq.{◌==◌, string_eq, nat_eq, beq_refl, contains}
use mathlib.Core.Path.{subst}
use gigaevo_platform.Prelude.{Any, if-elim}
use gigaevo_platform.Experiments.{
  Experiment, dispatching, get_experiment, update_where, earlier, oldest, is_claimable,
  dispatch_row, claim_row, claim_next_queued_for_dispatching, queued, ExperimentStatus, is_queued,
}

-- QUEUED, with a row that no other transaction has locked.
abbrev pub IsFree : List String → Experiment → Type 0
IsFree locked e = (e.status ≡ queued) × (contains e.id locked ≡ false)

-- A free experiment of the list that was created first, of these; or none is free.
abbrev pub IsOldest : List String → List Experiment → Option Experiment → Type 0
IsOldest locked es none = All (λ y. ¬ IsFree locked y) es
IsOldest locked es (some x) =
    Any (λ y. y ≡ x) es
    × IsFree locked x
    × All (λ y. IsFree locked y → x.created_at ≤ y.created_at) es

is_queued_iff : (s : ExperimentStatus) → (is_queued s ≡ true) ↔ (s ≡ queued)
is_queued_iff queued = (λ h. refl, λ h. refl)
is_queued_iff _ = (λ h. cc, λ h. cc)

is_claimable_iff :
    (locked : List String) (e : Experiment) → (is_claimable locked e ≡ true) ↔ IsFree locked e
is_claimable_iff locked e = ground (arith, is_queued_iff e.status)

skipped-IsOldest :
    (locked : List String) (x : Experiment) (es : List Experiment) (found : Option Experiment)
    → ¬ IsFree locked x
    → IsOldest locked es found
    → IsOldest locked (x ∷ es) found
skipped-IsOldest locked x es none busy h = (busy, h)
skipped-IsOldest locked x es (some o) busy (any, free, all) =
    (inr any, free, (λ h. absurd (busy h), all))

earlier-IsOldest :
    (locked : List String) (x : Experiment) (es : List Experiment) (found : Option Experiment)
    → IsFree locked x
    → IsOldest locked es found
    → IsOldest locked (x ∷ es) (earlier x found)
earlier-IsOldest locked x es none free h = (
  inl refl,
  free,
  (
    λ _. omega arith,
    All-mono (λ y. ¬ IsFree locked y) (λ y. IsFree locked y → x.created_at ≤ y.created_at) es
        (λ y busy h. absurd (busy h)) h,
  ),
)
earlier-IsOldest locked x es (some o) free (any, o_free, all) =
    if-elim (IsOldest locked (x ∷ es)) (ltb o.created_at x.created_at) (some o) (some x)
      (λ b. (inr any, o_free, (λ _. ground (arith, b), all)))
      (λ b.
        let first : x.created_at ≤ o.created_at = ground (arith, b) in
        (
          inl refl,
          free,
          (
            λ _. omega arith,
            All-mono (λ y. IsFree locked y → o.created_at ≤ y.created_at)
                (λ y. IsFree locked y → x.created_at ≤ y.created_at) es
                (λ y less h. let later = less h in omega (arith, first, later)) all,
          ),
        ))

oldest-IsOldest :
    (locked : List String) (es : List Experiment)
    → IsOldest locked es (oldest (keep (is_claimable locked) es))
unfolding oldest
oldest-IsOldest locked [] = tt
oldest-IsOldest locked (x ∷ es) =
    let found = oldest (keep (is_claimable locked) es) in
    let rest : IsOldest locked es found = oldest-IsOldest locked es in
    elim (Bool-cases (is_claimable locked x)) [
      | inl b ↦ rw b (earlier-IsOldest locked x es found ((is_claimable_iff locked x).0 b) rest)
      | inr b ↦ rw b (
          skipped-IsOldest locked x es found (λ free. cc (b, (is_claimable_iff locked x).1 free))
            rest)
    ]

abbrev dispatched : ℕ → Option Experiment → Option Experiment
dispatched now none = none
dispatched now (some x) = some (dispatch_row now x)

get_experiment-update_where :
    (es : List Experiment) (k id : String) (now : ℕ)
    → get_experiment (update_where k (dispatch_row now) es) id
      ≡ (if k == id then dispatched now (get_experiment es id) else get_experiment es id)
unfolding get_experiment update_where
get_experiment-update_where [] k id now = ground arith
get_experiment-update_where (x ∷ es) k id now =
    ground
      (arith, eq_iff k id, eq_iff x.id k, eq_iff x.id id, get_experiment-update_where es k id now)

-- The second row is the first one, DISPATCHING since now, with the message for that.
abbrev pub IsDispatched : ℕ → Experiment → Experiment → Type 0
IsDispatched now x y =
    (y.id ≡ x.id)
    × (y.status ≡ dispatching)
    × (y.status_message ≡ some "Dispatching to runner...")
    × (y.updated_at ≡ now)
    × (y.assigned_runner_id ≡ x.assigned_runner_id)
    × (y.files_ready ≡ x.files_ready)
    × (y.created_at ≡ x.created_at)
    × (y.started_at ≡ x.started_at)

-- The same of what a key finds before and afterwards.
abbrev pub Becomes : ℕ → Option Experiment → Option Experiment → Type 0
Becomes now none none = Unit
Becomes now (some x) (some y) = IsDispatched now x y
Becomes now _ _ = ⊥

dispatch_row-IsDispatched : (now : ℕ) (x : Experiment) → IsDispatched now x (dispatch_row now x)
dispatch_row-IsDispatched now x = (refl, refl, refl, refl, refl, refl, refl, refl)

dispatched-Becomes : (now : ℕ) (o : Option Experiment) → Becomes now o (dispatched now o)
dispatched-Becomes now none = tt
dispatched-Becomes now (some x) = dispatch_row-IsDispatched now x

-- What a claim does: nothing, where no queued experiment is free; else the one created first, of these,
-- is DISPATCHING, and every other row stays.
abbrev pub IsClaim :
    List String → ℕ → List Experiment → Option Experiment × List Experiment → Type 0
IsClaim locked now es (none, after) = (after ≡ es) × IsOldest locked es none
IsClaim locked now es (some c, after) =
    (x : Experiment) × IsDispatched now x c
    × IsOldest locked es (some x)
    × Becomes now (get_experiment es x.id) (get_experiment after x.id)
    × ((id : String) → (x.id == id) ≡ false → get_experiment after id ≡ get_experiment es id)

claim_row-IsClaim :
    (locked : List String) (now : ℕ) (es : List Experiment) (found : Option Experiment)
    → IsOldest locked es found
    → IsClaim locked now es (claim_row now found es)
claim_row-IsClaim locked now es none h = (refl, h)
claim_row-IsClaim locked now es (some x) h = (
  x,
  dispatch_row-IsDispatched now x,
  h,
  subst (Becomes now (get_experiment es x.id))
      (sym (get_experiment-update_where es x.id x.id now ∙ rw (beq_refl x.id) refl))
      (dispatched-Becomes now (get_experiment es x.id)),
  λ id other. get_experiment-update_where es x.id id now ∙ rw other refl,
)

-- A claim finds no experiment and changes nothing only if none is QUEUED with a row that is not
-- locked; and else it takes one of these that was created first, answers with it and leaves the row
-- of its id DISPATCHING, updated now and with the message for that, all else in it as it was, and
-- leaves the rows of all other ids.
pub claim_next_queued_for_dispatching-IsClaim :
    (locked : List String) (now : ℕ) (es : List Experiment)
    → IsClaim locked now es (claim_next_queued_for_dispatching locked now es)
unfolding claim_next_queued_for_dispatching
claim_next_queued_for_dispatching-IsClaim locked now es =
    claim_row-IsClaim locked now es (oldest (keep (is_claimable locked) es))
      (oldest-IsOldest locked es)
