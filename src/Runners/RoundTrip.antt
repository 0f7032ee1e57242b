-- ===== src/Runners/RoundTrip.antt =====
-- A runner that is given to an experiment and released again.
use gigaevo_platform.Prelude.{
  ℕ, ◌≤◌, String, ◌≡◌, refl, sym, ap, ◌∙◌, inl, inr, Bool, true, false, not, ◌&&◌, Option, none,
  some, List, [], ◌∷◌, arith, leb, if◌then◌else◌, Bool-cases, is_some, get_or, keep, All, All-keep,
}
use gigaevo_platform.Prelude.Eq.{◌==◌, string_eq, nat_eq, beq_refl}
use mathlib.Core.Path.{subst}
use gigaevo_platform.Prelude.{and_left, and_right}
use gigaevo_platform.Runners.{
  RunnerInstanceStatus, ready, online, offline, initializing, busy, error, terminating, is_ready,
  Runner, Pool, has_current, is_free, is_unlocked, get_runner, update_runner,
}
use gigaevo_platform.Runners.Allocate.{
  mark_busy, occupy, picked, pick_free, pick_runner_with_capacity, allocate_runner_for_experiment,
}
use gigaevo_platform.Runners.Release.{
  mark_ready, free_current, free_slot, scalar_one_or_none, release_runner_if_assigned,
}
use gigaevo_platform.Runners.Holding.{first_row-All}

-- Every row is the one that its primary key finds.
abbrev pub IsKeyed : List Runner → Type 0
IsKeyed rs = All (λ r. get_runner rs r.id ≡ some r) rs

abbrev pub touch : ℕ → Runner → Runner
touch now r = record r { last_heartbeat = some now }

ready_of : (s : RunnerInstanceStatus) → is_ready s ≡ true → s ≡ ready
ready_of ready h = refl
ready_of online h = cc
ready_of offline h = cc
ready_of initializing h = cc
ready_of busy h = cc
ready_of error h = cc
ready_of terminating h = cc

none_of : {A : Type 0} (o : Option A) → not (is_some o) ≡ true → o ≡ none
none_of none h = refl
none_of (some a) h = cc

pub free-touch :
    (e : String) (now later : ℕ) (r : Runner)
    → is_free r ≡ true
    → mark_ready later (mark_busy e now r) ≡ touch later r
free-touch e now later r free =
    let s =
      ready_of r.status
        (and_left (is_ready r.status) (not (is_some r.current_experiment_id)) free) in
    let c =
      none_of r.current_experiment_id
        (and_right (is_ready r.status) (not (is_some r.current_experiment_id)) free) in
    rw (s, c)

-- Two writes on the same row.
pub update_runner-twice :
    (k : String) (f g h : Runner → Runner) (rs : List Runner) (x : Runner)
    → ((r : Runner) → (f r).id ≡ r.id)
    → get_runner rs k ≡ some x
    → g (f x) ≡ h x
    → update_runner k g (update_runner k f rs) ≡ update_runner k h rs
unfolding get_runner update_runner
update_runner-twice k f g h [] x same found e = refl
update_runner-twice k f g h (r ∷ rs) x same found e = elim (Bool-cases (r.id == k)) [
  | inl b ↦
      let same_row : some r ≡ some x =
        subst (λ c. (if c then some r else get_runner rs k) ≡ some x) b found in
      let row : r ≡ x = ap (λ o. get_or o x) same_row in
      let written : g (f r) ≡ h r = subst (λ y. g (f y) ≡ h y) (sym row) e in
      let test : ((f r).id == k) ≡ true = subst (λ i. (i == k) ≡ true) (sym (same r)) b in
      rw (b, test, written)
  | inr b ↦
      let later : get_runner rs k ≡ some x =
        subst (λ c. (if c then some r else get_runner rs k) ≡ some x) b found in
      rw (b, b, update_runner-twice k f g h rs x same later e)
]

keep-none : (p : Runner → Bool) (rs : List Runner) → All (λ r. p r ≡ false) rs → keep p rs ≡ []
keep-none p [] h = refl
keep-none p (r ∷ rs) h = rw (h.0, keep-none p rs h.1)

-- The one row that has the experiment then.
keep-update_runner :
    (k e : String) (now : ℕ) (rs : List Runner) (x : Runner)
    → All (λ r. has_current e r ≡ false) rs
    → get_runner rs k ≡ some x
    → keep (has_current e) (update_runner k (mark_busy e now) rs) ≡ mark_busy e now x ∷ []
unfolding get_runner update_runner
keep-update_runner k e now [] x none_has found = cc
keep-update_runner k e now (r ∷ rs) x none_has found = elim (Bool-cases (r.id == k)) [
  | inl b ↦
      let same_row : some r ≡ some x =
        subst (λ c. (if c then some r else get_runner rs k) ≡ some x) b found in
      let row : r ≡ x = ap (λ o. get_or o x) same_row in
      rw (b, beq_refl e, keep-none (has_current e) rs none_has.1, row)
  | inr b ↦
      let later : get_runner rs k ≡ some x =
        subst (λ c. (if c then some r else get_runner rs k) ≡ some x) b found in
      rw (b, none_has.0, keep-update_runner k e now rs x none_has.1 later)
]

-- What a release makes of the pool in which the runner that was found is occupied.
occupy-release :
    (e : String) (now later : ℕ) (pool : Pool) (found : Option Runner) (r : Runner)
    → All (λ x. has_current e x ≡ false) pool.runners
    → ((x : Runner) → found ≡ some x → (is_free x ≡ true) × (get_runner pool.runners x.id ≡ some x))
    → (occupy e now found pool).0 ≡ some r
    → let held = (occupy e now found pool).1 in
      let (done, after) =
        free_current later (scalar_one_or_none (keep (has_current e) held.runners)) held in
      (done ≡ true) × (after.runners ≡ update_runner r.id (touch later) pool.runners)
occupy-release e now later pool none r none_has free given = cc
occupy-release e now later pool (some x) r none_has free given =
    let (is_available, found) = free x refl in
    let row : mark_busy e now x ≡ r = ap (λ o. get_or o (mark_busy e now x)) given in
    let id : x.id ≡ r.id = ap (λ y. y.id) row in
    let kept = keep-update_runner x.id e now pool.runners x none_has found in
    let twice =
      update_runner-twice x.id (mark_busy e now) (mark_ready later) (touch later) pool.runners x
        (λ y. refl) found (free-touch e now later x is_available) in
    subst
      (λ rows.
        let held = (occupy e now (some x) pool).1 in
        let (done, after) = free_current later (scalar_one_or_none rows) held in
        (done ≡ true) × (after.runners ≡ update_runner r.id (touch later) pool.runners))
      (sym kept) (refl, twice ∙ ap (λ k. update_runner k (touch later) pool.runners) id)

-- With one experiment per runner and rows that their keys find, if no runner has the experiment,
-- allocating a runner for it and releasing that experiment again succeeds and leaves all runners as
-- they were, but for the heartbeat of the one that was allocated.
-- With one experiment per runner, the runner that is picked is free, and the one its key finds.
pub picked-free :
    (limit : ℕ) (locked : List String) (pool : Pool)
    → limit ≤ 1
    → IsKeyed pool.runners
    → (x : Runner) → picked limit locked pool ≡ some x
    → (is_free x ≡ true) × (get_runner pool.runners x.id ≡ some x)
unfolding pick_runner_with_capacity
picked-free limit locked pool single keyed x p =
    let available : Runner → Bool = λ y. is_free y && is_unlocked locked y in
    let one_each : leb limit 1 ≡ true = ground (arith, single) in
    let (known, passed) =
      first_row-All (λ y. (get_runner pool.runners y.id ≡ some y) × (available y ≡ true))
        (keep available pool.runners) x
        (All-keep (λ y. get_runner pool.runners y.id ≡ some y) available pool.runners keyed)
        (subst
          (λ b.
            (if b then pick_free locked pool else pick_runner_with_capacity locked limit pool)
            ≡ some x)
          one_each p) in
    (and_left (is_free x) (is_unlocked locked x) passed, known)

-- With one experiment per runner and rows that their keys find, if no runner has the experiment,
-- allocating a runner for it and releasing that experiment again succeeds and leaves all runners as
-- they were, but for the heartbeat of the one that was allocated.
pub allocate-release :
    (limit : ℕ) (locked : List String) (e : String) (now later : ℕ) (pool : Pool) (r : Runner)
    → limit ≤ 1
    → IsKeyed pool.runners
    → All (λ x. has_current e x ≡ false) pool.runners
    → (allocate_runner_for_experiment limit locked e now pool).0 ≡ some r
    → let (done, after) =
        release_runner_if_assigned limit e later
          (allocate_runner_for_experiment limit locked e now pool).1 in
      (done ≡ true) × (after.runners ≡ update_runner r.id (touch later) pool.runners)
unfolding allocate_runner_for_experiment release_runner_if_assigned
allocate-release limit locked e now later pool r single keyed none_has given =
    let one_each : leb limit 1 ≡ true = ground (arith, single) in
    let held = (occupy e now (picked limit locked pool) pool).1 in
    let rows = scalar_one_or_none (keep (has_current e) held.runners) in
    subst
      (λ b.
        let (done, after) =
          (if b then free_current later rows held else free_slot e later rows held) in
        (done ≡ true) × (after.runners ≡ update_runner r.id (touch later) pool.runners))
      (sym one_each)
      (occupy-release e now later pool (picked limit locked pool) r none_has
        (picked-free limit locked pool single keyed) given)
