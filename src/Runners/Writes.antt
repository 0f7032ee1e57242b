-- ===== src/Runners/Writes.antt =====
-- The writes of allocations and releases, and a runner that holds an experiment.
use gigaevo_platform.Prelude.{
  ℕ, String, ◌≡◌, refl, sym, ◌∙◌, inl, inr, Bool, true, false, not, ◌&&◌, ◌||◌, Option, none, some,
  List, [], ◌∷◌, ltb, leb, if◌then◌else◌, Bool-cases, keep, All, All-keep,
}
use gigaevo_platform.Prelude.Eq.{◌==◌, string_eq, nat_eq}
use mathlib.Core.Path.{subst}
use gigaevo_platform.Prelude.{and_left, if-elim}
use gigaevo_platform.Runners.{
  in_service, Runner, Pool, has_current, is_free, is_unlocked, get_runner, update_runner,
}
use gigaevo_platform.Runners.Allocate.{
  mark_busy, occupy, picked, pick_free, pick_runner_with_capacity, admitted,
}
use gigaevo_platform.Runners.Release.{
  free_current, holder, write_row, mark_ready, scalar_one_or_none,
}
use gigaevo_platform.Runners.Fair.{load, admitted-admits}
use gigaevo_platform.Runners.Holding.{
  is_kept, IsHeld, update_runner-is_some, update_runner-other, first_row-All, get_runner-All,
  free_other, current_other,
}

-- A write on another row leaves the experiment held.
pub write_row-IsHeld :
    (id e k : String) (f : Runner → Runner) (rs : List Runner)
    → ((r : Runner) → (f r).id ≡ r.id)
    → (k == id) ≡ false
    → IsHeld id e rs
    → IsHeld id e (update_runner k f rs)
write_row-IsHeld id e k f rs same other h =
    (update_runner-is_some k id f rs same ∙ h.0, update_runner-other k id e f rs same other h.1)

pub occupy-IsHeld :
    (id e f : String) (now : ℕ) (found : Option Runner) (pool : Pool)
    → ((r : Runner) → found ≡ some r → (r.id == id) ≡ false)
    → IsHeld id e pool.runners
    → IsHeld id e (occupy f now found pool).1.runners
occupy-IsHeld id e f now none pool other h = h
occupy-IsHeld id e f now (some r) pool other h =
    write_row-IsHeld id e r.id (mark_busy f now) pool.runners (λ x. refl) (other r refl) h

pub picked-other :
    (limit : ℕ) (locked : List String) (id e : String) (pool : Pool)
    → leb limit 1 ≡ true
    → All (λ r. is_kept id e r ≡ true) pool.runners
    → (r : Runner) → picked limit locked pool ≡ some r
    → (r.id == id) ≡ false
picked-other limit locked id e pool single h r p =
    let available : Runner → Bool = λ x. is_free x && is_unlocked locked x in
    let (kept, free) =
      first_row-All (λ x. (is_kept id e x ≡ true) × (available x ≡ true))
        (keep available pool.runners) r
        (All-keep (λ x. is_kept id e x ≡ true) available pool.runners h)
        (subst
          (λ b.
            (if b then pick_free locked pool else pick_runner_with_capacity locked limit pool)
            ≡ some r)
          single p) in
    free_other id e r kept (and_left (is_free r) (is_unlocked locked r) free)

pub admitted-other :
    (limit : ℕ) (id e : String) (pool : Pool) (found : Option Runner)
    → leb limit 1 ≡ true
    → ((r : Runner) → found ≡ some r → is_kept id e r ≡ true)
    → (r : Runner) → admitted limit pool.experiments found ≡ some r
    → (r.id == id) ≡ false
admitted-other limit id e pool found single kept r p =
    let (same, admits_it) = admitted-admits limit pool.experiments found r p in
    free_other id e r (kept r same) (
      subst
        (λ b.
          (if b then is_free r else in_service r && ltb (load pool.experiments r.id) limit) ≡ true)
        single admits_it)

pub free_current-IsHeld :
    (id e f : String) (now : ℕ) (xs : List Runner) (pool : Pool)
    → not (f == e) ≡ true
    → All (λ r. (is_kept id e r ≡ true) × (has_current f r ≡ true)) xs
    → IsHeld id e pool.runners
    → IsHeld id e (free_current now (scalar_one_or_none xs) pool).1.runners
free_current-IsHeld id e f now [] pool other all h = h
free_current-IsHeld id e f now (r ∷ []) pool other all h =
    write_row-IsHeld id e r.id (mark_ready now) pool.runners (λ x. refl)
      (current_other id e f r all.0.0 all.0.1 other) h
free_current-IsHeld id e f now (r ∷ s ∷ rs) pool other all h = h

pub named_other :
    (id e k f : String) (r : Runner)
    → is_kept id e r ≡ true
    → r.id ≡ k
    → has_current f r ≡ true
    → (not (k == id) || not (f == e)) ≡ true
    → (r.id == id) ≡ false
named_other id e k f r kept named current other = elim (Bool-cases (k == id)) [
  | inl b ↦
      current_other id e f r kept current (subst (λ c. (not c || not (f == e)) ≡ true) b other)
  | inr b ↦ subst (λ j. (j == id) ≡ false) (sym named) b
]

pub by_id-IsHeld :
    (id e k f : String) (now : ℕ) (pool : Pool) (found : Option Runner)
    → (not (k == id) || not (f == e)) ≡ true
    → get_runner pool.runners k ≡ found
    → IsHeld id e pool.runners
    → IsHeld id e (write_row (mark_ready now) (holder f found) pool).1.runners
by_id-IsHeld id e k f now pool none other p h = h
by_id-IsHeld id e k f now pool (some r) other p h =
    let (kept, named) = get_runner-All (λ x. is_kept id e x ≡ true) pool.runners k r h.1 p in
    if-elim (λ o. IsHeld id e (write_row (mark_ready now) o pool).1.runners) (has_current f r)
      (some r) none
      (λ b.
        write_row-IsHeld id e r.id (mark_ready now) pool.runners (λ x. refl)
          (named_other id e k f r kept named b other) h)
      (λ b. h)

pub ready-IsHeld :
    (id e k : String) (now : ℕ) (pool : Pool) (found : Option Runner)
    → (k == id) ≡ false
    → get_runner pool.runners k ≡ found
    → IsHeld id e pool.runners
    → IsHeld id e (write_row (mark_ready now) found pool).1.runners
ready-IsHeld id e k now pool none other p h = h
ready-IsHeld id e k now pool (some r) other p h =
    let (kept, named) = get_runner-All (λ x. is_kept id e x ≡ true) pool.runners k r h.1 p in
    write_row-IsHeld id e r.id (mark_ready now) pool.runners (λ x. refl)
      (subst (λ j. (j == id) ≡ false) (sym named) other) h
