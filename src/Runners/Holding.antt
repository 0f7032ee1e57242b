-- ===== src/Runners/Holding.antt =====
-- A runner that holds an experiment, and the writes on the rows of runners.
use gigaevo_platform.Prelude.{
  String, ◌≡◌, refl, sym, ap, ◌∙◌, inl, inr, Bool, true, false, not, ◌||◌, Option, none, some, List,
  [], ◌∷◌, arith, eq_iff, if◌then◌else◌, Bool-cases, is_some, get_or, All,
}
use gigaevo_platform.Prelude.Eq.{◌==◌, string_eq, nat_eq}
use mathlib.Core.Path.{subst}
use gigaevo_platform.Prelude.{if-elim}
use gigaevo_platform.Runners.{
  is_text, Runner, first_row, has_current, is_free, get_runner, update_runner,
}

-- A row with this id has this current experiment.
abbrev pub is_kept : String → String → Runner → Bool
is_kept id e r = not (r.id == id) || has_current e r

-- The runner is there, and its rows have this current experiment.
abbrev pub IsHeld : String → String → List Runner → Type 0
IsHeld id e rs = (is_some (get_runner rs id) ≡ true) × All (λ r. is_kept id e r ≡ true) rs

pub update_runner-is_some :
    (k id : String) (f : Runner → Runner) (rs : List Runner)
    → ((r : Runner) → (f r).id ≡ r.id)
    → is_some (get_runner (update_runner k f rs) id) ≡ is_some (get_runner rs id)
unfolding get_runner update_runner
update_runner-is_some k id f [] same = refl
update_runner-is_some k id f (r ∷ rs) same =
    ground (arith, same r, update_runner-is_some k id f rs same)

-- A write on another row.
pub update_runner-other :
    (k id e : String) (f : Runner → Runner) (rs : List Runner)
    → ((r : Runner) → (f r).id ≡ r.id)
    → (k == id) ≡ false
    → All (λ r. is_kept id e r ≡ true) rs
    → All (λ r. is_kept id e r ≡ true) (update_runner k f rs)
unfolding update_runner
update_runner-other k id e f [] same other h = tt
update_runner-other k id e f (r ∷ rs) same other h = ground (
  arith,
  eq_iff k id,
  eq_iff r.id k,
  eq_iff r.id id,
  same r,
  other,
  h.0,
  h.1,
  update_runner-other k id e f rs same other h.1,
)

-- A write that leaves ids and experiments.
pub update_runner-same :
    (k id e : String) (f : Runner → Runner) (rs : List Runner)
    → ((r : Runner) → ((f r).id ≡ r.id) × ((f r).current_experiment_id ≡ r.current_experiment_id))
    → All (λ r. is_kept id e r ≡ true) rs
    → All (λ r. is_kept id e r ≡ true) (update_runner k f rs)
unfolding update_runner
update_runner-same k id e f [] same h = tt
update_runner-same k id e f (r ∷ rs) same h =
    let kept : is_kept id e (f r) ≡ true = rw ((same r).0, (same r).1, h.0) in
    if-elim (All (λ r. is_kept id e r ≡ true)) (r.id == k) (f r ∷ rs) (r ∷ update_runner k f rs)
      (λ b. (kept, h.1)) (λ b. (h.0, update_runner-same k id e f rs same h.1))

pub first_row-All :
    (P : Runner → Type 0) (rs : List Runner) (r : Runner) → All P rs → first_row rs ≡ some r → P r
first_row-All P [] r h p = cc
first_row-All P (x ∷ rs) r h p = subst P (ap (λ o. get_or o x) p) h.0

pub get_runner-All :
    (P : Runner → Type 0) (rs : List Runner) (k : String) (r : Runner)
    → All P rs
    → get_runner rs k ≡ some r
    → P r × (r.id ≡ k)
unfolding get_runner
get_runner-All P [] k r h p = cc
get_runner-All P (x ∷ rs) k r h p = elim (Bool-cases (x.id == k)) [
  | inl b ↦
      let same : some x ≡ some r =
        subst (λ b. (if b then some x else get_runner rs k) ≡ some r) b p in
      subst (λ y. P y × (y.id ≡ k)) (ap (λ o. get_or o x) same) (h.0, (eq_iff x.id k).0 b)
  | inr b ↦
      get_runner-All P rs k r h.1
        (subst (λ b. (if b then some x else get_runner rs k) ≡ some r) b p)
]

-- The runner that a call writes is not the one held.
pub free_other :
    (id e : String) (r : Runner) → is_kept id e r ≡ true → is_free r ≡ true → (r.id == id) ≡ false
free_other id e r kept free = ground (arith, kept, free)

pub is_text_unique :
    (e f : String) (o : Option String) → is_text e o ≡ true → is_text f o ≡ true → f ≡ e
is_text_unique e f none h k = cc
is_text_unique e f (some t) h k = sym ((eq_iff t f).0 k) ∙ (eq_iff t e).0 h

pub current_other :
    (id e f : String) (r : Runner)
    → is_kept id e r ≡ true
    → has_current f r ≡ true
    → not (f == e) ≡ true
    → (r.id == id) ≡ false
current_other id e f r kept current other = elim (Bool-cases (r.id == id)) [
  | inl b ↦
      let held : has_current e r ≡ true = subst (λ c. (not c || has_current e r) ≡ true) b kept in
      let same = (eq_iff f e).1 (is_text_unique e f r.current_experiment_id held current) in
      let absurd : false ≡ true = subst (λ c. not c ≡ true) same other in cc
  | inr b ↦ b
]
