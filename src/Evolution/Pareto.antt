-- ===== src/Evolution/Pareto.antt =====
-- `pareto_front` and `_wins` of master_api/src/services/evolution_service.py.
use gigaevo_platform.Prelude.{
  String, ◌≡◌, refl, none, some, ap, ◌↔◌, ◌⊎◌, inl, inr, Bool, true, false, not, ◌||◌, List, [],
  ◌∷◌, ◌++◌, arith, if◌then◌else◌, get_or, cons_if, keep, All, Any, some,
}
use gigaevo_platform.Prelude.Eq.{string_eq, nat_eq}
use gigaevo_platform.Prelude.Dict.{get}
use gigaevo_platform.Evolution.{Individual}

-- Python's `<` on floats, with its infinities. A NaN is below nothing and above nothing.
pub record Scores (S : Type 0) : Type 0 where
  pub less : S → S → Bool
  pub lowest : S
  pub highest : S
  pub less_irreflexive : (a : S) → less a a ≡ false

false-true : false ≡ true → ⊥
false-true e = cc

step_iff :
    {Q R W B : Type 0} (worse better strict rest : Bool)
    → (worse ≡ true) ↔ W
    → (better ≡ true) ↔ B
    → (rest ≡ true) ↔ (Q × (((strict || better) ≡ true) ⊎ R))
    → ((if worse then false else rest) ≡ true) ↔ ((¬ W × Q) × ((strict ≡ true) ⊎ (B ⊎ R)))
step_iff worse better strict rest w b h = ground (arith, w, b, h)

undominated_cons :
    {P Q : Type 0} (b rest : Bool)
    → (b ≡ true) ↔ P
    → (not rest ≡ true) ↔ Q
    → (not (b || rest) ≡ true) ↔ (¬ P × Q)
undominated_cons b rest h k = ground (arith, h, k)

module _ {S : Type 0} ⦃F : Scores S⦄ where
  open F use {less, lowest, highest, less_irreflexive}

  -- `_wins`
  abbrev pub wins : S → S → Bool → Bool
  wins candidate current_best true = less current_best candidate
  wins candidate current_best false = less candidate current_best

  unfoldable pub score : Bool → Individual S → String → S
  unfolding get
  score higher_is_better item objective =
      get_or (get item.fitness_scores objective) (if higher_is_better then lowest else highest)

  -- The loop over the objectives: it ends at the first on which `a` is worse.
  unfoldable pub dominates_loop : Bool → List String → Bool → Individual S → Individual S → Bool
  unfolding score
  dominates_loop higher [] any_strict a b = any_strict
  dominates_loop higher (objective ∷ objectives) any_strict a b =
      let sa = score higher a objective in
      let sb = score higher b objective in
      let rest = dominates_loop higher objectives (any_strict || wins sa sb higher) a b in
      if wins sb sa higher then false else rest

  unfoldable pub dominates : Bool → List String → Individual S → Individual S → Bool
  unfolding dominates_loop
  dominates higher objectives a b = dominates_loop higher objectives false a b

  abbrev pub some_dominates : Bool → List String → List (Individual S) → Individual S → Bool
  some_dominates higher objectives [] candidate = false
  some_dominates higher objectives (other ∷ others) candidate =
      dominates higher objectives other candidate
      || some_dominates higher objectives others candidate

  -- The loop over the candidates; the others are the items before it and behind it.
  unfoldable pub front_loop :
      Bool → List String → List (Individual S) → List (Individual S) → List (Individual S)
  unfolding dominates
  front_loop higher objectives before [] = []
  front_loop higher objectives before (candidate ∷ items) =
      let rest = front_loop higher objectives (before ++ (candidate ∷ [])) items in
      if some_dominates higher objectives (before ++ items) candidate
      then rest
      else candidate ∷ rest

  unfoldable pub pareto_front : Bool → List String → List (Individual S) → List (Individual S)
  unfolding front_loop
  pareto_front higher objectives items = front_loop higher objectives [] items

  -- The score that counts for an objective: one that is missing counts as the worst there is.
  abbrev pub rating : Bool → Individual S → String → S
  rating higher item objective = elim (get item.fitness_scores objective) [
    | some s ↦ s
    | none ↦ if higher then lowest else highest
  ]

  -- The first score is the better one.
  abbrev pub Ahead : Bool → S → S → Type 0
  Ahead true s t = less t s ≡ true
  Ahead false s t = less s t ≡ true

  -- No objective on which `a` is worse.
  abbrev pub NoWorse : Bool → List String → Individual S → Individual S → Type 0
  NoWorse higher objectives a b =
      All (λ o. ¬ Ahead higher (rating higher b o) (rating higher a o)) objectives

  -- Some objective on which `a` is better.
  abbrev pub Better : Bool → List String → Individual S → Individual S → Type 0
  Better higher objectives a b =
      Any (λ o. Ahead higher (rating higher a o) (rating higher b o)) objectives

  pub wins_iff : (higher : Bool) (s t : S) → (wins s t higher ≡ true) ↔ Ahead higher s t
  wins_iff true s t = (λ h. h, λ h. h)
  wins_iff false s t = (λ h. h, λ h. h)

  score-rating :
      (higher : Bool) (a : Individual S) (o : String) → score higher a o ≡ rating higher a o
  unfolding score
  score-rating true a o = ground arith
  score-rating false a o = ground arith

  scores_iff :
      (higher : Bool) (a b : Individual S) (o : String)
      → (wins (score higher a o) (score higher b o) higher ≡ true)
        ↔ Ahead higher (rating higher a o) (rating higher b o)
  scores_iff higher a b o =
      rw (score-rating higher a o, score-rating higher b o)
        (wins_iff higher (rating higher a o) (rating higher b o))

  dominates_loop_iff :
      (higher : Bool) (objectives : List String) (strict : Bool) (a b : Individual S)
      → (dominates_loop higher objectives strict a b ≡ true)
        ↔ (NoWorse higher objectives a b × ((strict ≡ true) ⊎ Better higher objectives a b))
  unfolding dominates_loop
  dominates_loop_iff higher [] strict a b =
      (λ h. (tt, inl h), λ p. elim p.1 [ inl h ↦ h | inr x ↦ absurd x ])
  dominates_loop_iff higher (o ∷ objectives) strict a b =
      step_iff _ _ strict _ (scores_iff higher b a o) (scores_iff higher a b o) (
        dominates_loop_iff higher objectives
          (strict || wins (score higher a o) (score higher b o) higher) a b)

  -- One individual is worse than the other on no objective and better on some.
  abbrev pub Dominates : Bool → List String → Individual S → Individual S → Type 0
  Dominates higher objectives a b = NoWorse higher objectives a b × Better higher objectives a b

  dominates_iff :
      (higher : Bool) (objectives : List String) (a b : Individual S)
      → (dominates higher objectives a b ≡ true) ↔ Dominates higher objectives a b
  unfolding dominates
  dominates_iff higher objectives a b = (
    λ h.
        let p = (dominates_loop_iff higher objectives false a b).0 h in
        (p.0, elim p.1 [ inl e ↦ absurd (false-true e) | inr q ↦ q ]),
    λ p. (dominates_loop_iff higher objectives false a b).1 (p.0, inr p.1),
  )

  wins_self : (higher : Bool) (s : S) → wins s s higher ≡ false
  wins_self true s = less_irreflexive s
  wins_self false s = less_irreflexive s

  dominates_loop_self :
      (higher : Bool) (objectives : List String) (strict : Bool) (a : Individual S)
      → dominates_loop higher objectives strict a a ≡ strict
  unfolding dominates_loop
  dominates_loop_self higher [] strict a = refl
  dominates_loop_self higher (o ∷ objectives) strict a =
      let calm : Bool = strict || wins (score higher a o) (score higher a o) higher in
      ground
        (arith, wins_self higher (score higher a o), dominates_loop_self higher objectives calm a)

  some_dominates_self :
      (higher : Bool) (objectives : List String) (before items : List (Individual S))
      → (c : Individual S)
      → some_dominates higher objectives (before ++ (c ∷ items)) c
        ≡ some_dominates higher objectives (before ++ items) c
  unfolding dominates
  some_dominates_self higher objectives [] items c =
      rw (dominates_loop_self higher objectives false c) refl
  some_dominates_self higher objectives (x ∷ before) items c =
      rw (some_dominates_self higher objectives before items c) refl

  -- No item of the list dominates the candidate.
  abbrev pub undominated : Bool → List String → List (Individual S) → Individual S → Bool
  undominated higher objectives items candidate =
      not (some_dominates higher objectives items candidate)

  front_step :
      (b : Bool) (c : Individual S) (rest : List (Individual S))
      → (if b then rest else c ∷ rest) ≡ cons_if (not b) c rest
  front_step true c rest = refl
  front_step false c rest = refl

  append-assoc-one :
      (before items : List (Individual S)) (c : Individual S)
      → (before ++ (c ∷ [])) ++ items ≡ before ++ (c ∷ items)
  append-assoc-one [] items c = refl
  append-assoc-one (x ∷ before) items c = ap (λ r. x ∷ r) (append-assoc-one before items c)

  front_loop-keep :
      (higher : Bool) (objectives : List String) (before items : List (Individual S))
      → front_loop higher objectives before items
        ≡ keep (undominated higher objectives (before ++ items)) items
  unfolding front_loop
  front_loop-keep higher objectives before [] = refl
  front_loop-keep higher objectives before (c ∷ items) =
      rw
        (
          front_loop-keep higher objectives (before ++ (c ∷ [])) items,
          append-assoc-one before items c,
          some_dominates_self higher objectives before items c,
        )
        (front_step (some_dominates higher objectives (before ++ items) c) c _)

  undominated_iff :
      (higher : Bool) (objectives : List String) (items : List (Individual S)) (c : Individual S)
      → (undominated higher objectives items c ≡ true)
        ↔ All (λ x. ¬ Dominates higher objectives x c) items
  undominated_iff higher objectives [] c = (λ h. tt, λ h. refl)
  undominated_iff higher objectives (x ∷ items) c =
      undominated_cons (dominates higher objectives x c) (some_dominates higher objectives items c)
        (dominates_iff higher objectives x c) (undominated_iff higher objectives items c)

  -- Of the items, in their order, those that no item dominates.
  abbrev pub IsFront : Bool → List String → List (Individual S) → List (Individual S) → Type 0
  IsFront higher objectives items front =
      (in_front : Individual S → Bool) × (front ≡ keep in_front items)
      × ((c : Individual S)
          → (in_front c ≡ true) ↔ All (λ x. ¬ Dominates higher objectives x c) items)

  -- The front keeps, in their order, exactly the items that no item of the list dominates: to
  -- dominate is to be worse on no objective and better on some, where a missing score counts as the
  -- worst.
  pub pareto_front-keep :
      (higher : Bool) (objectives : List String) (items : List (Individual S))
      → IsFront higher objectives items (pareto_front higher objectives items)
  unfolding pareto_front
  pareto_front-keep higher objectives items = (
    undominated higher objectives items,
    front_loop-keep higher objectives [] items,
    undominated_iff higher objectives items,
  )
