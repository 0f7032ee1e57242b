-- ===== src/Evolution/Best.antt =====
-- What `record_individual` of master_api/src/services/evolution_service.py leaves behind.
use gigaevo_platform.Prelude.{
  String, ◌≡◌, refl, sym, ap, ◌∙◌, ◌↔◌, Bool, true, false, Option, none, some, List, [], ◌∷◌, ltb,
  if◌then◌else◌,
}
use gigaevo_platform.Prelude.Eq.{string_eq, nat_eq}
use gigaevo_platform.Prelude.Dict.{get}
use mathlib.Core.Path.{subst}
use gigaevo_platform.Prelude.Result.{Result, ok, err}
use gigaevo_platform.EventBus.{publish}
use gigaevo_platform.Evolution.{
  EvolutionRecord, Individual, Failure, persist_failed, unknown_objectives, World, get_evolution,
  get_individual, individual_payload, store_individual, announce,
}
use gigaevo_platform.Evolution.Pareto.{Scores, Ahead, wins, wins_iff}
use gigaevo_platform.Evolution.Individuals.{
  Writes, maybe_get_individual, unknown, is_best, beats, patch_if_known, compare_best, record_found,
  record_individual,
}
use gigaevo_platform.Evolution.Patched.{
  Patched, patch-Patched, maybe_get_individual-bus, stored_individual,
}

module _ {S : Type 0} ⦃F : Scores S⦄ where
  -- The score is better than that of the best so far, if that is there and has one.
  abbrev pub Leads : Bool → String → S → Result Failure (Option (Individual S)) → Type 0
  Leads higher primary s (err e) = ⊥
  Leads higher primary s (ok none) = Unit
  Leads higher primary s (ok (some best)) =
      (t : S) → get best.fitness_scores primary ≡ some t → Ahead higher s t

  some_injective : (u t : S) → some u ≡ some t → u ≡ t
  some_injective u t e = cc

  score_iff :
      (higher : Bool) (s : S) (o : Option S)
      → (elim o [ none ↦ true | some t ↦ wins s t higher ] ≡ true)
        ↔ ((t : S) → o ≡ some t → Ahead higher s t)
  score_iff higher s none = (λ h t e. cc, λ h. refl)
  score_iff higher s (some u) = (
    λ h t e. subst (Ahead higher s) (some_injective u t e) ((wins_iff higher s u).0 h),
    λ h. (wins_iff higher s u).1 (h u refl),
  )

  is_best_iff :
      (higher : Bool) (primary : String) (new : Option S)
      (best : Result Failure (Option (Individual S))) (b : Bool)
      → is_best higher primary new best ≡ ok b
      → (b ≡ true) ↔ ((s : S) × (new ≡ some s) × Leads higher primary s best)
  is_best_iff higher primary none best b h = (λ e. cc, λ (s, e, l). cc)
  is_best_iff higher primary (some s) (err e) b h = (λ e. cc, λ p. absurd p.2)
  is_best_iff higher primary (some s) (ok none) b h = (λ e. (s, refl, tt), λ p. cc)
  is_best_iff higher primary (some s) (ok (some best)) b h =
      let same : beats higher primary s (some best) ≡ b = cc in
      let o = get best.fitness_scores primary in
      (
        λ e. (s, refl, (score_iff higher s o).0 (same ∙ e)),
        λ p.
            let equal : p.0 ≡ s = cc (p.1) in
            sym same
            ∙ (score_iff higher s o).1 (λ t e. subst (λ x. Ahead higher x t) equal (p.2 t e)),
      )

  -- An error leaves the records as they were. On a success the individual can be read, and the record
  -- has the larger generation, the status and the accepted individual that it had, and as its best the
  -- new individual, if it has a score on the first objective and that is better than the score of the best
  -- before, if there is one, and else the one before.
  abbrev pub Recorded :
      String
      → Individual S
      → EvolutionRecord
      → World S
      → Result Failure (Individual S) × World S
      → Type 0
  Recorded id i r w (err e, w') = w'.evolutions ≡ w.evolutions
  Recorded id i r w (ok j, w') =
      (primary : String) × (objectives : List String) × (b : Bool) × (r.objectives
        ≡ primary ∷ objectives)
      × ((b ≡ true) ↔ (
          (s : S) × (get i.fitness_scores primary ≡ some s)
          × Leads r.higher_is_better primary s (
              maybe_get_individual id r.best_individual_id
                (store_individual id i.individual_id i w))))
      × Patched b id i r w (ok j, w')

  patch_if_known-Recorded :
      (u : Writes) (id : String) (i : Individual S) (r : EvolutionRecord) (w v : World S)
      → (primary : String) (objectives : List String) (known : Result Failure Bool)
      → get_evolution id w ≡ ok r
      → r.evolution_id ≡ id
      → w.evolutions ≡ v.evolutions
      → get_individual id i.individual_id w ≡ ok i
      → r.objectives ≡ primary ∷ objectives
      → is_best r.higher_is_better primary
          (get i.fitness_scores primary)
          (maybe_get_individual id r.best_individual_id (store_individual id i.individual_id i v))
        ≡ known
      → Recorded id i r v (patch_if_known u id r i primary known w)
  patch_if_known-Recorded u id i r w v primary objectives (err f) h e same there o k = same
  patch_if_known-Recorded u id i r w v primary objectives (ok b) h e same there o k = weaken _ (
      patch-Patched (ltb r.current_generation i.generation) b u id i primary r w v h e same there
        refl)
    where
      weaken :
          (a : Result Failure (Individual S) × World S) → Patched b id i r v a → Recorded id i r v a
      weaken (err f, w') p = p
      weaken (ok j, w') p = (primary, objectives, b, o, is_best_iff _ _ _ _ b k, p)

  compare_best-Recorded :
      (u : Writes) (id : String) (i : Individual S) (r : EvolutionRecord) (v : World S)
      → (objectives : List String) → get_evolution id v ≡ ok r
      → r.evolution_id ≡ id
      → r.objectives ≡ objectives
      → Recorded id i r v (
          compare_best objectives u id r i (
            announce id "individual_evaluated"
              (individual_payload i)
              (store_individual id i.individual_id i v)))
  unfolding get_evolution publish get_individual
  compare_best-Recorded u id i r v [] h e o = refl
  compare_best-Recorded u id i r v (primary ∷ objectives) h e o =
      let stored = store_individual id i.individual_id i v in
      let kept = announce id "individual_evaluated" (individual_payload i) stored in
      patch_if_known-Recorded u id i r kept v primary objectives
        (is_best r.higher_is_better primary (get i.fitness_scores primary)
          (maybe_get_individual id r.best_individual_id kept))
        h e refl (stored_individual id i v) o
        (ap (is_best r.higher_is_better primary (get i.fitness_scores primary))
          (maybe_get_individual-bus id r.best_individual_id stored kept.bus))

  -- Recording an individual for a stored evolution, whose own id is the one asked for: an error
  -- leaves the records as they were; after a success the individual is the answer and can be read,
  -- the evolution has an objective, its record can be read, with the status and the accepted
  -- individual that it had and the larger of its and the individual's generation, and its best is
  -- the individual exactly if that has a score on the first objective, and the best before is
  -- missing, has no score there, or has one that is worse; else the best is as before.
  pub record_individual-Recorded :
      (u : Writes) (id : String) (i : Individual S) (r : EvolutionRecord) (w : World S)
      → get_evolution id w ≡ ok r
      → r.evolution_id ≡ id
      → Recorded id i r w (record_individual u id i w)
  unfolding record_individual
  record_individual-Recorded u id i r w h e =
      subst (λ found. Recorded id i r w (record_found u id i found w)) (sym h)
        (choose (unknown r.objectives i.fitness_scores) u.individual_stored)
    where
      kept : World S
      kept =
          announce id "individual_evaluated" (individual_payload i)
            (store_individual id i.individual_id i w)

      choose :
          (bad up : Bool)
          → Recorded id i r w (
              if bad
              then (err unknown_objectives, w)
              else if up
              then compare_best r.objectives u id r i kept
              else (err persist_failed, w))
      choose true up = refl
      choose false false = refl
      choose false true = compare_best-Recorded u id i r w r.objectives h e refl
