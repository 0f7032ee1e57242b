-- ===== src/Evolution/Winner.antt =====
-- What `accept_individual` of master_api/src/services/evolution_service.py leaves behind.
use gigaevo_platform.Prelude.{
  ℕ, String, ◌≡◌, refl, sym, ap, ◌∙◌, Bool, true, false, Option, none, some, arith, if◌then◌else◌,
}
use gigaevo_platform.Prelude.Eq.{string_eq, nat_eq}
use mathlib.Core.Path.{subst}
use gigaevo_platform.Prelude.{and_left, and_right}
use gigaevo_platform.Prelude.Result.{Result, ok, err}
use gigaevo_platform.EventBus.{publish}
use gigaevo_platform.Evolution.{
  EvolutionStatus, accepted, EvolutionRecord, Individual, Promotion, accepted_payload, Failure,
  persist_failed, World, get_evolution, get_individual, store_individual, persist,
}
use gigaevo_platform.Evolution.Accept.{
  is_accepted, is_id, Request, Memory, promote, as_accepted, accept_record, accept_flag,
  accept_promoted, accept_found, accept_checked, accept_guarded, accept_individual,
}
use gigaevo_platform.Evolution.Control.{stored_again}

as_accepted_lem :
    (individual_id : String) (now : ℕ) (promotion : Option Promotion) (r : EvolutionRecord)
    → ((as_accepted individual_id now promotion r).status ≡ accepted)
      × ((as_accepted individual_id now promotion r).accepted_individual_id ≡ some individual_id)
      × ((as_accepted individual_id now promotion r).evolution_id ≡ r.evolution_id)
as_accepted_lem individual_id now none r = (refl, refl, refl)
as_accepted_lem individual_id now (some p) r = (refl, refl, refl)

accepted_lem : (s : EvolutionStatus) → is_accepted s ≡ true → s ≡ accepted
accepted_lem s h = ground arith

is_id_lem : (a : Option String) (b : String) → is_id a b ≡ true → a ≡ some b
is_id_lem none b h = cc
is_id_lem (some a) b h = ap some ((string_eq.test_iff a b).0 h)

module _ {S : Type 0} where
  -- An error leaves the stored records alone; a success is a record that can be read afterwards and is
  -- accepted with the individual.
  abbrev pub Ends : String → String → World S → Result Failure EvolutionRecord × World S → Type 0
  Ends id individual_id w (err e, w') = w'.evolutions ≡ w.evolutions
  Ends id individual_id w (ok r, w') =
      (r.status ≡ accepted)
      × (r.accepted_individual_id ≡ some individual_id)
      × (get_evolution id w' ≡ ok r)

  accept_record-Ends :
      (id individual_id : String) (q : Request) (promotion : Option Promotion)
      → (found : Result Failure EvolutionRecord) (r : EvolutionRecord) (w v : World S)
      → found ≡ ok r
      → r.evolution_id ≡ id
      → w.evolutions ≡ v.evolutions
      → Ends id individual_id v (accept_record id individual_id q promotion found w)
  unfolding get_evolution publish
  accept_record-Ends id individual_id q promotion found r w v h e same =
      rw h (saved q.record_stored)
    where
      saved :
          (up : Bool)
          → Ends id individual_id v (
              persist up q.now id "accepted"
                (λ kept. accepted_payload individual_id kept q.note)
                (as_accepted individual_id q.now promotion r)
                w)
      saved false = same
      saved true =
          let (status, winner, own) = as_accepted_lem individual_id q.now promotion r in
          (
            status,
            winner,
            stored_again id
                (record (as_accepted individual_id q.now promotion r) { updated_at = q.now }) w
                (own ∙ e),
          )

  accept_flag-Ends :
      (id individual_id : String) (q : Request) (promotion : Option Promotion) (i : Individual S)
      → (r : EvolutionRecord) (w : World S) → get_evolution id w ≡ ok r
      → r.evolution_id ≡ id
      → Ends id individual_id w (accept_flag id individual_id q promotion i w)
  unfolding get_evolution
  accept_flag-Ends id individual_id q promotion i r w h e = choose i.accepted q.individual_stored
    where
      choose :
          (flag up : Bool)
          → Ends id individual_id w (
              if flag
              then accept_record id individual_id q promotion (get_evolution id w) w
              else if up
              then accept_record id individual_id q promotion
                  (get_evolution id w)
                  (store_individual id individual_id (record i { accepted = true }) w)
              else (err persist_failed, w))
      choose true up = accept_record-Ends id individual_id q promotion _ r w w h e refl
      choose false true = accept_record-Ends id individual_id q promotion _ r _ w h e refl
      choose false false = refl

  accept_found-Ends :
      (memory : Memory) (id individual_id : String) (q : Request) (r : EvolutionRecord)
      → (found : Result Failure (Individual S)) (w : World S) → get_evolution id w ≡ ok r
      → r.evolution_id ≡ id
      → Ends id individual_id w (accept_found memory id individual_id q r found w)
  accept_found-Ends memory id individual_id q r (err f) w h e = refl
  accept_found-Ends memory id individual_id q r (ok i) w h e =
      promoted (promote memory _ i.chain_content)
    where
      promoted :
          (p : Result Failure (Option Promotion))
          → Ends id individual_id w (accept_promoted id individual_id q p i w)
      promoted (err f) = refl
      promoted (ok promotion) = accept_flag-Ends id individual_id q promotion i r w h e

  accept_guarded-Ends :
      (f o again clash : Bool) (id individual_id : String) (q : Request) (r : EvolutionRecord)
      → (rest : Result Failure EvolutionRecord × World S) (w : World S) → get_evolution id w ≡ ok r
      → (again ≡ true → (r.status ≡ accepted) × (r.accepted_individual_id ≡ some individual_id))
      → Ends id individual_id w rest
      → Ends id individual_id w (accept_guarded f o again clash id individual_id q r rest w)
  unfolding get_evolution
  accept_guarded-Ends true o again clash id individual_id q r rest w h won k = refl
  accept_guarded-Ends false true again clash id individual_id q r rest w h won k = refl
  accept_guarded-Ends false false true true id individual_id q r rest w h won k = refl
  accept_guarded-Ends false false true false id individual_id q r rest w h won k =
      ((won refl).0, (won refl).1, h)
  accept_guarded-Ends false false false clash id individual_id q r rest w h won k = k

  -- An acceptance on a stored record, whose own id is the one asked for: an error leaves all stored
  -- records as they were, and a success is the record that can be read afterwards, which is
  -- accepted with this individual.
  pub accept_individual-Ends :
      (memory : Memory) (id individual_id : String) (q : Request) (r : EvolutionRecord)
      (w : World S)
      → get_evolution id w ≡ ok r
      → r.evolution_id ≡ id
      → Ends id individual_id w (accept_individual memory id individual_id q w)
  unfolding accept_individual
  accept_individual-Ends memory id individual_id q r w h e =
      subst (λ found. Ends id individual_id w (accept_checked memory id individual_id q found w))
        (sym h)
        (accept_guarded-Ends _ _ _ _ id individual_id q r _ w h
          (λ again. (
            accepted_lem r.status (and_left _ _ again),
            is_id_lem r.accepted_individual_id individual_id
                (and_right (is_accepted r.status) _ again),
          ))
          (accept_found-Ends memory id individual_id q r (get_individual id individual_id w) w h e))

  -- Nothing stored changes, and only the winner is confirmed, with the record as it is.
  abbrev pub Stays :
      String
      → String
      → EvolutionRecord
      → World S
      → Result Failure EvolutionRecord × World S
      → Type 0
  Stays winner individual_id r w (err e, w') =
      (w'.evolutions ≡ w.evolutions) × (w'.individuals ≡ w.individuals)
  Stays winner individual_id r w (ok r', w') =
      (individual_id ≡ winner)
      × (r' ≡ r)
      × (w'.evolutions ≡ w.evolutions)
      × (w'.individuals ≡ w.individuals)
