-- ===== src/Evolution/Accept.antt =====
-- `accept_individual` of master_api/src/services/evolution_service.py.
use gigaevo_platform.Prelude.{
  ℕ, String, Bool, true, false, not, ◌&&◌, Option, none, some, List, [], ◌∷◌, if◌then◌else◌,
  or_else,
}
use gigaevo_platform.Prelude.Eq.{◌==◌, string_eq, nat_eq, contains}
use gigaevo_platform.Prelude.Result.{Result, ok, err}
use gigaevo_platform.EventBus.{publish}
use gigaevo_platform.Evolution.{
  EvolutionStatus, accepted, EvolutionRecord, Individual, Promotion, accepted_payload, Failure,
  persist_failed, accept_refused, World, filled, effective_affected_chain_ids, get_evolution,
  get_individual, store_individual, announce, persist,
}

abbrev pub is_accepted : EvolutionStatus → Bool
is_accepted accepted = true
is_accepted _ = false

-- `a != b` of two optional texts that both hold something.
abbrev pub differ : Option String → Option String → Bool
differ (some a) (some b) = not (a == b)
differ _ _ = false

abbrev pub is_id : Option String → String → Bool
is_id none b = false
is_id (some a) b = a == b

abbrev pub first : List String → Option String
first [] = none
first (id ∷ ids) = some id

-- A chain that is asked for and is not among the affected ones.
abbrev pub foreign : Option String → List String → Bool
foreign none ids = false
foreign (some chain) ids = not (contains chain ids)

-- The request: `chain_id_to_update` and `note`, the time, and what the store answers to the individual
-- and to the record.
pub record Request : Type 0 where
  pub chain_id_to_update : Option String
  pub note : Option String
  pub now : ℕ
  pub individual_stored : Bool
  pub record_stored : Bool

-- Memory, where it is configured: whether it promotes a chain to some content.
abbrev pub Memory : Type 0
Memory = Option (String → String → Option Promotion)

-- The promotion of the chain, if there is one to promote.
abbrev pub promote : Memory → Option String → String → Result Failure (Option Promotion)
promote memory none content = ok none
promote none (some chain) content = err (accept_refused "Memory API URL is required")
promote (some memory) (some chain) content = elim (memory chain content) [
  | none ↦ err (accept_refused chain)
  | some promotion ↦ ok (some promotion)
]

abbrev pub with_promotion : Option Promotion → EvolutionRecord → EvolutionRecord
with_promotion none r = r
with_promotion (some p) r = record r {
  accepted_chain_id = some p.chain_id;
  previous_version = p.previous_version;
  new_version = p.new_version;
  new_version_id = p.new_version_id;
}

-- The record after the acceptance.
abbrev pub as_accepted : String → ℕ → Option Promotion → EvolutionRecord → EvolutionRecord
as_accepted individual_id now promotion r = with_promotion promotion (record r {
  status = accepted;
  accepted_individual_id = some individual_id;
  accepted_at = some now;
  best_individual_id = some individual_id;
})

module _ {S : Type 0} where
  -- The record's part, on what can then be read.
  abbrev pub accept_record :
      String
      → String
      → Request
      → Option Promotion
      → Result Failure EvolutionRecord
      → World S
      → Result Failure EvolutionRecord × World S
  accept_record id individual_id q promotion (err e) w = (err e, w)
  accept_record id individual_id q promotion (ok r) w =
      persist q.record_stored q.now id "accepted"
        (λ kept. accepted_payload individual_id kept q.note)
        (as_accepted individual_id q.now promotion r) w

  -- The individual's part: the flag is written once.
  abbrev pub accept_flag :
      String
      → String
      → Request
      → Option Promotion
      → Individual S
      → World S
      → Result Failure EvolutionRecord × World S
  accept_flag id individual_id q promotion i w =
      let flagged = store_individual id individual_id (record i { accepted = true }) w in
      let plain = accept_record id individual_id q promotion (get_evolution id w) w in
      let written = accept_record id individual_id q promotion (get_evolution id flagged) flagged in
      if i.accepted then plain else if q.individual_stored then written else (err persist_failed, w)

  abbrev pub accept_promoted :
      String
      → String
      → Request
      → Result Failure (Option Promotion)
      → Individual S
      → World S
      → Result Failure EvolutionRecord × World S
  accept_promoted id individual_id q (err e) i w = (err e, w)
  accept_promoted id individual_id q (ok promotion) i w =
      accept_flag id individual_id q promotion i w

  abbrev pub accept_found :
      Memory
      → String
      → String
      → Request
      → EvolutionRecord
      → Result Failure (Individual S)
      → World S
      → Result Failure EvolutionRecord × World S
  accept_found memory id individual_id q r (err e) w = (err e, w)
  accept_found memory id individual_id q r (ok i) w =
      let chain =
        or_else (filled q.chain_id_to_update) (filled (first (effective_affected_chain_ids r))) in
      accept_promoted id individual_id q (promote memory chain i.chain_content) i w

  -- The guards one after the other, on their tests: a chain that is not affected, another winner, the
  -- same winner, and then another chain; behind them, what the rest of the code gives.
  abbrev pub accept_guarded :
      Bool
      → Bool
      → Bool
      → Bool
      → String
      → String
      → Request
      → EvolutionRecord
      → Result Failure EvolutionRecord × World S
      → World S
      → Result Failure EvolutionRecord × World S
  accept_guarded true other again clash id individual_id q r rest w =
      (err (accept_refused "chain is not affected"), w)
  accept_guarded false true again clash id individual_id q r rest w =
      (err (accept_refused "already accepted"), w)
  accept_guarded false false true true id individual_id q r rest w =
      (err (accept_refused "already accepted into another chain"), w)
  accept_guarded false false true false id individual_id q r rest w =
      (ok r, announce id "accepted" (accepted_payload individual_id r q.note) w)
  accept_guarded false false false clash id individual_id q r rest w = rest

  abbrev pub accept_checked :
      Memory
      → String
      → String
      → Request
      → Result Failure EvolutionRecord
      → World S
      → Result Failure EvolutionRecord × World S
  accept_checked memory id individual_id q (err e) w = (err e, w)
  accept_checked memory id individual_id q (ok r) w =
      let wanted = filled q.chain_id_to_update in
      accept_guarded (foreign wanted (effective_affected_chain_ids r))
        (is_accepted r.status && differ (filled r.accepted_individual_id) (some individual_id))
        (is_accepted r.status && is_id r.accepted_individual_id individual_id)
        (differ wanted (filled r.accepted_chain_id)) id individual_id q r
        (accept_found memory id individual_id q r (get_individual id individual_id w) w) w

  unfoldable pub accept_individual :
      Memory → String → String → Request → World S → Result Failure EvolutionRecord × World S
  unfolding get_evolution get_individual publish effective_affected_chain_ids
  accept_individual memory id individual_id q w =
      accept_checked memory id individual_id q (get_evolution id w) w
