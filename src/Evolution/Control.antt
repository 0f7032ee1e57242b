-- ===== src/Evolution/Control.antt =====
-- The life cycle of master_api/src/services/evolution_service.py.
use gigaevo_platform.Prelude.{
  ℕ, String, ◌≡◌, refl, inl, inr, Bool, true, false, not, Option, none, some, arith, if◌then◌else◌,
  Bool-cases,
}
use gigaevo_platform.Prelude.Eq.{string_eq, nat_eq, beq_refl}
use gigaevo_platform.Prelude.Dict.{get-put}
use gigaevo_platform.Prelude.Result.{Result, ok, err}
use gigaevo_platform.Evolution.{
  status_event, EvolutionStatus, queued, running, paused, cancelled, EvolutionRecord, Failure,
  cannot, persist_failed, World, object_key, get_evolution, store_evolution, persist, is_terminal,
  can_pause, is_paused, change_status, cancel_evolution, pause_evolution, resume_evolution,
}

pub data Control : Type 0 where
  cancel pause resume : Control

-- The life cycle as a table: where each control leads from each status.
abbrev pub leads : Control → EvolutionStatus → Option EvolutionStatus
leads cancel queued = some cancelled
leads cancel running = some cancelled
leads cancel paused = some cancelled
leads pause queued = some paused
leads pause running = some paused
leads resume paused = some running
leads _ _ = none

abbrev allowed_by : Control → EvolutionStatus → Bool
allowed_by cancel s = not (is_terminal s)
allowed_by pause s = can_pause s
allowed_by resume s = is_paused s

abbrev target : Control → EvolutionStatus
target cancel = cancelled
target pause = paused
target resume = running

abbrev event_of : Control → String
event_of cancel = "cancelled"
event_of pause = "paused"
event_of resume = "resumed"

leads_lem :
    (c : Control) (s : EvolutionStatus)
    → (if allowed_by c s then some (target c) else none) ≡ leads c s
leads_lem c s = ground arith

module _ {S : Type 0} where
  abbrev pub control :
      Control → Bool → ℕ → String → World S → Result Failure EvolutionRecord × World S
  control cancel = cancel_evolution
  control pause = pause_evolution
  control resume = resume_evolution

  -- What a control gives on a stored record: by the table, and by the answer of the store.
  abbrev pub FollowsTable :
      Option EvolutionStatus
      → Bool
      → ℕ
      → String
      → EvolutionRecord
      → World S
      → Result Failure EvolutionRecord × World S
      → Type 0
  FollowsTable none up now id r w (answer, w') = (answer ≡ err (cannot r.status)) × (w' ≡ w)
  FollowsTable (some status) false now id r w (answer, w') =
      (answer ≡ err persist_failed) × (w' ≡ w)
  FollowsTable (some status) true now id r w (answer, w') =
      let r' : EvolutionRecord = record r { status = status; updated_at = now } in
      (answer ≡ ok r') × (get_evolution id w' ≡ ok r') × (w'.individuals ≡ w.individuals)

  pub stored_again :
      (id : String) (r : EvolutionRecord) (w : World S)
      → r.evolution_id ≡ id
      → get_evolution id (store_evolution r w) ≡ ok r
  unfolding get_evolution
  stored_again id r w e =
      rw (e, get-put w.evolutions (object_key id) (object_key id), beq_refl (object_key id)) refl

  change_status-FollowsTable :
      (allowed : EvolutionStatus → Bool) (new : EvolutionStatus) (event_type : String)
      → (up : Bool) (now : ℕ) (id : String) (r : EvolutionRecord) (w : World S)
      → r.evolution_id ≡ id
      → FollowsTable
          (if allowed r.status then some new else none)
          up
          now
          id
          r
          w
          (change_status allowed new event_type up now id (ok r) w)
  unfolding get_evolution
  change_status-FollowsTable allowed new event_type up now id r w e =
      elim (Bool-cases (allowed r.status)) [
        | inr refused ↦ rw refused (refl, refl)
        | inl allows ↦ rw allows (persisted up)
      ]
    where
      persisted :
          (up : Bool)
          → FollowsTable
              (some new)
              up
              now
              id
              r
              w
              (persist up now id event_type status_event (record r { status = new }) w)
      persisted false = (refl, refl)
      persisted true =
          (refl, stored_again id (record r { status = new; updated_at = now }) w e, refl)

  control_found :
      (c : Control) (up : Bool) (now : ℕ) (id : String) (r : EvolutionRecord) (w : World S)
      → r.evolution_id ≡ id
      → (found : Result Failure EvolutionRecord) → found ≡ ok r
      → FollowsTable
          (leads c r.status)
          up
          now
          id
          r
          w
          (change_status (allowed_by c) (target c) (event_of c) up now id found w)
  control_found c up now id r w e found h =
      rw (h, ← leads_lem c r.status)
        (change_status-FollowsTable (allowed_by c) (target c) (event_of c) up now id r w e)

  -- A control on a stored record, whose own id is the one asked for, does what the table says:
  -- where the table leads nowhere, it is refused with the status and changes nothing; where it
  -- leads somewhere and the store refuses the record, that is the error and nothing changes; and
  -- else the record that can be read afterwards has the new status and the new time, and is as
  -- before in all else.
  pub control_lem :
      (c : Control) (up : Bool) (now : ℕ) (id : String) (r : EvolutionRecord) (w : World S)
      → get_evolution id w ≡ ok r
      → r.evolution_id ≡ id
      → FollowsTable (leads c r.status) up now id r w (control c up now id w)
  unfolding cancel_evolution pause_evolution resume_evolution
  control_lem cancel up now id r w h e = control_found cancel up now id r w e _ h
  control_lem pause up now id r w h e = control_found pause up now id r w e _ h
  control_lem resume up now id r w h e = control_found resume up now id r w e _ h
