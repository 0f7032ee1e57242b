-- ===== src/Evolution/Listing.antt =====
-- `list_evolutions` and `list_individuals` of master_api/src/services/evolution_service.py, from the
-- objects that the store lists. The lower case, the stripped text and the search in a text are given. A
-- limit is at least 1, as the routes see to.
use mathlib.Core.Option
use gigaevo_platform.Evolution.Pareto.{Scores, pareto_front}
use gigaevo_platform.Prelude.{
  ℕ, suc, ◌+◌, String, Bool, true, false, ◌&&◌, ◌||◌, Option, none, some, List, [], ◌∷◌, ltb, leb,
  if◌then◌else◌, get_or, length, take, drop, keep,
}
use gigaevo_platform.Prelude.Eq.{◌==◌, string_eq, nat_eq}
use gigaevo_platform.Prelude.Dict.{Dict}
use gigaevo_platform.Evolution.{
  Individual, queued, running, paused, completed, failed, cancelled, accepted, EvolutionStatus,
  EvolutionRecord, Stored, intact, corrupt,
}

-- The objects that parse; a corrupt one is skipped.
abbrev pub readable : {A : Type 0} → Dict (Stored A) → List A
readable [] = []
readable ((key, corrupt) ∷ objects) = readable objects
readable ((key, intact a) ∷ objects) = a ∷ readable objects

abbrev status_beq : EvolutionStatus → EvolutionStatus → Bool
status_beq queued queued = true
status_beq running running = true
status_beq paused paused = true
status_beq completed completed = true
status_beq failed failed = true
status_beq cancelled cancelled = true
status_beq accepted accepted = true
status_beq _ _ = false

-- `records.sort(key=created_at, reverse=True)`, which keeps the order of equal times.
abbrev insert_newest : EvolutionRecord → List EvolutionRecord → List EvolutionRecord
insert_newest r [] = r ∷ []
insert_newest r (q ∷ records) =
    let rest = insert_newest r records in
    if leb q.created_at r.created_at then r ∷ q ∷ records else q ∷ rest

unfoldable pub newest_first : List EvolutionRecord → List EvolutionRecord
newest_first [] = []
newest_first (r ∷ records) = insert_newest r (newest_first records)

-- The index behind the first record with an id, as the loop over the records finds it.
abbrev pub index_after : String → List EvolutionRecord → Option ℕ
index_after cursor [] = none
index_after cursor (r ∷ records) =
    let rest = index_after cursor records in
    if r.evolution_id == cursor then some 1 else Option.map suc rest

-- An empty or unknown cursor starts at the first record.
unfoldable pub start_of : Option String → List EvolutionRecord → ℕ
start_of none records = 0
start_of (some cursor) records = if cursor == "" then 0 else get_or (index_after cursor records) 0

abbrev pub last_id : List EvolutionRecord → Option String
last_id [] = none
last_id (r ∷ []) = some r.evolution_id
last_id (r ∷ q ∷ records) = last_id (q ∷ records)

pub record EvolutionsPage : Type 0 where
  pub items : List EvolutionRecord
  pub next_cursor : Option String
  pub total_scanned : ℕ

-- The page of the records, in their order, behind a cursor.
unfoldable pub page_of : Option String → ℕ → List EvolutionRecord → EvolutionsPage
unfolding start_of
page_of cursor limit records =
    let start = start_of cursor records in
    let items = take limit (drop start records) in
    record {
      items = items;
      next_cursor =
          if length items == limit && ltb (start + limit) (length records)
          then last_id items
          else none;
      total_scanned = length records;
    }

module _ (text_lower text_strip : String → String) (has_text : String → String → Bool) where
  abbrev has_tag : String → List String → Bool
  has_tag needle [] = false
  has_tag needle (tag ∷ tags) = needle == text_lower tag || has_tag needle tags

  abbrev by_status : Option EvolutionStatus → List EvolutionRecord → List EvolutionRecord
  by_status none records = records
  by_status (some status) records = keep (λ r. status_beq r.status status) records

  abbrev by_name : Option String → List EvolutionRecord → List EvolutionRecord
  by_name none records = records
  by_name (some q) records =
      let needle = text_lower (text_strip q) in
      if needle == "" then records else keep (λ r. has_text (text_lower r.name) needle) records

  abbrev by_tag : Option String → List EvolutionRecord → List EvolutionRecord
  by_tag none records = records
  by_tag (some tag) records = keep (λ r. has_tag (text_lower (text_strip tag)) r.tags) records

  unfoldable pub list_evolutions :
      Option EvolutionStatus
      → Option String
      → Option String
      → Option String
      → ℕ
      → Dict (Stored EvolutionRecord)
      → EvolutionsPage
  unfolding newest_first page_of
  list_evolutions status tag q cursor limit objects =
      page_of cursor limit
        (newest_first (by_name q (by_tag tag (by_status status (readable objects)))))

-- Earlier in `items.sort(key=lambda i: (i.generation, i.created_at))`.
abbrev is_earlier : {S : Type 0} → Individual S → Individual S → Bool
is_earlier i j =
    ltb i.generation j.generation || leb i.generation j.generation && leb i.created_at j.created_at

abbrev insert_earliest : {S : Type 0} → Individual S → List (Individual S) → List (Individual S)
insert_earliest i [] = i ∷ []
insert_earliest i (j ∷ items) =
    let rest = insert_earliest i items in if is_earlier i j then i ∷ j ∷ items else j ∷ rest

abbrev by_generation : {S : Type 0} → Option ℕ → List (Individual S) → List (Individual S)
by_generation none items = items
by_generation (some generation) items = keep (λ i. i.generation == generation) items

module _ {S : Type 0} ⦃F : Scores S⦄ where
  unfoldable pub earliest_first : List (Individual S) → List (Individual S)
  earliest_first [] = []
  earliest_first (i ∷ items) = insert_earliest i (earliest_first items)

  -- `list_individuals` of an evolution, from the objects of its individuals.
  unfoldable pub list_individuals :
      Option ℕ → Bool → ℕ → EvolutionRecord → Dict (Stored (Individual S)) → List (Individual S)
  unfolding earliest_first pareto_front
  list_individuals generation pareto limit r objects =
      let items = by_generation generation (readable objects) in
      let front = if pareto then pareto_front r.higher_is_better r.objectives items else items in
      take limit (earliest_first front)
