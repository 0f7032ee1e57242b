-- ===== src/Evolution/Paging.antt =====
-- The pages of `list_evolutions` of master_api/src/services/evolution_service.py.
use gigaevo_platform.Prelude.{
  ℕ, zero, suc, ◌+◌, String, ◌≡◌, refl, sym, ap, ◌∙◌, inl, inr, false, Option, none, some, List, [],
  ◌∷◌, ◌++◌, arith, Bool-cases, length, take, drop,
}
use gigaevo_platform.Prelude.Eq.{◌==◌, string_eq, nat_eq}
use gigaevo_platform.Prelude.{take-append-drop}
use gigaevo_platform.Evolution.{EvolutionRecord}
use gigaevo_platform.Evolution.Listing.{index_after, start_of, last_id, page_of}

-- No two records have one id, and none has the empty one.
abbrev pub DistinctIds : List EvolutionRecord → Type 0
DistinctIds [] = Unit
DistinctIds (r ∷ records) =
    (index_after r.evolution_id records ≡ none)
    × ((r.evolution_id == "") ≡ false)
    × DistinctIds records

index_after-step :
    (r : EvolutionRecord) (records : List EvolutionRecord) (c : String) (k : ℕ)
    → index_after r.evolution_id records ≡ none
    → index_after c records ≡ some k
    → index_after c (r ∷ records) ≡ some (suc k)
index_after-step r records c k fresh found = elim (Bool-cases (r.evolution_id == c)) [
  | inl same ↦ absurd (clash ((string_eq.test_iff r.evolution_id c).0 same))
  | inr other ↦ rw (other, found) refl
]
  where
    none-some : none ≡ some k → ⊥
    none-some e = cc

    clash : r.evolution_id ≡ c → ⊥
    clash e = none-some (sym fresh ∙ ap (λ i. index_after i records) e ∙ found)

none-some : (c : String) → none ≡ some c → ⊥
none-some c e = cc

-- The last of the first records.
index_after-take :
    (limit : ℕ) (records : List EvolutionRecord) (c : String)
    → DistinctIds records
    → length (take limit records) ≡ limit
    → last_id (take limit records) ≡ some c
    → (index_after c records ≡ some limit) × ((c == "") ≡ false)
index_after-take zero records c d full e = absurd (none-some c e)
index_after-take (suc n) [] c d full e = ground arith
index_after-take (suc zero) (r ∷ records) c d full e =
    let same : r.evolution_id ≡ c = cc in
    (rw ((string_eq.test_iff r.evolution_id c).1 same) refl, ap (λ i. i == "") (sym same) ∙ d.1)
index_after-take (suc (suc n)) (r ∷ []) c d full e = ground arith
index_after-take (suc (suc n)) (r ∷ q ∷ records) c d full e =
    let (found, filled) = index_after-take (suc n) (q ∷ records) c d.2 (ground (arith, full)) e in
    (index_after-step r (q ∷ records) c (suc n) d.0 found, filled)

index_after-page :
    (start limit : ℕ) (records : List EvolutionRecord) (c : String)
    → DistinctIds records
    → length (take limit (drop start records)) ≡ limit
    → last_id (take limit (drop start records)) ≡ some c
    → (index_after c records ≡ some (start + limit)) × ((c == "") ≡ false)
index_after-page zero limit records c d full e =
    let (found, filled) = index_after-take limit records c d full e in
    (found ∙ ap some (omega arith), filled)
index_after-page (suc start) zero [] c d full e = absurd (none-some c e)
index_after-page (suc start) (suc n) [] c d full e = absurd (none-some c e)
index_after-page (suc start) limit (r ∷ records) c d full e =
    let (found, filled) = index_after-page start limit records c d.2 full e in
    (index_after-step r records c (start + limit) d.0 found ∙ ap some (omega arith), filled)

drop_nil : (n : ℕ) → drop {A = EvolutionRecord} n [] ≡ []
drop_nil zero = refl
drop_nil (suc n) = refl

drop-add :
    (m n : ℕ) (records : List EvolutionRecord) → drop (m + n) records ≡ drop n (drop m records)
drop-add zero n records = let e : 0 + n ≡ n = omega arith in ap (λ k. drop k records) e
drop-add (suc m) n [] = drop_nil (suc m + n) ∙ sym (drop_nil n)
drop-add (suc m) n (r ∷ records) =
    let e : suc m + n ≡ suc (m + n) = omega arith in
    ap (λ k. drop k (r ∷ records)) e ∙ drop-add m n records

-- A page that names a next cursor is full, and the last of it has this id.
page_of-cursor :
    (cursor : Option String) (limit : ℕ) (records : List EvolutionRecord) (c : String)
    → (page_of cursor limit records).next_cursor ≡ some c
    → (length (take limit (drop (start_of cursor records) records)) ≡ limit)
      × (last_id (take limit (drop (start_of cursor records) records)) ≡ some c)
unfolding page_of
page_of-cursor cursor limit records c h = ground arith

-- On records with distinct ids, none of which is empty, a page that names a next cursor has as many
-- items as the limit, and the page behind that cursor starts where it ends: its items and what lies
-- behind the next cursor are all that lies behind its own.
pub page_of-next :
    (cursor : Option String) (limit : ℕ) (records : List EvolutionRecord) (c : String)
    → DistinctIds records
    → (page_of cursor limit records).next_cursor ≡ some c
    → (length (page_of cursor limit records).items ≡ limit)
      × ((page_of cursor limit records).items ++ drop (start_of (some c) records) records
          ≡ drop (start_of cursor records) records)
unfolding page_of start_of
page_of-next cursor limit records c d h =
    let start = start_of cursor records in
    let (full, last) = page_of-cursor cursor limit records c h in
    let (found, filled) = index_after-page start limit records c d full last in
    (
      full,
      rw (filled, found)
          (ap (λ rest. take limit (drop start records) ++ rest) (drop-add start limit records)
            ∙ take-append-drop limit (drop start records)),
    )
