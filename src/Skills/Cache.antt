-- ===== src/Skills/Cache.antt =====
-- The content of the bucket, under the steps of the resolver.
use gigaevo_platform.Prelude.{
  String, ◌≡◌, refl, sym, ap, ◌∙◌, inl, inr, true, Option, none, some, [], ◌∷◌, eq_iff,
  if◌then◌else◌, Bool-cases, is_some, get_or, length, All,
}
use gigaevo_platform.Prelude.Eq.{◌==◌, string_eq, nat_eq, beq_refl}
use gigaevo_platform.Prelude.Dict.{Dict, get, put, get-put}
use mathlib.Core.Path.{subst}
use gigaevo_platform.Prelude.{◌⊎◌, inl, inr}
use gigaevo_platform.Prelude.{if-elim}
use gigaevo_platform.Prelude.Text.{Text}
use gigaevo_platform.Prelude.Result.{Result, ok, err}
use gigaevo_platform.SkillManifest.{AgentSkillManifest, parse_skill_md}
use gigaevo_platform.Skills.{
  Bucket, Web, AgentSkillError, AgentSkillResolveRequest, AgentSkillResolveResponse, save_index,
  mismatch, differs, is_entry, record_uri, store_skill, resolve_stored, resolve_parsed,
  resolve_pinned, resolve_fetched,
}

-- Every skill is stored under the hash of its content.
abbrev pub WellHashed : Web → Bucket → Type 0
WellHashed web bucket = All (λ entry. web.sha256 entry.1 ≡ entry.0) bucket.skills

put-All :
    (P : String × Text → Type 0) (d : Dict Text) (k : String) (v : Text)
    → All P d
    → P (k, v)
    → All P (put d k v)
unfolding put
put-All P [] k v h p = (p, tt)
put-All P ((j, w) ∷ d) k v h p =
    if-elim (All P) (j == k) ((k, v) ∷ d) ((j, w) ∷ put d k v) (λ b. (p, h.1))
      (λ b. (h.0, put-All P d k v h.1 p))

pub get-All :
    (P : String × Text → Type 0) (d : Dict Text) (k : String) (v : Text)
    → All P d
    → get d k ≡ some v
    → P (k, v)
unfolding get
get-All P [] k v h p = cc
get-All P ((j, w) ∷ d) k v h p = elim (Bool-cases (j == k)) [
  | inl b ↦
      let value : some w ≡ some v = subst (λ c. (if c then some w else get d k) ≡ some v) b p in
      subst (λ i. P (i, v)) ((eq_iff j k).0 b)
        (subst (λ x. P (j, x)) (ap (λ o. get_or o w) value) h.0)
  | inr b ↦ get-All P d k v h.1 (subst (λ c. (if c then some w else get d k) ≡ some v) b p)
]

-- A pin that is given, and not empty, is this hash.
abbrev pub Satisfies : Option String → String → Type 0
Satisfies none sha = Unit
Satisfies (some pin) sha = (pin ≡ "") ⊎ (pin ≡ sha)

pub mismatch-Satisfies :
    (pin : Option String) (sha : String) → mismatch pin sha ≡ none → Satisfies pin sha
unfolding mismatch
mismatch-Satisfies none sha h = tt
mismatch-Satisfies (some pin) sha h = elim (Bool-cases (pin == "")) [
  | inl b ↦ inl ((eq_iff pin "").0 b)
  | inr b ↦ elim (Bool-cases (pin == sha)) [
    | inl c ↦ inr ((eq_iff pin sha).0 c)
    | inr c ↦
        let given : differs sha (some pin) ≡ none =
          subst (λ e. differs sha (if e then none else some pin) ≡ none) b h in
        let absurd : some pin ≡ none = subst (λ e. (if e then none else some pin) ≡ none) c given in
        cc
  ]
]

-- What an answer promises: an error changes nothing; a success satisfies the pin, is stored, and comes
-- from a content with that hash.
abbrev pub IsGenuine :
    Web
    → AgentSkillResolveRequest
    → Bucket
    → Result AgentSkillError AgentSkillResolveResponse × Bucket
    → Type 0
IsGenuine web req bucket (err e, after) = after ≡ bucket
IsGenuine web req bucket (ok r, after) =
    WellHashed web after
    × Satisfies req.expected_sha256 r.sha256
    × (is_some (get after.skills r.sha256) ≡ true)
    × ((content : Text) × (web.sha256 content ≡ r.sha256)
        × (parse_skill_md web.decoders content ≡ some r.manifest)
        × (r.size_bytes ≡ length content))

module _ (web : Web) (req : AgentSkillResolveRequest) where
  save_index-skills :
      (index : Dict String) (bucket : Bucket) → (save_index web index bucket).skills ≡ bucket.skills
  unfolding save_index
  save_index-skills index bucket =
      if-elim {A = Bucket} (λ b. b.skills ≡ bucket.skills) web.can_upload_index
        (record bucket { index_object = some (web.dump_index index) }) bucket (λ b. refl)
        (λ b. refl)

  pub record_uri-skills :
      (uri sha : String) (index : Dict String) (bucket : Bucket)
      → (record_uri web uri sha index bucket).skills ≡ bucket.skills
  record_uri-skills uri sha index bucket =
      if-elim {A = Bucket} (λ b. b.skills ≡ bucket.skills) (is_entry sha (get index uri)) bucket
        (save_index web (put index uri sha) bucket) (λ b. refl)
        (λ b. save_index-skills (put index uri sha) bucket)

  -- The skill is stored after an upload that succeeded, and before.
  store_skill-lem :
      (content : Text) (found : Option Text) (bucket after : Bucket)
      → get bucket.skills (web.sha256 content) ≡ found
      → WellHashed web bucket
      → store_skill web (web.sha256 content) content found bucket ≡ some after
      → WellHashed web after × (is_some (get after.skills (web.sha256 content)) ≡ true)
  store_skill-lem content (some old) bucket after p h q =
      let same : bucket ≡ after = ap (λ o. get_or o bucket) q in
      subst (λ b. WellHashed web b × (is_some (get b.skills (web.sha256 content)) ≡ true)) same
        (h, ap is_some p)
  store_skill-lem content none bucket after p h q = elim (Bool-cases web.can_upload_skill) [
    | inl b ↦
        let sha = web.sha256 content in
        let new : Bucket = record bucket { skills = put bucket.skills sha content } in
        let made : some new ≡ some after =
          subst (λ c. (if c then some new else none) ≡ some after) b q in
        subst (λ b. WellHashed web b × (is_some (get b.skills sha) ≡ true))
          (ap (λ o. get_or o new) made)
          (
            put-All (λ entry. web.sha256 entry.1 ≡ entry.0) bucket.skills sha content h refl,
            ap is_some (get-put bucket.skills sha sha content) ∙ rw (beq_refl sha),
          )
    | inr b ↦
        let sha = web.sha256 content in
        let new : Bucket = record bucket { skills = put bucket.skills sha content } in
        let absurd : none ≡ some after =
          subst (λ c. (if c then some new else none) ≡ some after) b q in
        cc
  ]

  resolve_stored-IsGenuine :
      (index : Dict String) (content : Text) (manifest : AgentSkillManifest) (bucket : Bucket)
      (made : Option Bucket)
      → mismatch req.expected_sha256 (web.sha256 content) ≡ none
      → parse_skill_md web.decoders content ≡ some manifest
      → ((after : Bucket)
          → made ≡ some after
          → WellHashed web after × (is_some (get after.skills (web.sha256 content)) ≡ true))
      → IsGenuine web req bucket (resolve_stored web req index content manifest bucket made)
  resolve_stored-IsGenuine index content manifest bucket none pin manifest_of good = refl
  resolve_stored-IsGenuine index content manifest bucket (some after) pin manifest_of good =
      let same = sym (record_uri-skills req.uri (web.sha256 content) index after) in
      (
        subst (λ s. All (λ entry. web.sha256 entry.1 ≡ entry.0) s) same (good after refl).0,
        mismatch-Satisfies req.expected_sha256 (web.sha256 content) pin,
        subst (λ s. is_some (get s (web.sha256 content)) ≡ true) same (good after refl).1,
        (content, refl, manifest_of, refl),
      )

  resolve_parsed-IsGenuine :
      (index : Dict String) (content : Text) (bucket : Bucket) (found : Option AgentSkillManifest)
      → WellHashed web bucket
      → mismatch req.expected_sha256 (web.sha256 content) ≡ none
      → parse_skill_md web.decoders content ≡ found
      → IsGenuine web req bucket (resolve_parsed web req index content bucket found)
  resolve_parsed-IsGenuine index content bucket none h pin p = refl
  resolve_parsed-IsGenuine index content bucket (some manifest) h pin p =
      let sha = web.sha256 content in
      resolve_stored-IsGenuine index content manifest bucket
        (store_skill web sha content (get bucket.skills sha) bucket) pin p
        (λ after q. store_skill-lem content (get bucket.skills sha) bucket after refl h q)

  resolve_pinned-IsGenuine :
      (index : Dict String) (content : Text) (bucket : Bucket) (found : Option String)
      → WellHashed web bucket
      → mismatch req.expected_sha256 (web.sha256 content) ≡ found
      → IsGenuine web req bucket (resolve_pinned web req index content bucket found)
  resolve_pinned-IsGenuine index content bucket (some expected) h p = refl
  resolve_pinned-IsGenuine index content bucket none h p =
      resolve_parsed-IsGenuine index content bucket (parse_skill_md web.decoders content) h p refl

  pub resolve_fetched-IsGenuine :
      (index : Dict String) (bucket : Bucket) (found : Option Text)
      → WellHashed web bucket
      → IsGenuine web req bucket (resolve_fetched web req index bucket found)
  resolve_fetched-IsGenuine index bucket none h = refl
  resolve_fetched-IsGenuine index bucket (some content) h =
      resolve_pinned-IsGenuine index content bucket
        (mismatch req.expected_sha256 (web.sha256 content)) h refl
