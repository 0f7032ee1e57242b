-- ===== src/Skills.antt =====
-- master_api/src/services/agent_skill_resolver.py: the cache of skills by the hash of their content,
-- with an index from addresses to hashes. The bucket is the object of the index and the objects of the
-- skills by hash; a byte string is a list of numbers. The web, SHA-256, JSON and the decoders of
-- the manifest enter as `Web`.
use gigaevo_platform.Prelude.{
  ℕ, zero, suc, ◌+◌, ◌-◌, ◌≤◌, ◌<◌, String, append_text, ◌≡◌, refl, sym, ap, ◌∙◌, ◌≢◌, ◌↔◌, ◌⊎◌,
  inl, inr, Bool, true, false, not, ◌&&◌, ◌||◌, Option, none, some, List, [], ◌∷◌, ◌++◌, map, arith,
  eq_iff, ltb, leb, if◌then◌else◌, Bool-cases, Option-cases, or_else, is_some, ◌>>=◌, get_or,
  length, take, drop, keep, All, All-mono, All-zip, All-append, All-keep,
}
use gigaevo_platform.Prelude.Eq.{Eq, ◌==◌, string_eq, nat_eq, beq_refl, contains}
use gigaevo_platform.Prelude.Dict.{Dict, get, put, get-put}
use gigaevo_platform.SkillManifest.{Decoders, AgentSkillManifest, parse_skill_md}
use gigaevo_platform.Prelude.Text.{Text}
use gigaevo_platform.Prelude.Result.{Result, ok, err}
pub mod Cache
pub mod Genuine
pub mod Hits

pub record Bucket : Type 0 where
  pub index_object : Option Text
  pub skills : Dict Text

pub record Web : Type 0 where
  pub get_uri : String → Option Text
  pub sha256 : Text → String
  pub dump_index : Dict String → Text
  pub load_json : Text → Option (Dict String)
  pub decoders : Decoders
  -- Whether an upload of a skill, and one of the index, succeeds.
  pub can_upload_skill : Bool
  pub can_upload_index : Bool

pub data AgentSkillError : Type 0 where
  fetch_failed manifest_malformed persist_failed : AgentSkillError
  sha_mismatch : String → String → AgentSkillError

pub record AgentSkillResolveRequest : Type 0 where
  pub uri : String
  pub expected_sha256 : Option String
  pub force_refresh : Bool

pub record AgentSkillResolveResponse : Type 0 where
  pub sha256 : String
  pub uri : String
  pub manifest : AgentSkillManifest
  pub cached : Bool
  pub size_bytes : ℕ

-- `_load_index`: a missing, an empty or a corrupt object is an empty index.
abbrev pub read_index : Web → Option Text → Dict String
read_index web none = []
read_index web (some []) = []
read_index web (some (c ∷ raw)) = get_or (web.load_json (c ∷ raw)) []

unfoldable pub load_index : Web → Bucket → Dict String
load_index web bucket = read_index web bucket.index_object

-- `_save_index`, whose failure is not reported.
unfoldable pub save_index : Web → Dict String → Bucket → Bucket
save_index web index bucket =
    if web.can_upload_index
    then record bucket { index_object = some (web.dump_index index) }
    else bucket

-- `if cached_sha`, `if cached_bytes`, `if req.expected_sha256`: present and not empty.
abbrev pub nonempty_string : Option String → Option String
nonempty_string none = none
nonempty_string (some s) = if s == "" then none else some s

abbrev pub nonempty_bytes : Option Text → Option Text
nonempty_bytes none = none
nonempty_bytes (some []) = none
nonempty_bytes (some (c ∷ s)) = some (c ∷ s)

abbrev pub differs : String → Option String → Option String
differs sha none = none
differs sha (some expected) = if expected == sha then none else some expected

-- `req.expected_sha256 and req.expected_sha256 != sha256`
unfoldable pub mismatch : Option String → String → Option String
mismatch pin sha = differs sha (nonempty_string pin)

abbrev pub refuse :
    String
    → Option String
    → Result AgentSkillError AgentSkillResolveResponse
    → Result AgentSkillError AgentSkillResolveResponse
refuse sha none answer = answer
refuse sha (some expected) answer = err (sha_mismatch expected sha)

abbrev pub response :
    AgentSkillResolveRequest → String → Text → Bool → AgentSkillManifest → AgentSkillResolveResponse
response req sha content cached manifest = record {
  sha256 = sha;
  uri = req.uri;
  manifest = manifest;
  cached = cached;
  size_bytes = length content;
}

-- The answer from the cache: the manifest is read before the pin is looked at.
abbrev pub answer_cached :
    AgentSkillResolveRequest
    → String
    → Text
    → Option AgentSkillManifest
    → Result AgentSkillError AgentSkillResolveResponse
answer_cached req sha content none = err manifest_malformed
answer_cached req sha content (some manifest) =
    refuse sha (mismatch req.expected_sha256 sha) (ok (response req sha content true manifest))

abbrev pub is_entry : String → Option String → Bool
is_entry sha none = false
is_entry sha (some s) = s == sha

-- The index is written only where it changes.
abbrev pub record_uri : Web → String → String → Dict String → Bucket → Bucket
record_uri web uri sha index bucket =
    if is_entry sha (get index uri) then bucket else save_index web (put index uri sha) bucket

abbrev pub store_skill : Web → String → Text → Option Text → Bucket → Option Bucket
store_skill web sha content (some resolve_stored) bucket = some bucket
store_skill web sha content none bucket =
    if web.can_upload_skill
    then some (record bucket { skills = put bucket.skills sha content })
    else none

abbrev pub resolve_stored :
    Web
    → AgentSkillResolveRequest
    → Dict String
    → Text
    → AgentSkillManifest
    → Bucket
    → Option Bucket
    → Result AgentSkillError AgentSkillResolveResponse × Bucket
resolve_stored web req index content manifest bucket none = (err persist_failed, bucket)
resolve_stored web req index content manifest bucket (some after) =
    let sha = web.sha256 content in
    (ok (response req sha content false manifest), record_uri web req.uri sha index after)

abbrev pub resolve_parsed :
    Web
    → AgentSkillResolveRequest
    → Dict String
    → Text
    → Bucket
    → Option AgentSkillManifest
    → Result AgentSkillError AgentSkillResolveResponse × Bucket
resolve_parsed web req index content bucket none = (err manifest_malformed, bucket)
resolve_parsed web req index content bucket (some manifest) =
    let sha = web.sha256 content in
    resolve_stored web req index content manifest bucket
      (store_skill web sha content (get bucket.skills sha) bucket)

-- The content that was fetched: the pin is looked at before the manifest is read.
abbrev pub resolve_pinned :
    Web
    → AgentSkillResolveRequest
    → Dict String
    → Text
    → Bucket
    → Option String
    → Result AgentSkillError AgentSkillResolveResponse × Bucket
resolve_pinned web req index content bucket (some expected) =
    (err (sha_mismatch expected (web.sha256 content)), bucket)
resolve_pinned web req index content bucket none =
    resolve_parsed web req index content bucket (parse_skill_md web.decoders content)

abbrev pub resolve_fetched :
    Web
    → AgentSkillResolveRequest
    → Dict String
    → Bucket
    → Option Text
    → Result AgentSkillError AgentSkillResolveResponse × Bucket
resolve_fetched web req index bucket none = (err fetch_failed, bucket)
resolve_fetched web req index bucket (some content) =
    resolve_pinned web req index content bucket (mismatch req.expected_sha256 (web.sha256 content))

abbrev pub resolve_found :
    Web
    → AgentSkillResolveRequest
    → Dict String
    → Bucket
    → Option (String × Text)
    → Result AgentSkillError AgentSkillResolveResponse × Bucket
resolve_found web req index bucket none = resolve_fetched web req index bucket (web.get_uri req.uri)
resolve_found web req index bucket (some (sha, content)) =
    (answer_cached req sha content (parse_skill_md web.decoders content), bucket)

abbrev pub cache_entry : String → Text → Option (String × Text)
cache_entry sha content = some (sha, content)

-- The entry of the cache, if the index and the bucket have one.
unfoldable pub lookup : Web → AgentSkillResolveRequest → Bucket → Option (String × Text)
unfolding load_index
lookup web req bucket = do
  sha ← if req.force_refresh then none else nonempty_string (get (load_index web bucket) req.uri)
  content ← nonempty_bytes (get bucket.skills sha)
  cache_entry sha content

unfoldable pub resolve :
    Web
    → AgentSkillResolveRequest
    → Bucket
    → Result AgentSkillError AgentSkillResolveResponse × Bucket
unfolding load_index save_index lookup mismatch parse_skill_md
resolve web req bucket =
    resolve_found web req (load_index web bucket) bucket (lookup web req bucket)
