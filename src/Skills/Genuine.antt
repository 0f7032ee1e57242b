-- ===== src/Skills/Genuine.antt =====
-- The answers of the resolver.
use gigaevo_platform.Prelude.{
  String, ◌≡◌, refl, ap, true, Option, none, some, [], ◌∷◌, if◌then◌else◌, is_some, ◌>>=◌, get_or,
}
use gigaevo_platform.Prelude.Eq.{string_eq, nat_eq}
use gigaevo_platform.Prelude.Dict.{Dict, get}
use mathlib.Core.Path.{subst}
use gigaevo_platform.Prelude.Text.{Text}
use gigaevo_platform.Prelude.Result.{ok}
use gigaevo_platform.SkillManifest.{AgentSkillManifest, parse_skill_md}
use gigaevo_platform.Skills.{
  refuse, Bucket, Web, AgentSkillResolveRequest, load_index, nonempty_string, nonempty_bytes,
  cache_entry, mismatch, response, answer_cached, resolve_found, lookup, resolve,
}
use gigaevo_platform.Skills.Cache.{
  mismatch-Satisfies, WellHashed, IsGenuine, get-All, resolve_fetched-IsGenuine,
}

-- What the cache finds under a hash is stored there.
entry-stored :
    (skills : Dict Text) (at : String) (found : Option Text) (sha : String) (content : Text)
    → get skills at ≡ found
    → (nonempty_bytes found >>= cache_entry at) ≡ some (sha, content)
    → get skills sha ≡ some content
entry-stored skills at none sha content p h = cc
entry-stored skills at (some []) sha content p h = cc
entry-stored skills at (some (c ∷ s)) sha content p h =
    let found : String × Text = (at, c ∷ s) in
    let wanted : String × Text = (sha, content) in
    let same : found ≡ wanted = ap (λ o. get_or o found) h in
    subst (λ e. get skills e.0 ≡ some e.1) same p

index-stored :
    (skills : Dict Text) (o : Option String) (sha : String) (content : Text)
    → (o >>= λ at. nonempty_bytes (get skills at) >>= cache_entry at) ≡ some (sha, content)
    → get skills sha ≡ some content
index-stored skills none sha content h = cc
index-stored skills (some at) sha content h =
    entry-stored skills at (get skills at) sha content refl h

module _ (web : Web) (req : AgentSkillResolveRequest) where
  lookup-stored :
      (bucket : Bucket) (sha : String) (content : Text)
      → lookup web req bucket ≡ some (sha, content)
      → get bucket.skills sha ≡ some content
  unfolding lookup
  lookup-stored bucket sha content h =
      index-stored bucket.skills
        (if req.force_refresh then none else nonempty_string (get (load_index web bucket) req.uri))
        sha content h

  refuse-IsGenuine :
      (bucket : Bucket) (sha : String) (content : Text) (manifest : AgentSkillManifest)
      (found : Option String)
      → WellHashed web bucket
      → get bucket.skills sha ≡ some content
      → parse_skill_md web.decoders content ≡ some manifest
      → mismatch req.expected_sha256 sha ≡ found
      → IsGenuine web req bucket
          (refuse sha found (ok (response req sha content true manifest)), bucket)
  refuse-IsGenuine bucket sha content manifest (some expected) h p q r = refl
  refuse-IsGenuine bucket sha content manifest none h p q r = (
    h,
    mismatch-Satisfies req.expected_sha256 sha r,
    ap is_some p,
    (
      content,
      get-All (λ entry. web.sha256 entry.1 ≡ entry.0) bucket.skills sha content h p,
      q,
      refl,
    ),
  )

  answer_cached-IsGenuine :
      (bucket : Bucket) (sha : String) (content : Text) (found : Option AgentSkillManifest)
      → WellHashed web bucket
      → get bucket.skills sha ≡ some content
      → parse_skill_md web.decoders content ≡ found
      → IsGenuine web req bucket (answer_cached req sha content found, bucket)
  answer_cached-IsGenuine bucket sha content none h p q = refl
  answer_cached-IsGenuine bucket sha content (some manifest) h p q =
      refuse-IsGenuine bucket sha content manifest (mismatch req.expected_sha256 sha) h p q refl

  resolve_found-IsGenuine :
      (bucket : Bucket) (found : Option (String × Text))
      → WellHashed web bucket
      → lookup web req bucket ≡ found
      → IsGenuine web req bucket (resolve_found web req (load_index web bucket) bucket found)
  resolve_found-IsGenuine bucket none h p =
      resolve_fetched-IsGenuine web req (load_index web bucket) bucket (web.get_uri req.uri) h
  resolve_found-IsGenuine bucket (some (sha, content)) h p =
      answer_cached-IsGenuine bucket sha content (parse_skill_md web.decoders content) h
        (lookup-stored bucket sha content p) refl

  -- If every skill of the bucket is stored under the hash of its content, then an error of the
  -- resolver leaves the bucket as it was, and after a success this still holds, and the hash of the
  -- answer is the pin, if one is given that is not empty, is stored, and is that of a content whose
  -- manifest and size are in the answer.
  pub resolve-IsGenuine :
      (bucket : Bucket) → WellHashed web bucket → IsGenuine web req bucket (resolve web req bucket)
  unfolding resolve
  resolve-IsGenuine bucket h = resolve_found-IsGenuine bucket (lookup web req bucket) h refl
