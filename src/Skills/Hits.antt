-- ===== src/Skills/Hits.antt =====
-- A request to the resolver that comes again after its skill was stored.
use gigaevo_platform.Prelude.{
  String, ◌≡◌, refl, sym, ap, ◌∙◌, true, false, Option, none, some, [], ◌∷◌, eq_iff, if◌then◌else◌,
  get_or,
}
use gigaevo_platform.Prelude.Eq.{◌==◌, string_eq, nat_eq, beq_refl}
use gigaevo_platform.Prelude.Dict.{Dict, get, put, get-put}
use mathlib.Core.Path.{subst}
use gigaevo_platform.Prelude.{if-elim}
use gigaevo_platform.Prelude.Text.{Text}
use gigaevo_platform.Prelude.Result.{Result, ok, err}
use gigaevo_platform.SkillManifest.{AgentSkillManifest, parse_skill_md}
use gigaevo_platform.Skills.{
  Bucket, Web, AgentSkillError, AgentSkillResolveRequest, AgentSkillResolveResponse, read_index,
  load_index, save_index, nonempty_bytes, mismatch, response, is_entry, record_uri, store_skill,
  resolve_stored, resolve_parsed, resolve_pinned, resolve_fetched, resolve_found, lookup, resolve,
}
use gigaevo_platform.Skills.Cache.{record_uri-skills}

-- An index that reads back as it is written, and is not empty then.
abbrev pub ReadsBack : Web → Dict String → Type 0
ReadsBack web d =
    (web.load_json (web.dump_index d) ≡ some d)
    × (nonempty_bytes (some (web.dump_index d)) ≡ some (web.dump_index d))

abbrev pub unforced : AgentSkillResolveRequest → AgentSkillResolveRequest
unforced req = record req { force_refresh = false }

abbrev pub as_cached : AgentSkillResolveResponse → AgentSkillResolveResponse
as_cached r = record r { cached = true }

is_entry_eq : (sha : String) (o : Option String) → is_entry sha o ≡ true → o ≡ some sha
is_entry_eq sha none h = cc
is_entry_eq sha (some s) h = ap some ((eq_iff s sha).0 h)

read_index-dump :
    (web : Web) (d : Dict String) (raw : Text)
    → web.load_json raw ≡ some d
    → nonempty_bytes (some raw) ≡ some raw
    → read_index web (some raw) ≡ d
read_index-dump web d [] h k = cc
read_index-dump web d (c ∷ raw) h k = ap (λ o. get_or o []) h

-- After a success, the same request is answered alike from the cache, and changes nothing.
abbrev pub IsHit :
    Web
    → AgentSkillResolveRequest
    → Result AgentSkillError AgentSkillResolveResponse × Bucket
    → Type 0
IsHit web req (err e, after) = Unit
IsHit web req (ok r, after) = resolve web (unforced req) after ≡ (ok (as_cached r), after)

module _ (web : Web) (req : AgentSkillResolveRequest) (writes : web.can_upload_index ≡ true) where
  get-record_uri :
      (sha : String) (bucket : Bucket)
      → ReadsBack web (put (load_index web bucket) req.uri sha)
      → get (load_index web (record_uri web req.uri sha (load_index web bucket) bucket)) req.uri
        ≡ some sha
  unfolding load_index save_index
  get-record_uri sha bucket codec =
      let index = load_index web bucket in
      let saved : Bucket = record bucket {
        index_object = some (web.dump_index (put index req.uri sha));
      } in
      if-elim {A = Bucket} (λ b. get (load_index web b) req.uri ≡ some sha)
        (is_entry sha (get index req.uri)) bucket (save_index web (put index req.uri sha) bucket)
        (λ b. is_entry_eq sha (get index req.uri) b)
        (λ b.
          subst (λ c. get (load_index web (if c then saved else bucket)) req.uri ≡ some sha)
            (sym writes)
            (subst (λ d. get d req.uri ≡ some sha)
              (sym (
                read_index-dump web (put index req.uri sha) (web.dump_index (put index req.uri sha))
                  codec.0 codec.1))
              (get-put index req.uri req.uri sha ∙ rw (beq_refl req.uri))))

  module _ (content : Text) (named : (web.sha256 content == "") ≡ false)
      (filled : nonempty_bytes (some content) ≡ some content) where
    lookup-found :
        (after : Bucket)
        → get (load_index web after) req.uri ≡ some (web.sha256 content)
        → get after.skills (web.sha256 content) ≡ some content
        → lookup web (unforced req) after ≡ some (web.sha256 content, content)
    unfolding lookup
    lookup-found after p q = rw (p, named, q, filled)

    resolve-found :
        (after : Bucket) (manifest : AgentSkillManifest)
        → get (load_index web after) req.uri ≡ some (web.sha256 content)
        → get after.skills (web.sha256 content) ≡ some content
        → parse_skill_md web.decoders content ≡ some manifest
        → mismatch req.expected_sha256 (web.sha256 content) ≡ none
        → resolve web (unforced req) after
          ≡ (ok (response req (web.sha256 content) content true manifest), after)
    unfolding resolve
    resolve-found after manifest p q m pin = rw (lookup-found after p q, m, pin)

    resolve_stored-IsHit :
        (bucket : Bucket) (manifest : AgentSkillManifest)
        → ReadsBack web (put (load_index web bucket) req.uri (web.sha256 content))
        → parse_skill_md web.decoders content ≡ some manifest
        → mismatch req.expected_sha256 (web.sha256 content) ≡ none
        → IsHit web req (
            resolve_stored web req
              (load_index web bucket)
              content
              manifest
              bucket
              (store_skill web (web.sha256 content) content none bucket))
    unfolding load_index
    resolve_stored-IsHit bucket manifest codec m pin =
        let sha = web.sha256 content in
        let new : Bucket = record bucket { skills = put bucket.skills sha content } in
        let there : get new.skills sha ≡ some content =
          get-put bucket.skills sha sha content ∙ rw (beq_refl sha) in
        if-elim {A = Option Bucket}
          (λ made.
            IsHit web req
              (resolve_stored web req (load_index web bucket) content manifest bucket made))
          web.can_upload_skill (some new) none
          (λ b.
            resolve-found (record_uri web req.uri sha (load_index web new) new) manifest
              (get-record_uri sha new codec)
              (ap (λ d. get d sha) (record_uri-skills web req req.uri sha (load_index web new) new)
                ∙ there)
              m pin)
          (λ b. tt)

    resolve_parsed-IsHit :
        (bucket : Bucket) (found : Option AgentSkillManifest)
        → ReadsBack web (put (load_index web bucket) req.uri (web.sha256 content))
        → get bucket.skills (web.sha256 content) ≡ none
        → parse_skill_md web.decoders content ≡ found
        → mismatch req.expected_sha256 (web.sha256 content) ≡ none
        → IsHit web req (resolve_parsed web req (load_index web bucket) content bucket found)
    resolve_parsed-IsHit bucket none codec new p pin = tt
    resolve_parsed-IsHit bucket (some manifest) codec new p pin =
        subst
          (λ o. IsHit web req (
            resolve_stored web req (load_index web bucket) content manifest bucket
              (store_skill web (web.sha256 content) content o bucket)))
          (sym new) (resolve_stored-IsHit bucket manifest codec p pin)

    pinned-IsHit :
        (bucket : Bucket) (found : Option String)
        → ReadsBack web (put (load_index web bucket) req.uri (web.sha256 content))
        → get bucket.skills (web.sha256 content) ≡ none
        → mismatch req.expected_sha256 (web.sha256 content) ≡ found
        → IsHit web req (resolve_pinned web req (load_index web bucket) content bucket found)
    pinned-IsHit bucket (some expected) codec new pin = tt
    pinned-IsHit bucket none codec new pin =
        resolve_parsed-IsHit bucket (parse_skill_md web.decoders content) codec new refl pin

    -- If the index can be written and reads back, and a request finds no entry in the cache and
    -- fetches a content that is not empty and not stored under its hash, which is not empty, then
    -- after a success the same request without a forced refresh gets the same answer from the
    -- cache, and leaves the bucket as it is.
    pub resolve-IsHit :
        (bucket : Bucket)
        → ReadsBack web (put (load_index web bucket) req.uri (web.sha256 content))
        → lookup web req bucket ≡ none
        → web.get_uri req.uri ≡ some content
        → get bucket.skills (web.sha256 content) ≡ none
        → IsHit web req (resolve web req bucket)
    unfolding resolve
    resolve-IsHit bucket codec missed fetched new =
        subst (λ o. IsHit web req (resolve_found web req (load_index web bucket) bucket o))
          (sym missed)
          (subst (λ o. IsHit web req (resolve_fetched web req (load_index web bucket) bucket o))
            (sym fetched)
            (pinned-IsHit bucket (mismatch req.expected_sha256 (web.sha256 content)) codec new
              refl))
