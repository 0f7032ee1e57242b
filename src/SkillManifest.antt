-- ===== src/SkillManifest.antt =====
-- master_api/src/services/agent_skill_resolver.py: the manifest that a SKILL.md begins with. Bytes and
-- characters are numbers; the decoder of UTF-8 and the reader of YAML enter as `Decoders`.
use gigaevo_platform.Prelude.{
  ℕ, Bool, true, false, ◌&&◌, Option, none, some, List, [], ◌∷◌, if◌then◌else◌, is_some, ◌>>=◌,
}
use gigaevo_platform.Prelude.Eq.{◌==◌, string_eq, nat_eq}
use gigaevo_platform.Prelude.Dict.{Dict, get}
use gigaevo_platform.Prelude.Text.{Text, strip, text_eq}

-- A value of a YAML mapping, as far as it is told apart; a list, its items,
-- and what is none of the other kinds are given by their `str`.
pub data YamlValue : Type 0 where
  null : YamlValue
  text other : Text → YamlValue
  items : Text → List Text → YamlValue

-- What `yaml.safe_load` gives: a value that counts as false, a mapping, or another value.
pub data YamlDocument : Type 0 where
  nothing not_mapping : YamlDocument
  mapping : Dict YamlValue → YamlDocument

pub record Decoders : Type 0 where
  pub decode_utf8 : Text → Option Text
  pub safe_load : Text → Option YamlDocument

pub record AgentSkillManifest : Type 0 where
  pub name : Text
  pub description : Option Text
  pub allowed_tools : List Text

abbrev is_blank : Text → Bool
is_blank [] = true
is_blank (c ∷ s) = false

abbrev nonblank : List Text → List Text
nonblank [] = []
nonblank (s ∷ rest) =
    let kept = nonblank rest in if is_blank (strip s) then kept else strip s ∷ kept

-- `s.split(",")`, as the first part and the others.
abbrev split_parts : ℕ → Text → Text × List Text
split_parts sep [] = ([], [])
split_parts sep (c ∷ s) =
    let (word, words) = split_parts sep s in
    if c == sep then ([], word ∷ words) else (c ∷ word, words)

abbrev split_at : ℕ → Text → List Text
split_at sep s = let (word, words) = split_parts sep s in word ∷ words

-- `_normalise_allowed_tools`
unfoldable pub normalise_allowed_tools : Option YamlValue → List Text
unfolding strip
normalise_allowed_tools none = []
normalise_allowed_tools (some null) = []
normalise_allowed_tools (some (items shown values)) = nonblank values
normalise_allowed_tools (some (text s)) = nonblank (split_at b',' s)
normalise_allowed_tools (some (other s)) = s ∷ []

-- `\r?\n`
abbrev after_newline : Text → Option Text
after_newline [] = none
after_newline (c ∷ []) = if c == 10 then some [] else none
after_newline (c ∷ d ∷ s) =
    if c == 10 then some (d ∷ s) else if c == 13 && d == 10 then some s else none

-- `---\r?\n`
abbrev after_fence : Text → Option Text
after_fence s = elim s [
  | [] ↦ none
  | a ∷ s1 ↦ elim s1 [
    | [] ↦ none
    | b ∷ s2 ↦ elim s2 [
      | [] ↦ none
      | c ∷ rest ↦ if a == 45 && b == 45 && c == 45 then after_newline rest else none
    ]
  ]
]

-- `\r?\n---\r?\n`, where the body ends.
abbrev closes_body : Text → Bool
closes_body s = is_some (after_newline s >>= λ rest. after_fence rest)

abbrev cons_to : ℕ → Option Text → Option Text
cons_to c none = none
cons_to c (some s) = some (c ∷ s)

unfoldable pub body_of : Text → Option Text
body_of [] = none
body_of (c ∷ s) = let rest = body_of s in if closes_body (c ∷ s) then some [] else cons_to c rest

-- An optional byte order mark.
abbrev without_bom : Text → Text
without_bom [] = []
without_bom (c ∷ s) = if c == 65279 then s else c ∷ s

-- `_FRONTMATTER_RE.match(text)`: the group `body`
unfoldable pub frontmatter : Text → Option Text
unfolding body_of
frontmatter s = after_fence (without_bom s) >>= λ rest. body_of rest

abbrev mapping_of : YamlDocument → Option (Dict YamlValue)
mapping_of nothing = some []
mapping_of not_mapping = none
mapping_of (mapping d) = some d

abbrev name_of : Option YamlValue → Option Text
name_of (some (text s)) = if is_blank (strip s) then none else some (strip s)
name_of _ = none

abbrev description_of : Option YamlValue → Option Text
description_of (some (text s)) = some (strip s)
description_of (some (other s)) = some (strip s)
description_of (some (items shown values)) = some (strip shown)
description_of _ = none

abbrev manifest_of : Dict YamlValue → Option Text → Option AgentSkillManifest
manifest_of d none = none
manifest_of d (some name) = some (record {
  name = name;
  description = description_of (get d "description");
  allowed_tools = normalise_allowed_tools (get d "allowed-tools");
})

-- `parse_skill_md`, whose errors are one.
unfoldable pub parse_skill_md : Decoders → Text → Option AgentSkillManifest
unfolding frontmatter normalise_allowed_tools strip get
parse_skill_md D content = do
  s ← D.decode_utf8 content
  body ← frontmatter s
  document ← D.safe_load body
  d ← mapping_of document
  manifest_of d (name_of (get d "name"))
