-- ===== src/Formats.antt =====
-- The text forms that the services write to Redis: JSON values, date-times, floats and UUIDs.
-- They are the standard library's, and enter as an interface: what is printed reads back.
pub mod Plain
use gigaevo_platform.Prelude.{ℕ, String, ◌≡◌, ◌≢◌, Bool, Option, some}

-- What `json.loads` gives: an error, `null`, an object, or a value of another kind.
pub data Loaded (Json : Type 0) : Type 0 where
  invalid null other : Loaded Json
  object : Json → Loaded Json

pub record Formats : Type 1 where
  -- A JSON object, the only kind of value that the services dump.
  pub Json : Type 0
  pub empty_json : Json
  pub dumps : Json → String
  pub loads : String → Loaded Json
  pub loads-dumps : (j : Json) → loads (dumps j) ≡ Loaded.object j
  pub loads_null : loads "null" ≡ Loaded.null
  pub loads_braces : loads "{}" ≡ Loaded.object empty_json
  pub dumps-ne-empty : (j : Json) → dumps j ≢ ""
  -- `datetime`; `with_utc` is `replace(tzinfo=timezone.utc)`.
  pub Time : Type 0
  pub isoformat : Time → String
  pub fromisoformat : String → Option Time
  pub is_naive : Time → Bool
  pub with_utc : Time → Time
  pub fromisoformat-isoformat : (t : Time) → fromisoformat (isoformat t) ≡ some t
  pub isoformat-ne-empty : (t : Time) → isoformat t ≢ ""
  -- `float`, as far as it is stored and read.
  pub Float : Type 0
  pub zero_float : Float
  pub hundred : Float
  pub str_float : Float → String
  pub parse_float : String → Option Float
  pub parse_float-str_float : (x : Float) → parse_float (str_float x) ≡ some x
  -- `uuid.UUID`
  pub Uuid : Type 0
  pub str_uuid : Uuid → String
  pub parse_uuid : String → Option Uuid
  pub parse_uuid-str_uuid : (u : Uuid) → parse_uuid (str_uuid u) ≡ some u
  -- `{name: text}`, `str.lower`, and the printed form of a number and of an enumeration's member.
  pub text_json : String → String → Json
  pub lower : String → String
  pub str_nat : ℕ → String
  pub str_type : String → String
