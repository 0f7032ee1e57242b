-- ===== src/Formats/Plain.antt =====
-- Text forms that meet the interface: an object is a brace and a text, a date-time a mark and a text.
use Prim.Native.Char.{Char, code}
use mathlib.Core.Bool.{false≢true}
use gigaevo_platform.Prelude.{
  String, append_text, ◌≡◌, refl, ap, ◌≢◌, Bool, true, false, Option, none, some, if◌then◌else◌,
}
use gigaevo_platform.Prelude.Eq.{◌==◌, string_eq, nat_eq}
use gigaevo_platform.Formats.{Formats, Loaded}

pub record Stamp : Type 0 where
  pub text : String
  pub naive : Bool

abbrev pub load_text : String → Loaded String
load_text String.[] = Loaded.invalid
load_text (String.◌∷◌ c s) =
    if code c == b'{'
    then Loaded.object s
    else if String.◌∷◌ c s == "null"
    then Loaded.null
    else Loaded.invalid

abbrev pub dump_text : String → String
dump_text s = String.◌∷◌ "{" s

abbrev pub mark : Bool → Char
mark true = "N"
mark false = "Z"

abbrev pub stamp_text : Stamp → String
stamp_text t = String.◌∷◌ (mark t.naive) t.text

abbrev pub read_stamp : String → Option Stamp
read_stamp String.[] = none
read_stamp (String.◌∷◌ c s) = some (record { text = s; naive = code c == b'N' })

pub load-dump : (s : String) → load_text (dump_text s) ≡ Loaded.object s
load-dump s = refl

abbrev is_nil : String → Bool
is_nil String.[] = true
is_nil (String.◌∷◌ c s) = false

pub dump-ne-empty : (s : String) → dump_text s ≢ ""
dump-ne-empty s h = false≢true (ap is_nil h)

read_marked :
    (text : String) (naive : Bool)
    → read_stamp (String.◌∷◌ (mark naive) text) ≡ some (record { text = text; naive = naive })
read_marked text true = refl
read_marked text false = refl

pub read-stamp : (t : Stamp) → read_stamp (stamp_text t) ≡ some t
read-stamp t = read_marked t.text t.naive

pub stamp-ne-empty : (t : Stamp) → stamp_text t ≢ ""
stamp-ne-empty t h = false≢true (ap is_nil h)

instance abbrev pub plain : Formats
plain = record {
  Json = String;
  empty_json = "}";
  dumps = dump_text;
  loads = load_text;
  loads-dumps = load-dump;
  loads_null = refl;
  loads_braces = refl;
  dumps-ne-empty = dump-ne-empty;
  Time = Stamp;
  isoformat = stamp_text;
  fromisoformat = read_stamp;
  is_naive = λ t. t.naive;
  with_utc = λ t. record t { naive = false };
  fromisoformat-isoformat = read-stamp;
  isoformat-ne-empty = stamp-ne-empty;
  Float = String;
  zero_float = "0.0";
  hundred = "100.0";
  str_float = λ x. x;
  parse_float = λ x. some x;
  parse_float-str_float = λ x. refl;
  Uuid = String;
  str_uuid = λ u. u;
  parse_uuid = λ u. some u;
  parse_uuid-str_uuid = λ u. refl;
  text_json = λ name text. append_text name text;
  lower = λ s. s;
  str_nat = λ n. "number";
  str_type = λ s. s;
}
