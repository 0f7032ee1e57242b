-- ===== src/Egress/AllowList.antt =====
-- `AllowList` of runner_api/src/sandbox/egress_proxy.py. Hosts are lists of code points. `lower` is
-- `str.lower`, of which the model fixes only what it does to ASCII.
use gigaevo_platform.Prelude.{
  ℕ, ◌+◌, Bool, true, false, not, ◌&&◌, ◌||◌, List, [], ◌∷◌, ltb, leb, if◌then◌else◌, length, drop,
}
use gigaevo_platform.Prelude.Eq.{◌==◌, string_eq, nat_eq, contains}
use gigaevo_platform.Prelude.Text.{Text, codes, text_eq, strip, starts_with, ends_with, all_chars}
use gigaevo_platform.Prelude.Result.{Result, ok, err, ◌>>=◌}

pub data Refusal : Type 0 where
  invalid_entry bare_wildcard invalid_wildcard : Text → Refusal
  no_port : Refusal

abbrev pub is_letter : ℕ → Bool
is_letter c = leb b'a' c && leb c b'z' || leb b'A' c && leb c b'Z'

abbrev pub is_digit : ℕ → Bool
is_digit c = leb b'0' c && leb c b'9'

-- The class `[A-Za-z0-9.\-*]`
abbrev pub is_host_char : ℕ → Bool
is_host_char c = is_letter c || is_digit c || c == b'.' || c == b'-' || c == b'*'

-- An entry of the list: a host, or the base of a wildcard.
pub data Entry : Type 0 where
  literal suffix : Text → Entry

pub record AllowList : Type 0 where
  pub literals : List Text
  pub suffixes : List Text
  pub ports : List ℕ

abbrev pub is_empty {ℓ} : {A : Type ℓ} → List A → Bool
is_empty [] = true
is_empty (x ∷ xs) = false

-- The base of a wildcard entry.
unfoldable pub classify_wildcard : Text → Text → Result Refusal Entry
classify_wildcard host base =
    if base == [] || starts_with base (codes ".")
    then err (invalid_wildcard host)
    else ok (suffix base)

-- What one normalised entry of the constructor's argument gives: the loop's body from its tests on.
unfoldable pub classify : Text → Result Refusal Entry
unfolding classify_wildcard
classify host =
    if host == [] || not (all_chars is_host_char host)
    then err (invalid_entry host)
    else if host == codes "*" || host == codes "*." || host == codes "."
    then err (bare_wildcard host)
    else if starts_with host (codes "*.")
    then classify_wildcard host (drop 2 host)
    else ok (literal host)

abbrev pub add_entry : Entry → AllowList → AllowList
add_entry (literal host) a = record a { literals = host ∷ a.literals }
add_entry (suffix base) a = record a { suffixes = base ∷ a.suffixes }

-- The loop over the wildcards.
unfoldable pub some_suffix : List Text → Text → Bool
some_suffix [] host = false
some_suffix (base ∷ bases) host =
    ends_with host (b'.' ∷ base) && ltb (length base + 1) (length host) || some_suffix bases host

module _ (lower : Text → Text) where
  -- `(raw or "").strip().lower()`
  abbrev pub normalise : Text → Text
  normalise raw = lower (strip raw)

  -- The loop over the entries: the first bad one is the exception.
  unfoldable pub add_hosts : List Text → AllowList → Result Refusal AllowList
  add_hosts [] a = ok a
  add_hosts (raw ∷ hosts) a =
      let rest = add_hosts hosts in do e ← classify (normalise raw); rest (add_entry e a)

  -- `AllowList(hosts, allowed_ports=ports)`
  unfoldable pub allow_list : List Text → List ℕ → Result Refusal AllowList
  allow_list hosts ports = do
    a ← add_hosts hosts (record { literals = []; suffixes = []; ports = ports })
    if is_empty a.ports then err no_port else ok a

  unfoldable pub host_matches : AllowList → Text → Bool
  host_matches a raw =
      let host = normalise raw in
      if host == [] then false else (contains host a.literals || some_suffix a.suffixes host)

  unfoldable pub allows : AllowList → Text → ℕ → Bool
  allows a host port = contains port a.ports && host_matches a host
