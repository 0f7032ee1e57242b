-- ===== src/Egress/Domains.antt =====
-- runner_api/src/sandbox/network_policy.py: the domains that a skill's `allowed-tools` ask for. The
-- regular expression is written as the scan that it stands for; `lower` is `str.lower`.
use gigaevo_platform.Prelude.{
  ℕ, ◌+◌, ◌≡◌, refl, Bool, true, false, not, ◌&&◌, ◌||◌, Option, none, some, List, [], ◌∷◌, ◌++◌,
  ltb, leb, if◌then◌else◌, ◌>>=◌, length,
}
use gigaevo_platform.Prelude.Eq.{◌==◌, string_eq, nat_eq, contains}
use gigaevo_platform.Prelude.Text.{Text, codes, is_space, lstrip, strip, text_eq, all_chars}
use gigaevo_platform.Egress.AllowList.{is_host_char, is_empty}

-- One character of the expression against one of the text, under `re.IGNORECASE`, for the letters of
-- `WebFetch` and `domain`: of these only `i` has a partner outside ASCII, the dotted and the dotless.
abbrev same_letter : ℕ → ℕ → Bool
same_letter p c =
    p == c
    || leb b'A' c && leb c b'Z' && p == c + 32
    || leb b'A' p && leb p b'Z' && c == p + 32
    || p == b'i' && (c == 304 || c == 305)

-- A word of the expression: what follows it in the text.
abbrev skip : Text → Text → Option Text
skip [] s = some s
skip (p ∷ word) [] = none
skip (p ∷ word) (c ∷ s) = elim (same_letter p c) [ true ↦ skip word s | false ↦ none ]

-- The class `[^)\s,]`
abbrev is_domain_char : ℕ → Bool
is_domain_char c = not (c == b')' || is_space c || c == b',')

-- `[^)\s,]*`, as what it takes and what it leaves.
abbrev span_domain : Text → Text × Text
span_domain [] = ([], [])
span_domain (c ∷ s) =
    let (host, rest) = span_domain s in if is_domain_char c then (c ∷ host, rest) else ([], c ∷ s)

-- `\s*\)\s*$`
abbrev closes : Text → Bool
closes s = elim (skip (codes ")") (lstrip s)) [ none ↦ false | some rest ↦ is_empty (lstrip rest) ]

abbrev domain_of : Text → Option Text
domain_of s =
    let (host, rest) = span_domain s in
    if is_empty host then none else if closes rest then some host else none

-- `_WEBFETCH_RE.match(entry)`: the group `host`
unfoldable pub web_fetch : Text → Option Text
unfolding lstrip
web_fetch entry = do
  inside ← skip (codes "WebFetch(") entry
  after ← skip (codes "domain") (lstrip inside)
  host ← skip (codes ":") (lstrip after)
  domain_of (lstrip host)

-- `_is_valid_host`
unfoldable pub is_valid_host : Text → Bool
is_valid_host host =
    if is_empty host || ltb 253 (length host)
    then false
    else if host == codes "*" || host == codes "."
    then false
    else all_chars is_host_char host

-- The end of the loop's body: a host is added when it is valid and new.
unfoldable pub add_domain : Text → List Text → List Text
unfolding is_valid_host
add_domain host seen =
    if not (is_valid_host host)
    then seen
    else if contains host seen
    then seen
    else seen ++ (host ∷ [])

module _ (lower : Text → Text) where
  -- One entry of `allowed-tools`; one that is no `WebFetch` is skipped.
  abbrev pub add_match : Option Text → List Text → List Text
  add_match none seen = seen
  add_match (some raw) seen = add_domain (lower (strip raw)) seen

  -- The loop over the entries, with the hosts seen so far in order.
  unfoldable pub extract : List Text → List Text → List Text
  unfolding web_fetch
  extract [] seen = seen
  extract (entry ∷ tools) seen = extract tools (add_match (web_fetch (strip entry)) seen)

  unfoldable pub extract_allowed_domains : List Text → List Text
  unfolding extract
  extract_allowed_domains tools = extract tools []

web_fetch_runs : web_fetch (codes "webfetch( domain : *.Adobe.com )") ≡ some (codes "*.Adobe.com")
unfolding web_fetch
web_fetch_runs = refl

web_fetch_refuses : web_fetch (codes "WebFetch(domain:rm -rf /)") ≡ none
unfolding web_fetch
web_fetch_refuses = refl
