-- ===== src/Egress/Connect.antt =====
-- `_parse_connect_line` and `_read_until_double_crlf` of runner_api/src/sandbox/egress_proxy.py, over
-- lists of bytes.
use mathlib.Core.Option
use Prim.Native.Nat.{◌*◌}
use gigaevo_platform.Prelude.{
  ℕ, ◌+◌, ◌-◌, ◌≤◌, ◌≡◌, refl, ap, ◌∙◌, ◌≢◌, Bool, true, false, ◌&&◌, ◌||◌, Option, none, some,
  List, [], ◌∷◌, ◌++◌, map, arith, ltb, leb, if◌then◌else◌, length, keep,
}
use gigaevo_platform.Prelude.Eq.{◌==◌, string_eq, nat_eq}
use gigaevo_platform.Prelude.Text.{
  Text, codes, text_beq, text_eq, is_space, starts_with, all_chars, rpartition, split,
}
use gigaevo_platform.Prelude.Result.{Result, ok, err, bind-ok, ◌>>=◌}
use gigaevo_platform.Egress.AllowList.{is_digit}

pub data ConnectError : Type 0 where
  not_ascii not_connect no_colon empty_host bad_port port_range too_long : ConnectError

abbrev ascii_lower : ℕ → ℕ
ascii_lower c = if leb b'A' c && leb c b'Z' then c + 32 else c

abbrev ascii_upper : ℕ → ℕ
ascii_upper c = if leb b'a' c && leb c b'z' then c - 32 else c

-- Digits with single underscores between them; the flag says whether the last character was a digit.
unfoldable pub digits : ℕ → Bool → Text → Option ℕ
digits acc true [] = some acc
digits acc false [] = none
digits acc last (c ∷ s) =
    let more = digits (acc * 10 + (c - 48)) true s in
    let gap = digits acc false s in
    if is_digit c then more else if c == b'_' && last then gap else none

-- `int(text)` of a text with no space in it, which the interpreter refuses past 4300 digits. A
-- negative number counts as 0, as both lie below every port.
unfoldable pub parse_int : Text → Option ℕ
unfolding digits
parse_int [] = none
parse_int (c ∷ s) =
    if ltb 4300 (length (keep is_digit (c ∷ s)))
    then none
    else if c == b'+'
    then digits 0 false s
    else if c == b'-'
    then Option.map (λ n. 0) (digits 0 false s)
    else digits 0 false (c ∷ s)

-- The port of a target, after its last colon.
unfoldable pub parse_port : Text → Result ConnectError ℕ
unfolding parse_int
parse_port text = elim (parse_int text) [
  | none ↦ err bad_port
  | some port ↦ if leb 1 port && leb port 65535 then ok port else err port_range
]

-- The target of a request, split at its last colon.
abbrev parse_host_port : Option (Text × Text) → Result ConnectError (Text × ℕ)
parse_host_port none = err no_colon
parse_host_port (some ([], port_text)) = err empty_host
parse_host_port (some (c ∷ host, port_text)) = do
  port ← parse_port port_text
  ok (map ascii_lower (c ∷ host), port)

unfoldable pub parse_target : Text → Result ConnectError (Text × ℕ)
unfolding parse_port
parse_target target = parse_host_port (rpartition b':' target)

abbrev parse_parts : List Text → Result ConnectError (Text × ℕ)
parse_parts (method ∷ target ∷ rest) =
    if map ascii_upper method == codes "CONNECT" then parse_target target else err not_connect
parse_parts _ = err not_connect

unfoldable pub parse_connect_line : Text → Result ConnectError (Text × ℕ)
unfolding parse_target
parse_connect_line line =
    if all_chars (λ c. ltb c 128) line then parse_parts (split is_space line) else err not_ascii

parse_port-range :
    (text : Text) (port : ℕ) → parse_port text ≡ ok port → (1 ≤ port) × (port ≤ 65535)
unfolding parse_port
parse_port-range text port h = ground arith

parse_host_port-ok :
    (split : Option (Text × Text)) (host : Text) (port : ℕ)
    → parse_host_port split ≡ ok (host, port)
    → (1 ≤ port) × (port ≤ 65535) × (host ≢ [])
parse_host_port-ok none host port h = cc
parse_host_port-ok (some ([], port_text)) host port h = cc
parse_host_port-ok (some (c ∷ s, port_text)) host port h =
    let (p, parsed, rest) = bind-ok (parse_port port_text) _ h in
    let same : p ≡ port = cc in
    let range = parse_port-range port_text port (parsed ∙ ap ok same) in (range.0, range.1, λ e. cc)

parse_parts-ok :
    (parts : List Text) (host : Text) (port : ℕ)
    → parse_parts parts ≡ ok (host, port)
    → (1 ≤ port) × (port ≤ 65535) × (host ≢ [])
unfolding parse_target
parse_parts-ok [] host port h = cc
parse_parts-ok (method ∷ []) host port h = cc
parse_parts-ok (method ∷ target ∷ rest) host port h =
    ground (arith, parse_host_port-ok (rpartition b':' target) host port)

-- Every line that is accepted names a port between 1 and 65535 and a host that is not empty.
pub parse_connect_line-port :
    (line host : Text) (port : ℕ)
    → parse_connect_line line ≡ ok (host, port)
    → (1 ≤ port) × (port ≤ 65535) × (host ≢ [])
unfolding parse_connect_line
parse_connect_line-port line host port h =
    ground (arith, parse_parts-ok (split is_space line) host port)

abbrev pub crlf : Text
crlf = 13 ∷ 10 ∷ []

-- `t in s`
unfoldable pub has_infix : Text → Text → Bool
has_infix [] t = text_beq [] t
has_infix (c ∷ s) t = starts_with (c ∷ s) t || has_infix s t

abbrev pub max_preamble : ℕ
max_preamble = 8192

-- The loop over the chunks that arrive; an empty chunk is the end of the stream.
unfoldable pub read_until_double_crlf : Text → List Text → Result ConnectError Text
read_until_double_crlf seen [] = ok seen
read_until_double_crlf seen ([] ∷ chunks) = ok seen
read_until_double_crlf seen ((c ∷ chunk) ∷ chunks) =
    let longer = seen ++ (c ∷ chunk) in
    let rest = read_until_double_crlf longer chunks in
    if has_infix seen (crlf ++ crlf)
    then ok seen
    else if ltb max_preamble (length longer)
    then err too_long
    else rest

-- From at most 8192 bytes on, whatever chunks arrive, a preamble that is accepted has at most 8192
-- bytes.
pub read_until_double_crlf-length :
    (seen : Text) (chunks : List Text) (preamble : Text)
    → length seen ≤ max_preamble
    → read_until_double_crlf seen chunks ≡ ok preamble
    → length preamble ≤ max_preamble
unfolding read_until_double_crlf
read_until_double_crlf-length seen [] preamble fits h = ground arith
read_until_double_crlf-length seen ([] ∷ chunks) preamble fits h = ground arith
read_until_double_crlf-length seen ((c ∷ chunk) ∷ chunks) preamble fits h =
    ground (arith, read_until_double_crlf-length (seen ++ (c ∷ chunk)) chunks preamble)

connect_runs :
    parse_connect_line (codes "CONNECT Example.com:443 HTTP/1.1") ≡ ok (codes "example.com", 443)
unfolding parse_connect_line split
connect_runs = refl
