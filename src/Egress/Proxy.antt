-- ===== src/Egress/Proxy.antt =====
-- `EgressProxy` of runner_api/src/sandbox/egress_proxy.py: `start` and `_handle`. What the proxy does
-- to the world is a list of actions; what arrives, and what becomes of a call to an upstream, is given.
use gigaevo_platform.Prelude.{ℕ, ◌+◌, List, [], ◌∷◌, ◌++◌, if◌then◌else◌}
use gigaevo_platform.Prelude.Eq.{string_eq, nat_eq}
use gigaevo_platform.Prelude.Text.{Text, starts_with}
use gigaevo_platform.Prelude.Result.{Result, ok, err, ◌>>=◌}
use gigaevo_platform.Egress.AllowList.{AllowList, Refusal, allow_list, allows}
use gigaevo_platform.Egress.Connect.{ConnectError, parse_connect_line, read_until_double_crlf, crlf}

-- What a connection's first ten seconds bring: nothing that ends, these chunks, or an error of the
-- connection, which no handler catches.
pub data Arrival : Type 0 where
  timed_out reset : Arrival
  arrived : List Text → Arrival

-- What a call to an upstream comes to: a connection, an OSError or a timeout, or an exception that no
-- handler catches, as for a host with an empty label.
pub data Dial : Type 0 where
  connected unreachable raised : Dial

-- A status line to the client, a connection to an upstream, and the copying in both directions.
pub data Action : Type 0 where
  respond : ℕ → Action
  open_connection : Text → ℕ → Action
  splice : Text → ℕ → Action

pub record EgressProxy : Type 0 where
  pub allowlist : AllowList
  pub allowed_count : ℕ
  pub denied_count : ℕ

-- `preamble.partition(b"\r\n")[0]`
unfoldable pub request_line : Text → Text
request_line [] = []
request_line (c ∷ s) =
    let rest = request_line s in if starts_with (c ∷ s) crlf then [] else c ∷ rest

-- `_respond` and the counter of the denied.
abbrev deny : ℕ → EgressProxy → EgressProxy × List Action
deny status p = (record p { denied_count = p.denied_count + 1 }, respond status ∷ [])

abbrev pub connect : Dial → Text → ℕ → EgressProxy → EgressProxy × List Action
connect unreachable host port p =
    (record p { denied_count = p.denied_count + 1 }, open_connection host port ∷ respond 502 ∷ [])
connect raised host port p = (p, open_connection host port ∷ [])
connect connected host port p = (
  record p { allowed_count = p.allowed_count + 1 },
  open_connection host port ∷ respond 200 ∷ splice host port ∷ [],
)

module _ (lower : Text → Text) (dial : Text → ℕ → Dial) where
  -- From the parsed request line on.
  unfoldable pub handle_request :
      Result ConnectError (Text × ℕ) → EgressProxy → EgressProxy × List Action
  unfolding allows
  handle_request (err e) p = deny 405 p
  handle_request (ok (host, port)) p =
      if allows lower p.allowlist host port
      then connect (dial host port) host port p
      else deny 403 p

  -- From the preamble on.
  unfoldable pub handle_preamble :
      Result ConnectError Text → EgressProxy → EgressProxy × List Action
  unfolding handle_request
  handle_preamble (err e) p = deny 400 p
  handle_preamble (ok preamble) p = handle_request (parse_connect_line (request_line preamble)) p

  -- `_handle`
  unfoldable pub handle : Arrival → EgressProxy → EgressProxy × List Action
  unfolding handle_preamble
  handle timed_out p = deny 408 p
  handle reset p = (p, [])
  handle (arrived chunks) p = handle_preamble (read_until_double_crlf [] chunks) p

  -- One connection after the other.
  unfoldable pub serve : List Arrival → EgressProxy → EgressProxy × List Action
  serve [] p = (p, [])
  serve (a ∷ arrivals) p =
      let (q, actions) = handle a p in let (r, more) = serve arrivals q in (r, actions ++ more)

-- `start`
unfoldable pub start : (Text → Text) → List Text → List ℕ → Result Refusal EgressProxy
start lower domains ports = do
  a ← allow_list lower domains ports
  ok (record { allowlist = a; allowed_count = 0; denied_count = 0 })
