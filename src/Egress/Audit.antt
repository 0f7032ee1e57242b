-- ===== src/Egress/Audit.antt =====
-- What EgressProxy of runner_api/src/sandbox/egress_proxy.py lets out, and what it counts.
use gigaevo_platform.Prelude.{
  ℕ, ◌+◌, ◌≤◌, ◌≡◌, refl, sym, ap, ◌∙◌, inl, inr, true, List, [], ◌∷◌, ◌++◌, arith, Bool-cases,
  length, All, All-mono, All-append, Any, and_left, and_right, if◌then◌else◌,
}
use gigaevo_platform.Prelude.Eq.{string_eq, nat_eq, contains, ◌==◌}
use gigaevo_platform.Prelude.Text.{Text}
use gigaevo_platform.Prelude.Result.{Result, ok, err, bind-ok}
use gigaevo_platform.Egress.AllowList.{AllowList, allow_list, allows, normalise}
use gigaevo_platform.Egress.Matching.{Permits, host_matches_iff, allow_list-ports}
use gigaevo_platform.Egress.Connect.{
  ConnectError, parse_connect_line, parse_connect_line-port, read_until_double_crlf,
}
use gigaevo_platform.Egress.Proxy.{
  Arrival, timed_out, reset, arrived, Dial, connected, unreachable, raised, Action, respond,
  open_connection, splice, EgressProxy, request_line, connect, handle_request, handle_preamble,
  handle, serve, start,
}

-- The connections whose bytes were copied, and those that were answered with another status than 200.
abbrev pub splices : List Action → ℕ
splices [] = 0
splices (splice host port ∷ actions) = splices actions + 1
splices (respond status ∷ actions) = splices actions
splices (open_connection host port ∷ actions) = splices actions

abbrev pub refusals : List Action → ℕ
refusals [] = 0
refusals (respond status ∷ actions) =
    let rest = refusals actions in if status == 200 then rest else rest + 1
refusals (open_connection host port ∷ actions) = refusals actions
refusals (splice host port ∷ actions) = refusals actions

-- What one action must keep to: it dials what the list allows, and a port of the allowed range.
abbrev pub IsAllowed : (Text → Text) → AllowList → Action → Type 0
IsAllowed lower a (respond status) = Unit
IsAllowed lower a (open_connection host port) =
    (allows lower a host port ≡ true) × (1 ≤ port) × (port ≤ 65535)
IsAllowed lower a (splice host port) =
    (allows lower a host port ≡ true) × (1 ≤ port) × (port ≤ 65535)

splices-append : (xs ys : List Action) → splices (xs ++ ys) ≡ splices xs + splices ys
splices-append [] ys = omega arith
splices-append (respond status ∷ xs) ys = splices-append xs ys
splices-append (open_connection host port ∷ xs) ys = splices-append xs ys
splices-append (splice host port ∷ xs) ys = omega (arith, splices-append xs ys)

refusals-append : (xs ys : List Action) → refusals (xs ++ ys) ≡ refusals xs + refusals ys
refusals-append [] ys = omega arith
refusals-append (respond status ∷ xs) ys = ground (arith, refusals-append xs ys)
refusals-append (open_connection host port ∷ xs) ys = refusals-append xs ys
refusals-append (splice host port ∷ xs) ys = refusals-append xs ys

-- One connection: the list stays, the counters are what was done, and that is one thing at most.
abbrev Counted : EgressProxy → EgressProxy × List Action → Type 0
Counted p (q, actions) =
    (q.allowlist ≡ p.allowlist)
    × (q.allowed_count ≡ p.allowed_count + splices actions)
    × (q.denied_count ≡ p.denied_count + refusals actions)
    × (splices actions + refusals actions ≤ 1)

connect-Counted :
    (d : Dial) (host : Text) (port : ℕ) (p : EgressProxy) → Counted p (connect d host port p)
connect-Counted connected host port p = (refl, omega arith, omega arith, omega arith)
connect-Counted unreachable host port p = (refl, omega arith, omega arith, omega arith)
connect-Counted raised host port p = (refl, omega arith, omega arith, omega arith)

module _ (lower : Text → Text) (dial : Text → ℕ → Dial) where
  handle_request-Counted :
      (r : Result ConnectError (Text × ℕ)) (p : EgressProxy)
      → Counted p (handle_request lower dial r p)
  unfolding handle_request
  handle_request-Counted (err e) p = (refl, omega arith, omega arith, omega arith)
  handle_request-Counted (ok (host, port)) p =
      elim (Bool-cases (allows lower p.allowlist host port)) [
        | inl e ↦ rw e (connect-Counted (dial host port) host port p)
        | inr e ↦ rw e (refl, omega arith, omega arith, omega arith)
      ]

  handle_preamble-Counted :
      (r : Result ConnectError Text) (p : EgressProxy) → Counted p (handle_preamble lower dial r p)
  unfolding handle_preamble
  handle_preamble-Counted (err e) p = (refl, omega arith, omega arith, omega arith)
  handle_preamble-Counted (ok preamble) p =
      handle_request-Counted (parse_connect_line (request_line preamble)) p

  handle-Counted : (a : Arrival) (p : EgressProxy) → Counted p (handle lower dial a p)
  unfolding handle
  handle-Counted timed_out p = (refl, omega arith, omega arith, omega arith)
  handle-Counted reset p = (refl, omega arith, omega arith, omega arith)
  handle-Counted (arrived chunks) p = handle_preamble-Counted (read_until_double_crlf [] chunks) p

  -- Over any number of connections the allowlist stays as it is, the counter of the allowed grows
  -- by the connections whose bytes were copied, and the counter of the denied by the answers of
  -- another status than 200; together they grow by no more than the number of connections.
  pub serve-counts :
      (arrivals : List Arrival) (p : EgressProxy)
      → let (q, actions) = serve lower dial arrivals p in
        (q.allowlist ≡ p.allowlist)
        × (q.allowed_count ≡ p.allowed_count + splices actions)
        × (q.denied_count ≡ p.denied_count + refusals actions)
        × (splices actions + refusals actions ≤ length arrivals)
  unfolding serve
  serve-counts [] p = (refl, omega arith, omega arith, omega arith)
  serve-counts (a ∷ arrivals) p =
      let (q, actions) = handle lower dial a p in
      let (r, more) = serve lower dial arrivals q in
      let one = handle-Counted a p in
      let rest = serve-counts arrivals q in
      let spliced = splices-append actions more in
      let refused = refusals-append actions more in
      (
        rest.0 ∙ one.0,
        omega (arith, one.1, rest.1, spliced),
        omega (arith, one.2, rest.2, refused),
        omega (arith, one.3, rest.3, spliced, refused),
      )

  -- What one connection does keeps to the list.
  connect-IsAllowed :
      (a : AllowList) (d : Dial) (host : Text) (port : ℕ) (p : EgressProxy)
      → (allows lower a host port ≡ true) × (1 ≤ port) × (port ≤ 65535)
      → All (IsAllowed lower a) (connect d host port p).1
  connect-IsAllowed a connected host port p h = (h, (tt, (h, tt)))
  connect-IsAllowed a unreachable host port p h = (h, (tt, tt))
  connect-IsAllowed a raised host port p h = (h, tt)

  handle_request-IsAllowed :
      (r : Result ConnectError (Text × ℕ)) (p : EgressProxy)
      → ((host : Text) (port : ℕ) → r ≡ ok (host, port) → (1 ≤ port) × (port ≤ 65535))
      → All (IsAllowed lower p.allowlist) (handle_request lower dial r p).1
  unfolding handle_request
  handle_request-IsAllowed (err e) p range = (tt, tt)
  handle_request-IsAllowed (ok (host, port)) p range =
      elim (Bool-cases (allows lower p.allowlist host port)) [
        | inl e ↦ rw e (
            connect-IsAllowed p.allowlist (dial host port) host port p
              (e, (range host port refl).0, (range host port refl).1))
        | inr e ↦ rw e (tt, tt)
      ]

  handle_preamble-IsAllowed :
      (r : Result ConnectError Text) (p : EgressProxy)
      → All (IsAllowed lower p.allowlist) (handle_preamble lower dial r p).1
  unfolding handle_preamble
  handle_preamble-IsAllowed (err e) p = (tt, tt)
  handle_preamble-IsAllowed (ok preamble) p =
      handle_request-IsAllowed (parse_connect_line (request_line preamble)) p (λ host port e.
        let range = parse_connect_line-port (request_line preamble) host port e in
        (range.0, range.1))

  handle-IsAllowed :
      (a : Arrival) (p : EgressProxy) → All (IsAllowed lower p.allowlist) (handle lower dial a p).1
  unfolding handle
  handle-IsAllowed timed_out p = (tt, tt)
  handle-IsAllowed reset p = tt
  handle-IsAllowed (arrived chunks) p =
      handle_preamble-IsAllowed (read_until_double_crlf [] chunks) p

  serve-IsAllowed :
      (arrivals : List Arrival) (p : EgressProxy)
      → All (IsAllowed lower p.allowlist) (serve lower dial arrivals p).1
  unfolding serve
  serve-IsAllowed [] p = tt
  serve-IsAllowed (a ∷ arrivals) p =
      let (q, actions) = handle lower dial a p in
      let rest = serve-IsAllowed arrivals q in
      All-append (IsAllowed lower p.allowlist) actions (serve lower dial arrivals q).1
        (handle-IsAllowed a p) (rw (handle-Counted a p).0 at rest)

-- One action of a proxy that was started with these domains and ports: an upstream has one of the
-- ports, in the range of ports, and one of the domains permits its host.
abbrev pub IsPermitted : (Text → Text) → List Text → List ℕ → Action → Type 0
IsPermitted lower domains ports (respond status) = Unit
IsPermitted lower domains ports (open_connection host port) =
    (contains port ports ≡ true)
    × (1 ≤ port)
    × (port ≤ 65535)
    × Any (λ raw. Permits (normalise lower raw) (normalise lower host)) domains
IsPermitted lower domains ports (splice host port) =
    (contains port ports ≡ true)
    × (1 ≤ port)
    × (port ≤ 65535)
    × Any (λ raw. Permits (normalise lower raw) (normalise lower host)) domains

module _ (lower : Text → Text) where
  allows-permitted :
      (domains : List Text) (ports : List ℕ) (a : AllowList) (host : Text) (port : ℕ)
      → allow_list lower domains ports ≡ ok a
      → allows lower a host port ≡ true
      → (contains port ports ≡ true)
        × Any (λ raw. Permits (normalise lower raw) (normalise lower host)) domains
  unfolding allows
  allows-permitted domains ports a host port h k = (
    ap (λ known. contains port known) (sym (allow_list-ports lower domains ports a h))
        ∙ and_left _ _ k,
    ((host_matches_iff lower domains ports a host h).0 (and_right (contains port a.ports) _ k)).1,
  )

  IsAllowed-IsPermitted :
      (domains : List Text) (ports : List ℕ) (a : AllowList) (action : Action)
      → allow_list lower domains ports ≡ ok a
      → IsAllowed lower a action
      → IsPermitted lower domains ports action
  IsAllowed-IsPermitted domains ports a (respond status) h k = tt
  IsAllowed-IsPermitted domains ports a (open_connection host port) h (k, low, high) =
      let (listed, entry) = allows-permitted domains ports a host port h k in
      (listed, low, high, entry)
  IsAllowed-IsPermitted domains ports a (splice host port) h (k, low, high) =
      let (listed, entry) = allows-permitted domains ports a host port h k in
      (listed, low, high, entry)

  -- Whatever bytes arrive on however many connections, a proxy that was started with some domains
  -- and ports opens connections only to one of the ports, between 1 and 65535, of a host that one
  -- of the domains permits, and copies bytes only to and from those.
  pub serve-IsPermitted :
      (dial : Text → ℕ → Dial) (domains : List Text) (ports : List ℕ) (p : EgressProxy)
      (arrivals : List Arrival)
      → start lower domains ports ≡ ok p
      → All (IsPermitted lower domains ports) (serve lower dial arrivals p).1
  unfolding start
  serve-IsPermitted dial domains ports p arrivals h =
      let (a, made, rest) = bind-ok (allow_list lower domains ports) _ h in
      let same : a ≡ p.allowlist = cc in
      All-mono (IsAllowed lower p.allowlist) (IsPermitted lower domains ports)
        (serve lower dial arrivals p).1
        (λ action. IsAllowed-IsPermitted domains ports p.allowlist action (made ∙ ap ok same))
        (serve-IsAllowed lower dial arrivals p)
