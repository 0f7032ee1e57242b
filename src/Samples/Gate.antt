-- ===== src/Samples/Gate.antt =====
-- The network gate on a short allowlist; `str.lower` is the lower case of ASCII.
use gigaevo_platform.Prelude.{
  ◌+◌, ◌≤◌, ◌≡◌, refl, ◌≢◌, ◌↔◌, true, ◌&&◌, List, [], ◌∷◌, map, leb, if◌then◌else◌, All, Any, ℕ,
}
use gigaevo_platform.Prelude.Eq.{string_eq, nat_eq, contains, ◌==◌}
use gigaevo_platform.Prelude.Text.{Text, codes, strip, split, text_eq}
use gigaevo_platform.Prelude.Result.{ok}
use gigaevo_platform.Egress.AllowList.{
  AllowList, allow_list, add_hosts, classify, host_matches, normalise,
}
use gigaevo_platform.Egress.Matching.{Permits, host_matches_iff}
use gigaevo_platform.Egress.Connect.{
  has_infix, parse_connect_line, parse_connect_line-port, read_until_double_crlf,
}
use gigaevo_platform.Egress.Proxy.{
  Arrival, arrived, timed_out, reset, Dial, connected, raised, EgressProxy, serve, start,
}
use gigaevo_platform.Egress.Audit.{IsPermitted, serve-IsPermitted, serve-counts, splices, refusals}
use gigaevo_platform.Egress.Domains.{extract_allowed_domains}
use gigaevo_platform.Egress.Extraction.{Distinct, Asks, extract_allowed_domains_iff}

abbrev lower : Text → Text
lower s = map (λ c. if leb b'A' c && leb c b'Z' then c + 32 else c) s

abbrev domains : List Text
domains = codes "*.Example.com" ∷ codes "care.org" ∷ []

abbrev list : AllowList
list = record {
  literals = codes "care.org" ∷ [];
  suffixes = codes "example.com" ∷ [];
  ports = 443 ∷ [];
}

abbrev open_proxy : EgressProxy
open_proxy = record { allowlist = list; allowed_count = 0; denied_count = 0 }

list_made : allow_list lower domains (443 ∷ []) ≡ ok list
unfolding allow_list strip add_hosts classify
list_made = refl

started : start lower domains (443 ∷ []) ≡ ok open_proxy
unfolding start strip allow_list add_hosts classify
started = refl

abbrev dial : Text → ℕ → Dial
dial host port = if port == 443 then connected else raised

abbrev traffic : List Arrival
traffic = arrived (codes "CONNECT a.example.com:443 HTTP/1.1" ∷ []) ∷ timed_out ∷ reset ∷ []

serve-IsPermitted_example :
    All (IsPermitted lower domains (443 ∷ [])) (serve lower dial traffic open_proxy).1
serve-IsPermitted_example =
    serve-IsPermitted lower dial domains (443 ∷ []) open_proxy traffic started

serve-counts_example :
    let (q, actions) = serve lower dial traffic open_proxy in
    (q.allowlist ≡ list)
    × (q.allowed_count ≡ 0 + splices actions)
    × (q.denied_count ≡ 0 + refusals actions)
    × (splices actions + refusals actions ≤ 3)
serve-counts_example = serve-counts lower dial traffic open_proxy

host_matches_iff_example : (host_matches lower list (codes "a.example.com") ≡ true) ↔ (
    (normalise lower (codes "a.example.com") ≢ [])
    × Any (λ raw. Permits (normalise lower raw) (normalise lower (codes "a.example.com"))) domains)
host_matches_iff_example =
    host_matches_iff lower domains (443 ∷ []) list (codes "a.example.com") list_made

line_parsed :
    parse_connect_line (codes "CONNECT Care.org:443 HTTP/1.1") ≡ ok (codes "care.org", 443)
unfolding parse_connect_line split
line_parsed = refl

parse_connect_line-port_example : (1 ≤ 443) × (443 ≤ 65535) × (codes "care.org" ≢ [])
parse_connect_line-port_example =
    parse_connect_line-port (codes "CONNECT Care.org:443 HTTP/1.1") (codes "care.org") 443
      line_parsed

all_read : read_until_double_crlf [] (codes "CONNECT" ∷ []) ≡ ok (codes "CONNECT")
unfolding read_until_double_crlf has_infix
all_read = refl

abbrev tools : List Text
tools = codes "WebFetch(domain:*.Adobe.com)" ∷ codes "Read" ∷ []

extract_allowed_domains_iff_example :
    Distinct (extract_allowed_domains lower tools)
    × ((h : Text)
        → (contains h (extract_allowed_domains lower tools) ≡ true) ↔ Any (Asks lower h) tools)
extract_allowed_domains_iff_example = extract_allowed_domains_iff lower tools
