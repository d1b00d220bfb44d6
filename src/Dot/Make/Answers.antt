-- ===== src/Dot/Make/Answers.antt =====
-- From the constructor of a resolver to its answers, in every state that it reaches.
use Prim.Native.String.{String}
use text.Mathlib.Text.{◌==◌ as str_eq}
use localdns_go.Prelude.{
  ℕ, ◌≡◌, ◌||◌, some, List, Option, Result, ok, Bool-cases, inl, inr, Result-cases,
}
use localdns_go.Prelude.Words.{Bytes}
use localdns_go.Net.Ip.{Ip}
use localdns_go.Doh.Message.{Dns, HasHeader}
use localdns_go.Doh.Make.{Url, Made, port_or}
use localdns_go.Doh.Make.Ready.{NeverNil, IsReady, with_port-IsReady}
use localdns_go.Doh.Query.{Resolver}
use localdns_go.Dot.Framing.{DotError}
use localdns_go.Dot.Query.Ready.{ReportsNoNil}
use localdns_go.Dot.Make.Reached.{Reached, DrawsPlaces, Reached-IsReady}
use localdns_go.Dot.Make.{new_dot_resolver, dot_of_url, default_dot_port}
use localdns_go.Dot.Query.{DotEnv, DotOutcome, dot_do_query}
use localdns_go.Dot.Query.Closed.{dot_do_query_total}

pub new_dot_resolver-IsReady :
    {E : Type 0} (parse : String → Result E Url) (atoi : String → Result E ℕ)
    (resolve : String → List Ip) (raw_url : String) (addrs : List String) (made : Made)
    → NeverNil resolve
    → new_dot_resolver parse atoi resolve raw_url addrs ≡ ok made
    → IsReady made.hostname made.resolver.ips
unfolding new_dot_resolver dot_of_url
new_dot_resolver-IsReady parse atoi resolve raw_url addrs made never run =
    elim (Result-cases (parse raw_url)) [
      | inr (e, bad) ↦ cc (rw (bad, new_dot_resolver) at run)
      | inl (url, good) ↦ elim (Bool-cases (str_eq url.scheme "dot" || str_eq url.scheme "tls")) [
        | inr other ↦ cc (rw (good, new_dot_resolver, dot_of_url, other) at run)
        | inl scheme ↦ elim (Bool-cases (str_eq url.hostname "")) [
          | inl no_host ↦ cc (rw (good, new_dot_resolver, dot_of_url, scheme, no_host) at run)
          | inr host ↦
              (with_port-IsReady resolve url.hostname addrs (port_or default_dot_port atoi url.port)
                made never (rw (good, new_dot_resolver, dot_of_url, scheme, host) at run)).1
        ]
      ]
    ]

module _ {E Q H B C : Type 0} (d : Dns (DotError E) Q H B) (law : HasHeader d)
    (resolve : String → List Ip) (connect : ℕ → Ip → Result (DotError E) C)
    (remote : C → Option Ip) where
  -- A DoT resolver that `NewResolver` returned answers every query: in each state that it reaches by
  -- queries, however their dials and transfers end, and by what queries in flight do to its map and its
  -- hangover, `doQuery` does not panic on a nil connection. The system resolver and the connections
  -- report no nil address, messages have headers, and the draws are places of the host's set.
  pub new_dot_resolver-answers :
      (parse : String → Result (DotError E) Url) (atoi : String → Result (DotError E) ℕ)
      (raw_url : String) (addrs : List String) (made : Made) (r : Resolver) (v : DotEnv E)
      (q : Bytes)
      → NeverNil resolve
      → ReportsNoNil remote
      → new_dot_resolver parse atoi resolve raw_url addrs ≡ ok made
      → Reached d resolve connect remote made.hostname made.port made.resolver r
      → DrawsPlaces d resolve connect remote made.hostname made.port v r
      → (o : DotOutcome E) × (dot_do_query d resolve connect remote made.hostname made.port v q r
          ≡ some o)
  new_dot_resolver-answers parse atoi raw_url addrs made r v q never real run reached range =
      let ready =
        Reached-IsReady d resolve connect remote made.hostname made.port real
          (new_dot_resolver-IsReady parse atoi resolve raw_url addrs made never run) reached in
      dot_do_query_total d resolve connect remote made.hostname made.port v r law q ready.place
        ready.held (range ready.place ready.held) ready.some_ips ready.no_nil
