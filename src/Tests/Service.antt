-- ===== src/Tests/Service.antt =====
-- Runs over the interface of resolvers, with one that echoes the query.
use Prim.Native.String.{String}
use localdns_go.Prelude.{
  ℕ, ◌+◌, ◌<◌, ◌≡◌, ◌≢◌, refl, Option, none, some, List, [], ◌∷◌, ◌++◌, length, arith, ok, Result,
  subst, ok_eq,
}
use localdns_go.Prelude.Words.{Bytes}
use localdns_go.Net.Ip.{Ip}
use localdns_go.Dot.Framing.{DotError, eof, frame, dns_over_tcp_read}
use localdns_go.Doh.Accept.{WriteEnd, ReadEnd, forward_query_and_check}
use localdns_go.Doh.Message.{Dns}
use localdns_go.Doh.Service.{Answer, Service, KeepsId}
use localdns_go.Doh.Service.OverHttps.{doh_service, doh_service-KeepsId}
use localdns_go.Doh.Service.Stream.{serve_query, stream_has_query_id}
use localdns_go.Dot.Service.{dot_service, dot_service-KeepsId}
use localdns_go.Relay.Udp.{handle_dns}
use localdns_go.Relay.Udp.Datagrams.{udp_has_query_id}
use localdns_go.Tunnel.Session.{dns_probe_query, probe, probe_resolver}
use localdns_go.Bridge.Callbacks.{probe_server}
use localdns_go.Bridge.Sessions.{error_code}
use localdns_go.Bridge.Probes.{probe_code, probe_code-answered}
use localdns_go.Tests.Toy.{toy, toy-HasHeader, are_bytes_lem}

abbrev names : String → List Ip
names name = (8 ∷ 8 ∷ 8 ∷ 8 ∷ []) ∷ []

abbrev accepts : ℕ → Ip → Result (DotError ℕ) ℕ
accepts port ip = ok 5

abbrev remote_of : ℕ → Option Ip
remote_of c = none

abbrev toy_nat : Dns ℕ Unit Unit Unit
toy_nat = toy 0

doh_service-KeepsId_example : KeepsId (doh_service toy_nat names "a")
doh_service-KeepsId_example = doh_service-KeepsId toy_nat names "a" (toy-HasHeader 0)

dot_service-KeepsId_example : KeepsId (dot_service (toy eof) names accepts remote_of "a" 853)
dot_service-KeepsId_example =
    dot_service-KeepsId (toy eof) names accepts remote_of "a" 853 (toy-HasHeader eof)

-- It counts its queries. A query that is too short for an ID is refused.
abbrev echo_query : ℕ → Bytes → ℕ → Option (Answer ℕ × ℕ)
echo_query v (h ∷ l ∷ tail) n =
    some (record { response = some (h ∷ l ∷ tail); error = none; query = h ∷ l ∷ tail }, n + 1)
echo_query v q n = some (record { response = none; error = some 1; query = q }, n)

abbrev echo : Service ℕ ℕ ℕ
echo = record { query = echo_query }

echo_short :
    (v : ℕ) (q : Bytes) (st st' : ℕ) (a : Answer ℕ)
    → length q < 2
    → echo_query v q st ≡ some (a, st')
    → (a.error ≢ none) × (a.response ≡ none)
echo_short v [] st st' a few e = ((λ h. cc), cc)
echo_short v (x ∷ []) st st' a few e = ((λ h. cc), cc)
echo_short v (x ∷ y ∷ q) st st' a few e = absurd (omega (arith, few))

echo-KeepsId : KeepsId echo
echo-KeepsId = record {
  id_kept = λ v h l tail st st' a bh bl e good. (tail, cc);
  short_fails = echo_short;
}

abbrev some_query : Bytes
some_query = 7 ∷ 9 ∷ 1 ∷ []

abbrev datagram : ReadEnd ℕ
datagram = record { chunk = some_query; error = none }

abbrev takes_all : Bytes → WriteEnd ℕ
takes_all b = record { n = length b; error = none }

stream_has_query_id_example :
    (h : ℕ) × (l : ℕ) × (tail : Bytes) × (body : Bytes) × (some_query ≡ h ∷ l ∷ tail)
    × (dns_over_tcp_read {E = ℕ} (record { pending = frame some_query ++ 5 ∷ []; ending = none })
        ≡ (ok (h ∷ l ∷ body), record { pending = 5 ∷ []; ending = none }))
unfolding serve_query forward_query_and_check
stream_has_query_id_example =
    stream_has_query_id echo echo-KeepsId takes_all 0 some_query 0 1 (some (frame some_query))
      (5 ∷ []) none (are_bytes_lem some_query refl) refl

udp_has_query_id_example :
    (h : ℕ) × (l : ℕ) × (tail : Bytes) × (rest : Bytes) × (some_query ≡ h ∷ l ∷ tail)
    × (some_query ≡ h ∷ l ∷ rest)
unfolding handle_dns
udp_has_query_id_example =
    udp_has_query_id echo echo-KeepsId datagram 0 0 1 some_query (are_bytes_lem some_query refl)
      refl

probe_code-answered_example :
    (s : Service ℕ ℕ ℕ) × (a : Answer ℕ) × (rest : Bytes) × (◌≡◌ {A = Result ℕ (Service ℕ ℕ ℕ)}
      (ok echo)
      (ok s))
    × (s.query 0 dns_probe_query 0 ≡ some (a, 1))
    × (a.error ≡ none)
    × (a.response ≡ some (0 ∷ 0 ∷ rest))
unfolding probe_code probe_server probe probe_resolver error_code
probe_code-answered_example =
    probe_code-answered (ok echo) 0 0 1 (λ s e. subst KeepsId (ok_eq e) echo-KeepsId) refl
