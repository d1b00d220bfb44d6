-- ===== src/Dot/Query/Connection.antt =====
-- The use of the connection in `doQuery` of proxy/dot/dot.go, and the data of a query.
use localdns_go.Prelude.{ℕ, Option, none, some, List, Result, ok, err}
use localdns_go.Prelude.Words.{Bytes}
use localdns_go.Net.Ip.{Ip}
use localdns_go.Doh.Query.{Status, send_failed, bad_query, bad_response, QueryError, Resolver}
use localdns_go.Dot.Framing.{
  DotError, oversize_dns, callee_failed, Source, dns_over_tcp_write, dns_over_tcp_read,
}

-- What the environment answers in one query: the clock readings, what `GetAll` draws, the ends of the
-- calls on the TLS connection, how a write of a slice ends, and what can be read.
pub record DotEnv (E : Type 0) : Type 0 where
  pub now : ℕ
  pub draws : List (ℕ × ℕ)
  pub set_deadline : Option E
  pub handshake : Option E
  pub set_write_deadline : Option E
  pub write : Bytes → Option E
  pub set_read_deadline : Option E
  pub source : Source E
  pub later : ℕ

-- The named results, the resolver behind the call, the bytes of the caller's slice, the slice that was
-- written to the connection, if any, and how many connections were opened and closed.
pub record DotOutcome (E : Type 0) : Type 0 where
  pub response : Option Bytes
  pub server : Option Ip
  pub qerr : Option (QueryError (DotError E))
  pub state : Resolver
  pub query : Bytes
  pub wrote : Option Bytes
  pub opened : ℕ
  pub closed : ℕ

-- An error of `dnsOverTCPWrite`
pub write_status : {E : Type 0} → DotError E → Status
write_status oversize_dns = bad_query
write_status _ = send_failed

-- How often the connection is closed, what was written to it, and a status and an error, or the response.
abbrev pub Transfer : Type 0 → Type 0
Transfer E = ℕ × Option Bytes × Result (Status × DotError E) Bytes

unfoldable pub fails : {E : Type 0} → Option Bytes → Status → DotError E → Transfer E
fails sent status e = (1, sent, err (status, e))

unfoldable pub receive : {E : Type 0} → DotEnv E → Option Bytes → Transfer E
receive v sent = elim v.set_read_deadline [
  | some e ↦ fails sent send_failed (callee_failed e)
  | none ↦ elim ((dns_over_tcp_read v.source).0) [
    | err e ↦ fails sent bad_response e
    | ok resp ↦ (1, sent, ok resp)
  ]
]

unfoldable pub send : {E : Type 0} → DotEnv E → Bytes → Transfer E
send v q = elim v.set_write_deadline [
  | some e ↦ fails none send_failed (callee_failed e)
  | none ↦
      let (sent, error) = dns_over_tcp_write v.write q in
      elim error [ some e ↦ fails sent (write_status e) e | none ↦ receive v sent ]
]

-- The use of the connection: the server's address is known from the end of the handshake on.
unfoldable pub transfer : {E : Type 0} → DotEnv E → Option Ip → Bytes → Option Ip × Transfer E
unfolding send receive write_status fails
transfer v remote q = elim v.set_deadline [
  | some e ↦ (none, fails none send_failed (callee_failed e))
  | none ↦ elim v.handshake [
    | some e ↦ (none, fails none send_failed (callee_failed e))
    | none ↦ (remote, send v q)
  ]
]
