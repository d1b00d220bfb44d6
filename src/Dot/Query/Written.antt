-- ===== src/Dot/Query/Written.antt =====
-- What leaves the device in a query over TLS.
use Prim.Native.String.{String}
use localdns_go.Prelude.{
  ℕ, ◌≡◌, refl, sym, ◌∙◌, inl, inr, Option, some, some_eq, List, ◌∷◌, length, ltb, Result, ok, err,
  Bool-cases, arith,
}
use localdns_go.Prelude.Words.{Bytes}
use localdns_go.Net.Ip.{Ip}
use localdns_go.Doh.Message.{Dns}
use localdns_go.Doh.Padding.Block.{AddsOptions}
use localdns_go.Doh.Query.{Resolver}
use localdns_go.Doh.Query.Posted.{IsPrivate, Sent-in_blocks}
use localdns_go.Dot.Framing.{DotError, frame, max_uint16, dns_over_tcp_write}
use localdns_go.Dot.Query.{
  DotEnv, DotOutcome, Transfer, transfer, send, receive, fails, after_transfer, dot_do_query,
}
use localdns_go.Dot.Query.Ways.{early, late, dot_do_query-DotCourse}

module _ {E Q H B C : Type 0} (d : Dns (DotError E) Q H B) (resolve : String → List Ip)
    (connect : ℕ → Ip → Result (DotError E) C) (remote : C → Option Ip) (host : String) (port : ℕ)
    (v : DotEnv E) (r : Resolver) where
  framed : (q b : Bytes) → (dns_over_tcp_write v.write q).0 ≡ some b → b ≡ frame q
  unfolding dns_over_tcp_write
  framed q b e = elim (Bool-cases (ltb max_uint16 (length q))) [
    | inl large ↦ cc (rw large at e)
    | inr fits ↦ some_eq (sym (rw fits at e))
  ]

  written-receive : (sent : Option Bytes) → (receive v sent).1 ≡ sent
  unfolding receive fails
  written-receive sent = ground arith

  written-send : (q b : Bytes) → (send v q).1 ≡ some b → (dns_over_tcp_write v.write q).0 ≡ some b
  unfolding send fails
  written-send q b e = ground (arith, written-receive (dns_over_tcp_write v.write q).0)

  written-transfer :
      (server : Option Ip) (q b : Bytes) → (transfer v server q).1.1 ≡ some b → b ≡ frame q
  unfolding transfer fails
  written-transfer server q b e = framed q b (ground (arith, written-send q b))

  written-after_transfer :
      (r' : Resolver) (id : ℕ) (q query : Bytes) (x : Option Ip × Transfer E)
      → (after_transfer d resolve v host r' id q query x).wrote ≡ x.1.1
  unfolding after_transfer
  written-after_transfer r' id q query (server, (closed, sent, err (status, e))) = refl
  written-after_transfer r' id q query (server, (closed, sent, ok response)) = refl

  -- Given that an option adds its four bytes of header and its data to a packed message: what `doQuery`
  -- writes to the TLS connection is one frame, of a message with a zero ID. The length of the message is a
  -- multiple of 128 bytes, unless the query came with padding already and is sent as it is, but for its ID.
  pub wrote-IsPrivate :
      AddsOptions d
      → (q b : Bytes) (o : DotOutcome E)
      → dot_do_query d resolve connect remote host port v q r ≡ some o
      → o.wrote ≡ some b
      → (msg : Bytes) × (b ≡ frame msg) × IsPrivate d resolve host q msg
  wrote-IsPrivate adds q b o run wrote =
      elim (dot_do_query-DotCourse d resolve connect remote host port v r q o run) [
        | early e query same kept opened closed unwritten failure ↦ cc (unwritten, wrote)
        | late own h l rest server r' s e ↦
            let out = sym (written-after_transfer r' _ _ _ _) ∙ (rw e at wrote) in
            (
              0 ∷ 0 ∷ rest,
              written-transfer server (0 ∷ 0 ∷ rest) b out,
              record {
                rest = rest;
                zero_id = refl;
                in_blocks = Sent-in_blocks d resolve host adds s;
              },
            )
      ]
