-- ===== src/Dot/Query/Closed.antt =====
-- What a query leaves: the connection is closed, and the caller's slice has its ID; the ID of the
-- response; and the panic, which needs a host without addresses.
use Prim.Native.String.{String}
use mathlib.Core.Option
use localdns_go.Prelude.{
  ℕ, ◌+◌, ◌*◌, ◌≤◌, ◌<◌, ◌≡◌, ◌≢◌, refl, sym, ap, ◌∙◌, inl, inr, false, Option, none, some, List,
  [], ◌∷◌, length, All, Result, ok, err, ltb, ◌==◌, arith, Bool-cases,
}
use localdns_go.Prelude.Words.{Bytes, hi_byte, lo_byte}
use localdns_go.Split.Frames.Fragments.{IsByte}
use localdns_go.Net.Ip.{Ip, nil_ip}
use localdns_go.IpMap.{has_ip}
use localdns_go.IpMap.Shuffle.{InRange}
use localdns_go.IpMap.Store.{find, set_at, get}
use localdns_go.Doh.Message.{Dns, HasHeader}
use localdns_go.Doh.Padding.{Padded, same_slice, new_slice, add_edns_padding}
use localdns_go.Doh.Padding.Header.{same_slice-length, new_slice-header}
use localdns_go.Doh.Dial.{DialResult, connected, failed, dial_host, dial_set}
use localdns_go.Doh.Dial.Host.{dial_set-ne-nil}
use localdns_go.Doh.Query.{QueryError, Resolver, check_response}
use localdns_go.Doh.Query.Course.{Sent-id, Sent-restored}
use localdns_go.Dot.Framing.{DotError, dns_over_tcp_write, dns_over_tcp_read}
use localdns_go.Dot.Query.{
  DotEnv, DotOutcome, dial_plain_tcp, Transfer, transfer, dot_failed, dot_conclude, after_transfer,
  with_connection, dot_send_padded, dot_pad_and_send, dot_do_query, send, receive, fails,
}
use localdns_go.Dot.Query.Ways.{early, late, dot_do_query-DotCourse}

module _ {E Q H B : Type 0} (d : Dns (DotError E) Q H B) (resolve : String → List Ip) where
  module _ {C : Type 0} (connect : ℕ → Ip → Result (DotError E) C) (remote : C → Option Ip)
      (host : String) (port : ℕ) (v : DotEnv E) (r : Resolver) where
    closed-receive : (sent : Option Bytes) → (receive v sent).0 ≡ 1
    unfolding receive fails
    closed-receive sent = ground arith

    closed-send : (q : Bytes) → (send v q).0 ≡ 1
    unfolding send fails
    closed-send q = ground (arith, closed-receive (dns_over_tcp_write v.write q).0)

    closed-transfer : (server : Option Ip) (q : Bytes) → (transfer v server q).1.0 ≡ 1
    unfolding transfer fails
    closed-transfer server q = ground (arith, closed-send q)

    conclude-query :
        (r' : Resolver) (id closed : ℕ) (q query : Bytes) (server : Option Ip)
        (x : Option Bytes × Option (QueryError (DotError E)))
        → let o = dot_conclude d resolve v host server r' q x query closed in
          (o.query ≡ query) × (o.opened ≡ 1) × (o.closed ≡ closed)
    unfolding dot_conclude
    conclude-query r' id closed q query server (b, none) = (refl, refl, refl)
    conclude-query r' id closed q query server (b, some e) = (refl, refl, refl)

    after_transfer-query :
        (r' : Resolver) (id : ℕ) (q query : Bytes) (x : Option Ip × Transfer E)
        → let o = after_transfer d resolve v host r' id q query x in
          (o.query ≡ query) × (o.opened ≡ 1) × (o.closed ≡ x.1.0)
    unfolding after_transfer dot_failed
    after_transfer-query r' id q query (server, (closed, sent, err (status, e))) =
        (refl, refl, refl)
    after_transfer-query r' id q query (server, (closed, sent, ok response)) =
        conclude-query r' id closed q query server (check_response id (some response) none)

    -- However a DNS-over-TLS query of bytes ends, it has closed as often as it has opened a
    -- connection, and the caller's query is as it was.
    pub closed-dot_do_query :
        (q : Bytes) (o : DotOutcome E)
        → All IsByte q
        → dot_do_query d resolve connect remote host port v q r ≡ some o
        → (o.closed ≡ o.opened) × (o.query ≡ q)
    closed-dot_do_query q o bytes run =
        elim (dot_do_query-DotCourse d resolve connect remote host port v r q o run) [
          | early e query same kept opened closed unwritten failure ↦
              (closed ∙ sym opened, kept ∙ same bytes)
          | late own h l rest server r' s e ↦
              let (kept, opened, closed) =
                after_transfer-query r' (h * 256 + l) _
                  (Option.get_or own (hi_byte (h * 256 + l) ∷ lo_byte (h * 256 + l) ∷ rest))
                  (transfer v server (0 ∷ 0 ∷ rest)) in
              (
                ap (λ (z : DotOutcome E). z.closed) e
                    ∙ closed
                    ∙ closed-transfer server _
                    ∙ sym (ap (λ (z : DotOutcome E). z.opened) e ∙ opened),
                ap (λ (z : DotOutcome E). z.query) e
                    ∙ kept
                    ∙ Sent-restored d resolve host h l rest bytes s,
              )
        ]

    read-receive :
        (sent : Option Bytes) (b : Bytes)
        → (receive v sent).2 ≡ ok b
        → (dns_over_tcp_read v.source).0 ≡ ok b
    unfolding receive fails
    read-receive sent b h = ground arith

    read-send : (q b : Bytes) → (send v q).2 ≡ ok b → (dns_over_tcp_read v.source).0 ≡ ok b
    unfolding send fails
    read-send q b h = ground (arith, read-receive (dns_over_tcp_write v.write q).0 b)

    read-transfer :
        (server : Option Ip) (q b : Bytes)
        → (transfer v server q).1.2 ≡ ok b
        → (dns_over_tcp_read v.source).0 ≡ ok b
    unfolding transfer fails
    read-transfer server q b h = ground (arith, read-send q b)

    -- An outcome without an error comes from a message with a zero ID.
    accepted :
        (r' : Resolver) (id : ℕ) (q query : Bytes) (x : Option Ip × Transfer E)
        → (after_transfer d resolve v host r' id q query x).qerr ≡ none
        → (rest : Bytes) × (x.1.2 ≡ ok (0 ∷ 0 ∷ rest))
          × ((after_transfer d resolve v host r' id q query x).response
              ≡ some (hi_byte id ∷ lo_byte id ∷ rest))
    unfolding after_transfer dot_failed dot_conclude check_response
    accepted r' id q query (server, (closed, sent, err (status, e))) h = cc
    accepted r' id q query (server, (closed, sent, ok [])) h = cc
    accepted r' id q query (server, (closed, sent, ok (b ∷ []))) h = cc
    accepted r' id q query (server, (closed, sent, ok (h0 ∷ l0 ∷ rest))) h =
        elim (Bool-cases (h0 * 256 + l0 == 0)) [
          | inl zero_id ↦
              let first : h0 ≡ 0 = ground arith in
              let second : l0 ≡ 0 = ground arith in (rest, cc (first, second), rw zero_id refl)
          | inr other ↦ cc (rw other at h)
        ]

    connected_or_failed :
        (end : DialResult (DotError E) C) (r' : Resolver) (id : ℕ) (q zeroed query : Bytes)
        → end ≢ failed none
        → (o : DotOutcome E) × (with_connection d resolve connect remote host v r' id q zeroed query
              end
            ≡ some o)
    unfolding with_connection
    connected_or_failed (connected c) r' id q zeroed query h = (_, refl)
    connected_or_failed (failed (some e)) r' id q zeroed query h = (_, refl)
    connected_or_failed (failed none) r' id q zeroed query h = absurd (h refl)

    module _ (law : HasHeader d) where
      -- Given that messages have headers: if `doQuery` reports no error on a query that starts
      -- with the bytes `h` and `l`, then what was read from the connection is a message with a
      -- zero ID, and the response is that message with `h` and `l` in front.
      pub dot_response_has_query_id :
          (h l : ℕ) (tail : Bytes) (o : DotOutcome E)
          → h < 256
          → l < 256
          → dot_do_query d resolve connect remote host port v (h ∷ l ∷ tail) r ≡ some o
          → o.qerr ≡ none
          → (rest : Bytes) × ((dns_over_tcp_read v.source).0 ≡ ok (0 ∷ 0 ∷ rest))
            × (o.response ≡ some (h ∷ l ∷ rest))
      dot_response_has_query_id h l tail o bh bl run good =
          elim (dot_do_query-DotCourse d resolve connect remote host port v r (h ∷ l ∷ tail) o
            run) [
              | early e query same kept opened closed unwritten failure ↦ cc
              | late own h' l' rest server r' s e ↦
                  let (hi, lo) = Sent-id d resolve host law h l tail h' l' rest bh bl s in
                  let (body, read, answer) =
                    accepted r' (h' * 256 + l') _ _ (transfer v server (0 ∷ 0 ∷ rest))
                      (rw e at good) in
                  (
                    body,
                    read-transfer server _ _ read,
                    ap (λ (z : DotOutcome E). z.response) e ∙ answer ∙ cc (hi, lo),
                  )
            ]

      -- Given that messages have headers, where the map has a set for the resolver's host that
      -- holds an address, and not nil among them, and the draws are places of it: `doQuery` never
      -- panics, it returns on every query.
      pub dot_do_query_total :
          (q : Bytes) (p : ℕ)
          → find host r.ips ≡ some p
          → All (InRange (length (set_at p r.ips).ips)) v.draws
          → 0 < length (set_at p r.ips).ips
          → has_ip (set_at p r.ips).ips nil_ip ≡ false
          → (o : DotOutcome E) × (dot_do_query d resolve connect remote host port v q r ≡ some o)
      unfolding dot_do_query dot_pad_and_send dot_send_padded dial_plain_tcp dial_host get dial_set
      dot_do_query_total q p held range some_ips live = elim (Bool-cases (ltb (length q) 2)) [
        | inl few ↦ rw few (_, refl)
        | inr enough ↦ rw enough (elim (Bool-cases (ltb v.now r.hangover_expiration)) [
          | inl rest ↦ rw rest (_, refl)
          | inr awake ↦ rw awake (padded_total (add_edns_padding d q) refl)
        ])
      ]
        where
          dialed : (dial_plain_tcp connect resolve v.draws host port r.ips).0 ≢ failed none
          dialed h =
              dial_set-ne-nil (connect port) v.draws p r.ips range some_ips live
                (rw (held, get) at h)

          sent_total :
              (own : Option Bytes) (b : Bytes)
              → 12 ≤ length b
              → (o : DotOutcome E) × (dot_send_padded d resolve connect remote host port v r own b
                  ≡ some o)
          sent_total own [] n = absurd (omega arith)
          sent_total own (x ∷ []) n = absurd (omega arith)
          sent_total own (x ∷ y ∷ rest) n =
              connected_or_failed ((dial_plain_tcp connect resolve v.draws host port r.ips).0) _ _ _
                _ _ dialed

          padded_total :
              (x : Result (DotError E) Padded)
              → add_edns_padding d q ≡ x
              → (o : DotOutcome E) × (dot_pad_and_send d resolve connect remote host port v r q x
                  ≡ some o)
          padded_total (err e) a = (_, refl)
          padded_total (ok same_slice) a = sent_total none q (same_slice-length d law q a)
          padded_total (ok (new_slice b)) a =
              sent_total (some q) b ((new_slice-header d law q b a).0)
