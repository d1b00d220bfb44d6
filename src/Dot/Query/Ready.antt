-- ===== src/Dot/Query/Ready.antt =====
-- A query leaves the set of the resolver's host usable.
use Prim.Native.String.{String}
use localdns_go.Prelude.{
  ℕ, ◌≡◌, subst, some_eq, false, Option, none, some, List, [], ◌∷◌, length, Result, ok, err,
  Bool-cases, inl, inr, ltb, arith,
}
use localdns_go.Prelude.Words.{Bytes}
use localdns_go.Net.Ip.{Ip, nil_ip, ip_equal}
use localdns_go.IpMap.Valid.{confirms}
use localdns_go.Doh.Message.{Dns}
use localdns_go.Doh.Padding.{Padded, same_slice, new_slice, add_edns_padding}
use localdns_go.Doh.Dial.{DialResult, connected, failed}
use localdns_go.Doh.Make.Ready.{IsReady}
use localdns_go.Doh.Make.Stays.{dial_host-IsReady, at_server-IsReady}
use localdns_go.Doh.Query.{Status, Cause, QueryError, Resolver, is_send_failed, check_response}
use localdns_go.Dot.Framing.{DotError}
use localdns_go.Dot.Query.{
  DotEnv, DotOutcome, Transfer, transfer, dial_plain_tcp, dot_failed, dot_conclude, after_transfer,
  with_connection, dot_send_padded, dot_pad_and_send, dot_do_query,
}

-- A connection reports an address, if any.
abbrev pub ReportsNoNil : {C : Type 0} → (C → Option Ip) → Type 0
ReportsNoNil {C} remote = (c : C) (ip : Ip) → remote c ≡ some ip → ip_equal ip nil_ip ≡ false

module _ {E Q H B C : Type 0} (d : Dns (DotError E) Q H B) (resolve : String → List Ip)
    (connect : ℕ → Ip → Result (DotError E) C) (remote : C → Option Ip) (host : String)
    (port : ℕ) where
  abbrev IsReadyIn : Resolver → Type 0
  IsReadyIn r = IsReady host r.ips

  module _ (real : ReportsNoNil remote) (v : DotEnv E) where
    conclude-IsReady :
        (server : Option Ip) (r : Resolver) (q query : Bytes) (closed : ℕ)
        (x : Option Bytes × Option (QueryError (DotError E)))
        → ((ip : Ip) → server ≡ some ip → ip_equal ip nil_ip ≡ false)
        → IsReadyIn r
        → IsReadyIn (dot_conclude d resolve v host server r q x query closed).state
    unfolding dot_conclude
    conclude-IsReady server r q query closed (b, none) known ready =
        at_server-IsReady resolve confirms server host r.ips known ready
    conclude-IsReady server r q query closed (b, some e) known ready =
        elim (Bool-cases (is_send_failed e.status)) [
          | inl send ↦ rw send ready
          | inr other ↦ rw other ready
        ]

    after_transfer-IsReady :
        (r : Resolver) (id : ℕ) (q query : Bytes) (x : Option Ip × Transfer E)
        → ((ip : Ip) → x.0 ≡ some ip → ip_equal ip nil_ip ≡ false)
        → IsReadyIn r
        → IsReadyIn (after_transfer d resolve v host r id q query x).state
    unfolding after_transfer dot_failed
    after_transfer-IsReady r id q query (server, (closed, sent, err (status, e))) known ready =
        ready
    after_transfer-IsReady r id q query (server, (closed, sent, ok response)) known ready =
        conclude-IsReady server r q query closed (check_response id (some response) none) known
          ready

    server-transfer :
        (server : Option Ip) (q : Bytes) (ip : Ip)
        → (transfer v server q).0 ≡ some ip
        → server ≡ some ip
    unfolding transfer
    server-transfer server q ip h = ground arith

    with_connection-IsReady :
        (r : Resolver) (id : ℕ) (q zeroed query : Bytes) (end : DialResult (DotError E) C)
        (o : DotOutcome E)
        → IsReadyIn r
        → with_connection d resolve connect remote host v r id q zeroed query end ≡ some o
        → IsReadyIn o.state
    unfolding with_connection dot_failed
    with_connection-IsReady r id q zeroed query (failed none) o ready run = cc
    with_connection-IsReady r id q zeroed query (failed (some e)) o ready run =
        subst (λ (z : DotOutcome E). IsReadyIn z.state) (some_eq run) ready
    with_connection-IsReady r id q zeroed query (connected c) o ready run =
        subst (λ (z : DotOutcome E). IsReadyIn z.state) (some_eq run)
          (after_transfer-IsReady r id q query (transfer v (remote c) zeroed)
            (λ ip e. real c ip (server-transfer (remote c) zeroed ip e)) ready)

    sent-IsReady :
        (own : Option Bytes) (b : Bytes) (r : Resolver) (o : DotOutcome E)
        → IsReadyIn r
        → dot_send_padded d resolve connect remote host port v r own b ≡ some o
        → IsReadyIn o.state
    unfolding dot_send_padded dial_plain_tcp
    sent-IsReady own [] r o ready run = cc
    sent-IsReady own (h ∷ []) r o ready run = cc
    sent-IsReady own (h ∷ l ∷ rest) r o ready run =
        let (end, m) = dial_plain_tcp connect resolve v.draws host port r.ips in
        with_connection-IsReady (record r { ips = m }) _ _ _ _ end o
          (dial_host-IsReady (connect port) resolve v.draws host r.ips ready) run

    given_up-IsReady :
        (status : Status) (cause : Cause (DotError E)) (response : Option Bytes) (r : Resolver)
        (q : Bytes) (o : DotOutcome E)
        → IsReadyIn r
        → some (dot_failed d resolve status cause response none r q 0 0) ≡ some o
        → IsReadyIn o.state
    unfolding dot_failed
    given_up-IsReady status cause response r q o ready run =
        subst (λ (z : DotOutcome E). IsReadyIn z.state) (some_eq run) ready

    padded-IsReady :
        (q : Bytes) (r : Resolver) (o : DotOutcome E) (p : Result (DotError E) Padded)
        → IsReadyIn r
        → dot_pad_and_send d resolve connect remote host port v r q p ≡ some o
        → IsReadyIn o.state
    unfolding dot_pad_and_send
    padded-IsReady q r o (err e) ready run = given_up-IsReady _ _ _ r q o ready run
    padded-IsReady q r o (ok same_slice) ready run = sent-IsReady none q r o ready run
    padded-IsReady q r o (ok (new_slice b)) ready run = sent-IsReady (some q) b r o ready run

    -- A query leaves the resolver ready for the next.
    pub dot_do_query-IsReady :
        (q : Bytes) (r : Resolver) (o : DotOutcome E)
        → IsReadyIn r
        → dot_do_query d resolve connect remote host port v q r ≡ some o
        → IsReadyIn o.state
    unfolding dot_do_query
    dot_do_query-IsReady q r o ready run = elim (Bool-cases (ltb (length q) 2)) [
      | inl few ↦ given_up-IsReady _ _ _ r q o ready (rw few at run)
      | inr enough ↦ elim (Bool-cases (ltb v.now r.hangover_expiration)) [
        | inl rest ↦ given_up-IsReady _ _ _ r q o ready (simp (enough, rest) at run)
        | inr awake ↦
            padded-IsReady q r o (add_edns_padding d q) ready (simp (enough, awake) at run)
      ]
    ]
