-- ===== src/Dot/Query/Confirmed.antt =====
-- The address that a query over TLS confirms.
use Prim.Native.String.{String}
use localdns_go.Prelude.{
  ℕ, ◌≡◌, refl, sym, ap, ◌∙◌, subst, some_eq, inl, inr, true, false, arith, Option, none, some,
  List, [], ◌∷◌, length, Result, ok, err, All, ltb, Bool-cases,
}
use localdns_go.Prelude.Words.{Bytes}
use localdns_go.Net.Ip.{Ip, is_nil, ip_equal}
use localdns_go.IpMap.Shuffle.{InRange}
use localdns_go.IpMap.Valid.{confirms, disconfirms, apply, confirm-disconfirm}
use localdns_go.IpMap.Store.{Store, find, set_at, get}
use localdns_go.IpMap.Store.Stable.{IsSound, update-IsSound}
use localdns_go.Doh.Message.{Dns}
use localdns_go.Doh.Padding.{Padded, same_slice, new_slice, add_edns_padding}
use localdns_go.Doh.Dial.{DialResult, connected, failed, dial_host, dial_set}
use localdns_go.Doh.Dial.Host.{dial_set-from, store-dial_set}
use localdns_go.Doh.Make.Ready.{set_at-update}
use localdns_go.Doh.Query.{QueryError, Resolver, check_response, at_server}
use localdns_go.Dot.Framing.{DotError}
use localdns_go.Dot.Query.{
  DotEnv, DotOutcome, Transfer, transfer, dial_plain_tcp, dot_failed, dot_conclude, after_transfer,
  with_connection, dot_send_padded, dot_pad_and_send, dot_do_query, fails,
}

-- `RemoteAddr` of a connection is the address that was dialed, which is not nil.
pub record ReportsDialed {E C : Type 0} (connect : ℕ → Ip → Result E C) (remote : C → Option Ip)
    (port : ℕ) : Type 0 where
  pub reports : (ip : Ip) (c : C) → connect port ip ≡ ok c → remote c ≡ some ip
  pub dials_real : (ip : Ip) (c : C) → connect port ip ≡ ok c → is_nil ip ≡ true → ⊥

-- The confirmed address of the set `p` is one that has connected, and the server's.
pub record ConfirmsWorking {E C : Type 0} (connect : ℕ → Ip → Result (DotError E) C) (port p : ℕ)
    (o : DotOutcome E) : Type 0 where
  pub ip : Ip
  pub conn : C
  pub works : connect port ip ≡ ok conn
  pub is_server : o.server ≡ some ip
  pub is_confirmed : ip_equal ip (set_at p o.state.ips).confirmed ≡ true

module _ {E Q H B C : Type 0} (d : Dns (DotError E) Q H B) (resolve : String → List Ip)
    (connect : ℕ → Ip → Result (DotError E) C) (remote : C → Option Ip) (host : String)
    (port : ℕ) where
  module _ (law : ReportsDialed connect remote port) (v : DotEnv E) (p : ℕ) where
    abbrev Holds : Store → Type 0
    Holds m = IsSound m × (find host m ≡ some p)

    confirmed_at :
        (m : Store) (ip : Ip)
        → Holds m
        → is_nil ip ≡ false
        → ip_equal ip (set_at p (at_server resolve confirms (some ip) host m)).confirmed ≡ true
    unfolding at_server get apply
    confirmed_at m ip (sound, held) real =
        rw (held, get)
          (rw (set_at-update (confirms ip) host p m sound held)
            ((confirm-disconfirm ip (set_at p m) real).0))

    module _ (ip : Ip) (c : C) (works : connect port ip ≡ ok c) where
      real : is_nil ip ≡ false
      real = elim (Bool-cases (is_nil ip)) [
        | inl nil ↦ absurd (law.dials_real ip c works nil)
        | inr other ↦ other
      ]

      conclude-ConfirmsWorking :
          (r' : Resolver) (q query : Bytes) (closed : ℕ)
          (x : Option Bytes × Option (QueryError (DotError E)))
          → Holds r'.ips
          → (dot_conclude d resolve v host (some ip) r' q x query closed).qerr ≡ none
          → ConfirmsWorking connect port p
              (dot_conclude d resolve v host (some ip) r' q x query closed)
      unfolding dot_conclude
      conclude-ConfirmsWorking r' q query closed (b, some e) held good = cc
      conclude-ConfirmsWorking r' q query closed (b, none) held good = record {
        ip = ip;
        conn = c;
        works = works;
        is_server = refl;
        is_confirmed = confirmed_at r'.ips ip held real;
      }

      after_transfer-ConfirmsWorking :
          (r' : Resolver) (id : ℕ) (q query : Bytes) (x : Option Ip × Transfer E)
          → Holds r'.ips
          → ((b : Bytes) → x.1.2 ≡ ok b → x.0 ≡ some ip)
          → (after_transfer d resolve v host r' id q query x).qerr ≡ none
          → ConfirmsWorking connect port p (after_transfer d resolve v host r' id q query x)
      unfolding after_transfer dot_failed
      after_transfer-ConfirmsWorking r' id q query (server, (closed, sent, err (status, e))) held
            known good =
          cc
      after_transfer-ConfirmsWorking r' id q query (server, (closed, sent, ok response)) held known
            good =
          let x = check_response id (some response) none in
          let same : server ≡ some ip = known response refl in
          let w = conclude-ConfirmsWorking r' q query closed x held (
            subst (λ z. (dot_conclude d resolve v host z r' q x query closed).qerr ≡ none) same
              good) in
          subst
            (λ z.
              ConfirmsWorking connect port p
                (after_transfer d resolve v host r' id q query (z, (closed, sent, ok response))))
            (sym same)
            (record {
              ip = w.ip;
              conn = w.conn;
              works = w.works;
              is_server = w.is_server;
              is_confirmed = w.is_confirmed;
            })

    server-transfer :
        (server : Option Ip) (q b : Bytes)
        → (transfer v server q).1.2 ≡ ok b
        → (transfer v server q).0 ≡ server
    unfolding transfer fails
    server-transfer server q b h = ground arith

    with_connection-ConfirmsWorking :
        (r' : Resolver) (id : ℕ) (q zeroed query : Bytes) (end : DialResult (DotError E) C)
        (o : DotOutcome E)
        → Holds r'.ips
        → ((c : C) → end ≡ connected c → (ip : Ip) × (connect port ip ≡ ok c))
        → with_connection d resolve connect remote host v r' id q zeroed query end ≡ some o
        → o.qerr ≡ none
        → ConfirmsWorking connect port p o
    unfolding with_connection dot_failed
    with_connection-ConfirmsWorking r' id q zeroed query (failed none) o held from run good = cc
    with_connection-ConfirmsWorking r' id q zeroed query (failed (some e)) o held from run good =
        cc (ap (λ (z : DotOutcome E). z.qerr) (some_eq run), good)
    with_connection-ConfirmsWorking r' id q zeroed query (connected c) o held from run good =
        let (ip, works) = from c refl in
        let same = some_eq run in
        subst (ConfirmsWorking connect port p) same (
          after_transfer-ConfirmsWorking ip c works r' id q query (transfer v (remote c) zeroed)
            held (λ b e. server-transfer (remote c) zeroed b e ∙ law.reports ip c works)
            (ap (λ (z : DotOutcome E). z.qerr) same ∙ good))

    module _ (r : Resolver) (sound : IsSound r.ips) (held : find host r.ips ≡ some p)
        (range : All (InRange (length (set_at p r.ips).ips)) v.draws) where
      dialed-Holds : Holds (dial_set (connect port) v.draws p r.ips).1
      dialed-Holds = elim (store-dial_set (connect port) v.draws p r.ips) [
        | inl same ↦ rw same (sound, held)
        | inr back ↦ rw back (update-IsSound (disconfirms _) p sound, held)
      ]

      dialed_from :
          (c : C)
          → (dial_set (connect port) v.draws p r.ips).0 ≡ connected c
          → (ip : Ip) × (connect port ip ≡ ok c)
      dialed_from c e =
          let (ip, known, works) = dial_set-from (connect port) v.draws p r.ips range c e in
          (ip, works)

      plain-eq :
          dial_plain_tcp connect resolve v.draws host port r.ips
          ≡ dial_set (connect port) v.draws p r.ips
      unfolding dial_plain_tcp dial_host get
      plain-eq = rw (held, get) refl

      sent-ConfirmsWorking :
          (own : Option Bytes) (b : Bytes) (o : DotOutcome E)
          → dot_send_padded d resolve connect remote host port v r own b ≡ some o
          → o.qerr ≡ none
          → ConfirmsWorking connect port p o
      unfolding dot_send_padded
      sent-ConfirmsWorking own [] o run good = cc
      sent-ConfirmsWorking own (h ∷ []) o run good = cc
      sent-ConfirmsWorking own (h ∷ l ∷ rest) o run good =
          let (end, m) = dial_plain_tcp connect resolve v.draws host port r.ips in
          with_connection-ConfirmsWorking (record r { ips = m }) _ _ _ _ end o
            (rw plain-eq dialed-Holds) (rw plain-eq dialed_from) run good

      padded-ConfirmsWorking :
          (q : Bytes) (o : DotOutcome E) (x : Result (DotError E) Padded)
          → dot_pad_and_send d resolve connect remote host port v r q x ≡ some o
          → o.qerr ≡ none
          → ConfirmsWorking connect port p o
      unfolding dot_pad_and_send dot_failed
      padded-ConfirmsWorking q o (err e) run good =
          cc (ap (λ (z : DotOutcome E). z.qerr) (some_eq run), good)
      padded-ConfirmsWorking q o (ok same_slice) run good = sent-ConfirmsWorking none q o run good
      padded-ConfirmsWorking q o (ok (new_slice b)) run good =
          sent-ConfirmsWorking (some q) b o run good

      -- Where connections report the address that was dialed, which is not nil, the host has a set in a sound
      -- map and the draws are places of it: when `doQuery` reports no error, the confirmed address of
      -- the set is one that has connected in this query, and the server's that is reported.
      pub dot_do_query-ConfirmsWorking :
          (q : Bytes) (o : DotOutcome E)
          → dot_do_query d resolve connect remote host port v q r ≡ some o
          → o.qerr ≡ none
          → ConfirmsWorking connect port p o
      unfolding dot_do_query dot_failed
      dot_do_query-ConfirmsWorking q o run good = elim (Bool-cases (ltb (length q) 2)) [
        | inl few ↦ cc (ap (λ (z : DotOutcome E). z.qerr) (some_eq (rw few at run)), good)
        | inr enough ↦ elim (Bool-cases (ltb v.now r.hangover_expiration)) [
          | inl rest ↦
              cc (ap (λ (z : DotOutcome E). z.qerr) (some_eq (simp (enough, rest) at run)), good)
          | inr awake ↦
              padded-ConfirmsWorking q o (add_edns_padding d q) (simp (enough, awake) at run) good
        ]
      ]
