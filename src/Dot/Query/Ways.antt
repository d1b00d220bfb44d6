-- ===== src/Dot/Query/Ways.antt =====
-- The ways that a query takes.
use Prim.Native.String.{String}
use mathlib.Core.Option
use localdns_go.Prelude.{
  some_eq, ℕ, ◌+◌, ◌*◌, ◌≡◌, refl, sym, ap, inl, inr, Option, none, some, List, [], ◌∷◌, length,
  All, Result, ok, err, ltb, Bool-cases,
}
use localdns_go.Prelude.Words.{Bytes, hi_byte, lo_byte}
use localdns_go.Split.Frames.Fragments.{IsByte}
use localdns_go.Net.Ip.{Ip}
use localdns_go.Doh.Message.{Dns}
use localdns_go.Doh.Padding.{Padded, same_slice, new_slice, add_edns_padding}
use localdns_go.Doh.Dial.{DialResult, connected, failed}
use localdns_go.Doh.Query.{Status, Cause, QueryError, Resolver}
use localdns_go.Doh.Query.Course.{Sent, in_place, copied, Sent-restored}
use localdns_go.Dot.Framing.{DotError}
use localdns_go.Dot.Query.{
  DotEnv, DotOutcome, dial_plain_tcp, transfer, dot_failed, after_transfer, with_connection,
  dot_send_padded, dot_pad_and_send, dot_do_query,
}

module _ {E Q H B : Type 0} (d : Dns (DotError E) Q H B) (resolve : String → List Ip) where
  module _ {C : Type 0} (connect : ℕ → Ip → Result (DotError E) C) (remote : C → Option Ip)
      (host : String) (port : ℕ) (v : DotEnv E) (r : Resolver) where
    -- The two ways of a query: it ends without a connection, or with the use of one.
    pub data DotCourse (q : Bytes) (o : DotOutcome E) : Type 0 where
      early :
          (e : QueryError (DotError E)) (query : Bytes)
          → (All IsByte q → query ≡ q)
          → o.query ≡ query
          → o.opened ≡ 0
          → o.closed ≡ 0
          → o.wrote ≡ none
          → o.qerr ≡ some e
          → DotCourse q o
      late :
          (own : Option Bytes) (h l : ℕ) (rest : Bytes) (server : Option Ip) (r' : Resolver)
          → Sent d resolve host q own (h ∷ l ∷ rest)
          → o
            ≡ after_transfer d resolve v host r'
                (h * 256 + l)
                (hi_byte (h * 256 + l) ∷ lo_byte (h * 256 + l) ∷ rest)
                (Option.get_or own (hi_byte (h * 256 + l) ∷ lo_byte (h * 256 + l) ∷ rest))
                (transfer v server (0 ∷ 0 ∷ rest))
          → DotCourse q o

    with_connection-DotCourse :
        (q : Bytes) (o : DotOutcome E) (own : Option Bytes) (h l : ℕ) (rest : Bytes) (r' : Resolver)
        (end : DialResult (DotError E) C)
        → Sent d resolve host q own (h ∷ l ∷ rest)
        → with_connection d resolve connect remote host v r'
            (h * 256 + l)
            (hi_byte (h * 256 + l) ∷ lo_byte (h * 256 + l) ∷ rest)
            (0 ∷ 0 ∷ rest)
            (Option.get_or own (hi_byte (h * 256 + l) ∷ lo_byte (h * 256 + l) ∷ rest))
            end
          ≡ some o
        → DotCourse q o
    unfolding with_connection dot_failed
    with_connection-DotCourse q o own h l rest r' (connected c) s e =
        late own h l rest (remote c) r' s (some_eq (sym e))
    with_connection-DotCourse q o own h l rest r' (failed (some x)) s e =
        let same = some_eq (sym e) in
        early _ _ (λ b. Sent-restored d resolve host h l rest b s)
          (ap (λ (z : DotOutcome E). z.query) same) (ap (λ (z : DotOutcome E). z.opened) same)
          (ap (λ (z : DotOutcome E). z.closed) same) (ap (λ (z : DotOutcome E). z.wrote) same)
          (ap (λ (z : DotOutcome E). z.qerr) same)
    with_connection-DotCourse q o own h l rest r' (failed none) s e = cc

    dot_send_padded-DotCourse :
        (q : Bytes) (o : DotOutcome E) (own : Option Bytes) (b : Bytes)
        → Sent d resolve host q own b
        → dot_send_padded d resolve connect remote host port v r own b ≡ some o
        → DotCourse q o
    unfolding dot_send_padded
    dot_send_padded-DotCourse q o own [] s e = cc
    dot_send_padded-DotCourse q o own (h ∷ []) s e = cc
    dot_send_padded-DotCourse q o own (h ∷ l ∷ rest) s e =
        with_connection-DotCourse q o own h l rest _
          ((dial_plain_tcp connect resolve v.draws host port r.ips).0) s e

    given_up :
        (q : Bytes) (o : DotOutcome E) (status : Status) (cause : Cause (DotError E))
        (response : Option Bytes)
        → o ≡ dot_failed d resolve status cause response none r q 0 0
        → DotCourse q o
    unfolding dot_failed
    given_up q o status cause response e =
        early (record { status = status; cause = cause }) q (λ b. refl)
          (ap (λ (z : DotOutcome E). z.query) e) (ap (λ (z : DotOutcome E). z.opened) e)
          (ap (λ (z : DotOutcome E). z.closed) e) (ap (λ (z : DotOutcome E). z.wrote) e)
          (ap (λ (z : DotOutcome E). z.qerr) e)

    padded-DotCourse :
        (q : Bytes) (o : DotOutcome E) (p : Result (DotError E) Padded)
        → add_edns_padding d q ≡ p
        → dot_pad_and_send d resolve connect remote host port v r q p ≡ some o
        → DotCourse q o
    unfolding dot_pad_and_send
    padded-DotCourse q o (err x) a e = given_up q o _ _ _ (some_eq (sym e))
    padded-DotCourse q o (ok same_slice) a e = dot_send_padded-DotCourse q o none q (in_place a) e
    padded-DotCourse q o (ok (new_slice b)) a e =
        dot_send_padded-DotCourse q o (some q) b (copied b a) e

    pub dot_do_query-DotCourse :
        (q : Bytes) (o : DotOutcome E)
        → dot_do_query d resolve connect remote host port v q r ≡ some o
        → DotCourse q o
    unfolding dot_do_query
    dot_do_query-DotCourse q o e = elim (Bool-cases (ltb (length q) 2)) [
      | inl few ↦ given_up q o _ _ _ (some_eq (rw few at (sym e)))
      | inr enough ↦ elim (Bool-cases (ltb v.now r.hangover_expiration)) [
        | inl rest ↦ given_up q o _ _ _ (some_eq (simp (enough, rest) at (sym e)))
        | inr awake ↦ padded-DotCourse q o (add_edns_padding d q) refl (simp (enough, awake) at e)
      ]
    ]
