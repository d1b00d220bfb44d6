-- ===== src/Doh/Query/Effects.antt =====
-- What a query leaves behind: the caller's slice, the hangover, and the address sets.
use Prim.Native.String.{String}
use localdns_go.Prelude.{
  some_eq, ℕ, ◌+◌, ◌≤◌, ◌<◌, ◌≡◌, refl, ap, ◌∙◌, ◌⊎◌, inl, inr, Bool, true, false, Option, none,
  some, List, ◌∷◌, length, All, drop, ok, ltb, arith, if◌then◌else◌,
}
use localdns_go.Prelude.Words.{Bytes}
use localdns_go.Split.Frames.Fragments.{IsByte}
use localdns_go.Net.Ip.{Ip}
use localdns_go.IpMap.Valid.{Op, confirms, disconfirms}
use localdns_go.IpMap.Store.{Store}
use localdns_go.IpMap.Store.Stable.{IsSound, get-IsSound, update-IsSound}
use localdns_go.Doh.Message.{Dns}
use localdns_go.Doh.Padding.{same_slice, add_edns_padding, try_servfail}
use localdns_go.Doh.Query.{
  Status, http_error, bad_query, bad_response, internal_error, on_host, Cause, in_hangover,
  QueryError, QueryEnv, Resolver, Outcome, hangover_duration, do_query, failed_with, after_request,
  conclude, cleanup, at_server, is_send_failed, check_response,
}
use localdns_go.Doh.Query.Course.{
  short, resting, unpadded, unsent, sent, Sent, in_place, copied, Sent-restored, do_query-Course,
}

module _ {E Q H B : Type 0} (d : Dns E Q H B) (resolve : String → List Ip) (host : String)
    (v : QueryEnv E) (r : Resolver) where
  query-conclude :
      (host : String) (r : Resolver) (q query : Bytes) (x : Option Bytes × Option (QueryError E))
      → (conclude d resolve v host r q x query).query ≡ query
  unfolding conclude
  query-conclude host r q query (b, none) = refl
  query-conclude host r q query (b, some e) = refl

  -- If the HTTP request can be built, `doQuery` on a query of bytes leaves the caller's slice as
  -- it was, however the query ends.
  pub query-do_query :
      (q : Bytes) (o : Outcome E)
      → All IsByte q
      → v.request_error ≡ none
      → do_query d resolve host v q r ≡ some o
      → o.query ≡ q
  unfolding failed_with after_request
  query-do_query q o bytes fine run = elim (do_query-Course d resolve host v q r o run) [
    | short few e ↦ rw e refl
    | resting len w e ↦ rw e refl
    | unpadded x a e ↦ rw e refl
    | unsent own h l rest x s bad e ↦ cc
    | sent own h l rest s fine' rested e ↦ rw e (
        query-conclude _ _ _ _ (check_response _ _ _)
        ∙ Sent-restored d resolve host h l rest bytes s)
  ]

  in_place_only :
      {q b : Bytes} {own : Option Bytes}
      → Sent d resolve host q own b
      → add_edns_padding d q ≡ ok same_slice
      → (own ≡ none) × (b ≡ q)
  in_place_only (in_place a) h = (refl, refl)
  in_place_only (copied b a) h = cc

  -- Outside of a hangover, for a query that is padded already and for which no HTTP request can be
  -- built: if `doQuery` returns, the first two bytes of the caller's slice, its ID, are left zero.
  pub query_id_lost :
      (h l : ℕ) (tail : Bytes) (o : Outcome E) (e : E)
      → add_edns_padding d (h ∷ l ∷ tail) ≡ ok same_slice
      → v.request_error ≡ some e
      → r.hangover_expiration ≤ v.now
      → do_query d resolve host v (h ∷ l ∷ tail) r ≡ some o
      → o.query ≡ 0 ∷ 0 ∷ tail
  unfolding failed_with
  query_id_lost h l tail o e a bad awake run =
      elim (do_query-Course d resolve host v (h ∷ l ∷ tail) r o run) [
        | short few e ↦ absurd (omega arith)
        | resting len w e ↦ absurd (omega arith)
        | unpadded x a' e ↦ cc
        | unsent own h' l' rest x s bad' e ↦
            let (alone, whole) = in_place_only s a in rw e (cc (alone, ap (λ z. drop 2 z) whole))
        | sent own h' l' rest s fine rested e ↦ cc
      ]

  hangover-conclude :
      (host : String) (r' : Resolver) (q query : Bytes) (x : Option Bytes × Option (QueryError E))
      (e : QueryError E)
      → (conclude d resolve v host r' q x query).qerr ≡ some e
      → is_send_failed e.status ≡ false
      → (conclude d resolve v host r' q x query).state.hangover_expiration
        ≡ v.later + hangover_duration
  unfolding conclude
  hangover-conclude host r' q query (b, none) e h k = cc
  hangover-conclude host r' q query (b, some e') e h k =
      let same : is_send_failed e'.status ≡ false = rw (some_eq h) k in rw same refl

  abbrev pub IsReplyError : Status → Type 0
  IsReplyError s = (s ≡ http_error) ⊎ (s ≡ bad_response)

  ne-send_failed : (s : Status) → IsReplyError s → is_send_failed s ≡ false
  unfolding is_send_failed
  ne-send_failed s (inl e) = rw e refl
  ne-send_failed s (inr e) = rw e refl

  not_reply :
      (s : Status) (cause : Cause E) (e : QueryError E)
      → ◌≡◌ {A = Option (QueryError E)} (some (record { status = s; cause = cause })) (some e)
      → (s ≡ internal_error) ⊎ (s ≡ bad_query)
      → IsReplyError e.status
      → ⊥
  not_reply s cause e h k (inl r) =
      let same : s ≡ http_error = ap (λ (z : QueryError E). z.status) (some_eq h) ∙ r in
      elim k [ inl x ↦ cc | inr x ↦ cc ]
  not_reply s cause e h k (inr r) =
      let same : s ≡ bad_response = ap (λ (z : QueryError E). z.status) (some_eq h) ∙ r in
      elim k [ inl x ↦ cc | inr x ↦ cc ]

  expires :
      (q : Bytes) (o : Outcome E) (e : QueryError E)
      → r.hangover_expiration ≤ v.now
      → do_query d resolve host v q r ≡ some o
      → o.qerr ≡ some e
      → IsReplyError e.status
      → o.state.hangover_expiration ≡ v.later + hangover_duration
  unfolding failed_with after_request
  expires q o e awake run failure reply = elim (do_query-Course d resolve host v q r o run) [
    | short few e' ↦ absurd (not_reply bad_query _ e (rw e' at failure) (inr refl) reply)
    | resting len' w e' ↦ absurd (omega arith)
    | unpadded x a e' ↦ absurd (not_reply internal_error _ e (rw e' at failure) (inl refl) reply)
    | unsent own h l rest x s bad e' ↦
        absurd (not_reply internal_error _ e (rw e' at failure) (inl refl) reply)
    | sent own h l rest s fine rested e' ↦ rw e' (
        hangover-conclude _ _ _ _ (check_response _ _ _) e (rw e' at failure)
          (ne-send_failed e.status reply))
  ]

  -- A query outside of a hangover that ends with an HTTP error or a bad response starts one: a
  -- next query of two bytes or more, at a time before ten seconds after that end, is answered by a
  -- SERVFAIL with the error of the hangover, and changes neither the resolver nor the query, posts
  -- nothing and closes no connection.
  pub hangover_follows :
      (q : Bytes) (o : Outcome E) (e : QueryError E) (v' : QueryEnv E) (q' : Bytes)
      → r.hangover_expiration ≤ v.now
      → do_query d resolve host v q r ≡ some o
      → o.qerr ≡ some e
      → IsReplyError e.status
      → v'.now < v.later + hangover_duration
      → 2 ≤ length q'
      → do_query d resolve host v' q' o.state
        ≡ some (record {
          response = try_servfail d q';
          server = none;
          qerr = some (record { status = http_error; cause = in_hangover });
          state = o.state;
          query = q';
          posted = none;
          closed_conn = false;
        })
  unfolding do_query failed_with
  hangover_follows q o e v' q' awake run failure reply soon len =
      let few : ltb (length q') 2 ≡ false = ground arith in
      let until : o.state.hangover_expiration ≡ v.later + hangover_duration =
        expires q o e awake run failure reply in
      let rests : ltb v'.now o.state.hangover_expiration ≡ true = rw until (ground arith) in
      rw few (rw rests refl)

  host-IsSound :
      (op : Op) (name : String) {m : Store} → IsSound m → IsSound (on_host resolve op name m)
  host-IsSound op name h = update-IsSound op _ (get-IsSound name (resolve name) h)

  at_server-IsSound :
      (op : Ip → Op) (server : Option Ip) (name : String) {m : Store}
      → IsSound m
      → IsSound (at_server resolve op server name m)
  unfolding at_server
  at_server-IsSound op none name h = h
  at_server-IsSound op (some ip) name h = host-IsSound (op ip) name h

  cleanup-IsSound :
      (server : Option Ip) (name : String) (e : Option (QueryError E)) {m : Store}
      → IsSound m
      → IsSound (cleanup resolve server name e m)
  unfolding cleanup
  cleanup-IsSound server name none h = h
  cleanup-IsSound server name (some e) h = at_server-IsSound disconfirms server name h

  ips_kept :
      (b : Bool) (r' : Resolver) (t : ℕ)
      → (if b then r' else record r' { hangover_expiration = t }).ips ≡ r'.ips
  ips_kept true r' t = refl
  ips_kept false r' t = refl

  conclude-IsSound :
      (name : String) (r' : Resolver) (q query : Bytes) (x : Option Bytes × Option (QueryError E))
      → IsSound r'.ips
      → IsSound (conclude d resolve v name r' q x query).state.ips
  unfolding conclude
  conclude-IsSound name r' q query (b, some e) h = rw (ips_kept (is_send_failed e.status) r' _) h
  conclude-IsSound name r' q query (b, none) h = at_server-IsSound confirms v.server name h

  -- However a query ends, the resolver's address sets are valid behind it if they were before it, and
  -- its map points at sets that are there.
  pub do_query-IsSound :
      (q : Bytes) (o : Outcome E)
      → IsSound r.ips
      → do_query d resolve host v q r ≡ some o
      → IsSound o.state.ips
  unfolding failed_with after_request
  do_query-IsSound q o sound run = elim (do_query-Course d resolve host v q r o run) [
    | short few e ↦ rw e sound
    | resting len w e ↦ rw e sound
    | unpadded x a e ↦ rw e sound
    | unsent own h l rest x s bad e ↦ rw e sound
    | sent own h l rest s fine rested e ↦
        rw e (conclude-IsSound _ _ _ _ (check_response _ _ _) (cleanup-IsSound v.server _ _ sound))
  ]
