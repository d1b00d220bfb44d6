-- ===== src/Bridge/Sessions/Views.antt =====
-- The table as its clients see it: which server answers the queries of which handle.
use localdns_go.Prelude.{
  ℕ, ◌≡◌, refl, sym, ap, ◌∙◌, fun_ext, inl, inr, Bool, true, false, Option, none, some, List, [],
  ◌∷◌, ◌==◌, if◌then◌else◌, Result, ok, err, Option-cases, Result-cases, Bool-cases, ==_iff, All,
}
use mathlib.Core.Option
use localdns_go.Prelude.Ints.{ℤ}
use localdns_go.Prelude.Maps.{lookup, put, lookup-put, lookup-remove}
use localdns_go.Relay.Outbound.{set_dns}
use localdns_go.Relay.Udp.{set_nat_dns}
use localdns_go.Tunnel.World.{Failure}
use localdns_go.Tunnel.Engine.{Engine, set_engine_dns}
use localdns_go.Tunnel.Engine.Live.{IsLive}
use localdns_go.Tunnel.Session.{SessionCalls, set_server}
use localdns_go.Bridge.Sessions.{
  Bridge, new_bridge, Protocol, Servers, server_of, connect, disconnect, end_session,
  set_session_server, replace_server, Call, connects, disconnects, sets, serve, serve_all,
}
use localdns_go.Bridge.Sessions.Connect.{connect_cases, handle_after}
use localdns_go.Bridge.Sessions.Runs.{Wraps}

-- The abstract table: a server for each handle in use.
abbrev pub Directory : Type 0 → Type 0
Directory R = ℕ → Option R

abbrev pub handle_of : {E : Type 0} → Result (Failure E) ℕ → Option ℕ
handle_of (ok h) = some h
handle_of (err f) = none

module _ {R E : Type 0} where
  abbrev pub answer_with : Result E R → Option R → Option R
  answer_with (ok r) old = some r
  answer_with (err f) old = old

  -- A server for a handle in use, if it was made.
  abbrev pub replaced : Result E R → Option R → Option R
  replaced made none = none
  replaced made (some r) = answer_with made (some r)

  -- What a call does to it; `given` is the handle that a connecting call returned, if any.
  unfoldable pub note_call : Call R E → Option ℕ → Directory R → Directory R
  note_call (connects p fd servers v) none d k = d k
  note_call (connects p fd servers v) (some h) d k =
      if h == k then answer_with (server_of p servers) none else d k
  note_call (disconnects h) given d k = if h == k then none else d k
  note_call (sets p h servers) given d k =
      if h == k then replaced (server_of p servers) (d k) else d k

  unfoldable pub given_by : Call R E → Bridge R → Option ℕ
  given_by (connects p fd servers v) b = handle_of (connect p fd servers v b).0
  given_by (disconnects h) b = none
  given_by (sets p h servers) b = none

  unfoldable pub note_calls : List (Call R E) → Bridge R → Directory R → Directory R
  note_calls [] b d = d
  note_calls (c ∷ cs) b d = note_calls cs (serve c b) (note_call c (given_by c b) d)

-- The servers that the TCP flows and the UDP flows of the sessions use.
module _ {R : Type 0} where
  abbrev pub tcp_server : Engine R → R
  tcp_server e = e.outbound.dns

  abbrev pub udp_server : Engine R → R
  udp_server e = e.udp_nat.dns

  abbrev pub view : (Engine R → R) → Bridge R → Directory R
  view server b k = Option.map server (lookup ◌==◌ k b.sessions)

-- A field that starts as the server of the session, and that a change of server sets.
record IsServer {R : Type 0} (server : Engine R → R) : Type 0 where
  from_start : (r : R) (file : ℕ) (e : Engine R) → IsLive r file e → server e ≡ r
  from_change : (r : R) (e : Engine R) → server (set_server (some r) e) ≡ r

tcp_server-IsServer : {R : Type 0} → IsServer (tcp_server {R = R})
unfolding set_server set_engine_dns set_dns
tcp_server-IsServer = record { from_start = λ r file e l. l.tcp_dns; from_change = λ r e. refl }

udp_server-IsServer : {R : Type 0} → IsServer (udp_server {R = R})
unfolding set_server set_engine_dns set_nat_dns
udp_server-IsServer = record { from_start = λ r file e l. l.udp_dns; from_change = λ r e. refl }

map-if :
    {R S : Type 0} (f : R → S) (b : Bool) (x y : Option R)
    → Option.map f (if b then x else y) ≡ (if b then Option.map f x else Option.map f y)
map-if f true x y = refl
map-if f false x y = refl

replaced-err : {R E : Type 0} (f : E) (x : Option R) → replaced (err f) x ≡ x
replaced-err f none = refl
replaced-err f (some r) = refl

-- At the handle itself, and elsewhere.
at_handle :
    {R : Type 0} (h k : ℕ) (x y z : Option R)
    → (h ≡ k → z ≡ x)
    → (z ≡ y)
    → z ≡ (if h == k then x else y)
at_handle h k x y z same other = elim (Bool-cases (h == k)) [
  | inl t ↦ rw t (same ((==_iff h k).0 t))
  | inr t ↦ rw t other
]

module _ {R : Type 0} (server : Engine R → R) where
  view-at :
      (b : Bridge R) (h k : ℕ) (x : Option (Engine R))
      → lookup ◌==◌ h b.sessions ≡ x
      → h ≡ k
      → view server b k ≡ Option.map server x
  view-at b h k x found q =
      ap (λ j. Option.map server (lookup ◌==◌ j b.sessions)) (sym q) ∙ ap (Option.map server) found

  view-put :
      (h k : ℕ) (e : Engine R) (m : List (ℕ × Engine R))
      → Option.map server (lookup ◌==◌ k (put ◌==◌ h e m))
        ≡ (if h == k then some (server e) else Option.map server (lookup ◌==◌ k m))
  view-put h k e m =
      ap (Option.map server) (lookup-put h k e m)
      ∙ map-if server (h == k) (some e) (lookup ◌==◌ k m)

  view-disconnect :
      (h k : ℕ) (b : Bridge R)
      → view server (disconnect h b) k ≡ (if h == k then none else view server b k)
  unfolding disconnect end_session
  view-disconnect h k b = elim (Option-cases (lookup ◌==◌ h b.sessions)) [
    | inr (e, found) ↦
        rw (found, disconnect)
          (ap (Option.map server) (lookup-remove h k b.sessions)
            ∙ map-if server (h == k) none (lookup ◌==◌ k b.sessions))
    | inl missing ↦
        rw (missing, disconnect) (at_handle h k none _ _ (view-at b h k none missing) refl)
  ]

module _ {R E : Type 0} (server : Engine R → R) (is : IsServer server) where
  view-sets :
      (p : Protocol) (h k : ℕ) (servers : Servers R E) (b : Bridge R)
      → view server (set_session_server p h servers b).1 k
        ≡ (if h == k then replaced (server_of p servers) (view server b k) else view server b k)
  unfolding set_session_server replace_server
  view-sets p h k servers b = elim (Option-cases (lookup ◌==◌ h b.sessions)) [
    | inl missing ↦
        rw (missing, set_session_server)
          (at_handle h k _ _ _
            (λ q.
              view-at server b h k none missing q
              ∙ sym (ap (replaced (server_of p servers)) (view-at server b h k none missing q)))
            refl)
    | inr (e, found) ↦ elim (Result-cases (server_of p servers)) [
      | inr (f, fails) ↦
          rw (found, fails, set_session_server, replace_server)
            (at_handle h k _ _ _ (λ q. sym (replaced-err f (view server b k))) refl)
      | inl (r, made) ↦
          rw (found, made, set_session_server, replace_server)
            (view-put server h k (set_server (some r) e) b.sessions
              ∙ if_cong h k (some (server (set_server (some r) e))) _ _ (λ q.
                ap some (is.from_change r e)
                ∙ sym (ap (replaced {E = E} (ok r)) (view-at server b h k (some e) found q))))
    ]
  ]
    where
      if_cong :
          (h k : ℕ) (x y z : Option R)
          → (h ≡ k → x ≡ y)
          → (if h == k then x else z) ≡ (if h == k then y else z)
      if_cong h k x y z same = elim (Bool-cases (h == k)) [
        | inl t ↦ rw t (same ((==_iff h k).0 t))
        | inr t ↦ rw t refl
      ]

  view-connects :
      (p : Protocol) (fd : ℤ) (servers : Servers R E) (v : SessionCalls E) (b : Bridge R) (k : ℕ)
      → v.tun_calls.wrapped ≡ true
      → view server (connect p fd servers v b).1 k
        ≡ note_call
            (connects p fd servers v)
            (handle_of (connect p fd servers v b).0)
            (view server b)
            k
  unfolding note_call
  view-connects p fd servers v b k wraps = elim (connect_cases p fd servers v b wraps) [
    | inr (f, w, y, _) ↦ rw y refl
    | inl (r, made, (e, w, y, l, _)) ↦
        rw (y, made)
          (view-put server (handle_after b) k e b.sessions
            ∙ ap (λ z. if handle_after b == k then some z else view server b k)
                (is.from_start r _ e l))
  ]

  serve-note_call :
      (c : Call R E) (b : Bridge R) (k : ℕ)
      → Wraps c
      → view server (serve c b) k ≡ note_call c (given_by c b) (view server b) k
  unfolding serve given_by note_call
  serve-note_call (connects p fd servers v) b k wraps = view-connects p fd servers v b k wraps
  serve-note_call (disconnects h) b k wraps = view-disconnect server h k b
  serve-note_call (sets p h servers) b k wraps = view-sets p h k servers b

  serve_all-note_calls :
      (cs : List (Call R E)) (b : Bridge R) (k : ℕ)
      → All Wraps cs
      → view server (serve_all cs b) k ≡ note_calls cs b (view server b) k
  unfolding serve_all note_calls
  serve_all-note_calls [] b k wraps = refl
  serve_all-note_calls (c ∷ cs) b k wraps =
      serve_all-note_calls cs (serve c b) k wraps.1
      ∙ ap (λ d. note_calls cs (serve c b) d k) (fun_ext (λ j. serve-note_call c b j wraps.0))

module _ {R E : Type 0} where
  -- The table implements the abstract directory of servers: behind any calls from the start of the
  -- process, with any errors, the TCP flows and the UDP flows of the session of each handle use the
  -- server that the directory gives, which connecting and successful changes set and disconnecting
  -- deletes; other handles are not touched. os.NewFile gives files for the descriptors of Dup.
  pub serve_all-refines :
      (cs : List (Call R E)) (k : ℕ)
      → All Wraps cs
      → (view tcp_server (serve_all cs new_bridge) k ≡ note_calls cs new_bridge (λ j. none) k)
        × (view udp_server (serve_all cs new_bridge) k ≡ note_calls cs new_bridge (λ j. none) k)
  unfolding lookup
  serve_all-refines cs k wraps = (
    serve_all-note_calls tcp_server tcp_server-IsServer cs new_bridge k wraps,
    serve_all-note_calls udp_server udp_server-IsServer cs new_bridge k wraps,
  )
