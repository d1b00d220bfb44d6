-- ===== src/Bridge/Sessions/Connect.antt =====
-- How a call that connects ends.
use localdns_go.Prelude.{
  ℕ, ◌+◌, ◌%◌, ◌^◌, ◌≡◌, refl, ◌∙◌, ◌⊎◌, inl, inr, Bool, true, false, some, List, [], ◌∷◌, ◌++◌,
  length, ◌==◌, Result, ok, err, Result-cases,
}
use localdns_go.Prelude.Ints.{ℤ, pos, negsuc}
use localdns_go.Prelude.Maps.{lookup, put, lookup-put_self}
use localdns_go.Tunnel.World.{World, Failure, call_failed}
use localdns_go.Tunnel.Engine.{Engine}
use localdns_go.Tunnel.Engine.Live.{IsLive, Starts}
use localdns_go.Tunnel.Session.{SessionCalls, connect_session, connect_with_resolver}
use localdns_go.Tunnel.Session.Live.{connect-Starts}
use localdns_go.Bridge.Sessions.{
  Bridge, Protocol, Servers, server_of, add_session, connect_to, connect, connect_code,
}

abbrev pub handle_after : {R : Type 0} → Bridge R → ℕ
handle_after b = (b.next_handle + 1) % 2 ^ 32

module _ {R E : Type 0} where
  -- A session was added under the next handle, with a new descriptor.
  abbrev pub Connected : R → Bridge R → Result (Failure E) ℕ × Bridge R → Type 0
  Connected r b y =
      (e : Engine R) × (w : World) × (y ≡ (
        ok (handle_after b),
        record {
          sessions = put ◌==◌ (handle_after b) e b.sessions;
          next_handle = handle_after b;
          world = w;
        },
      ))
      × IsLive r (length b.world.files) e
      × (w.files ≡ b.world.files ++ true ∷ [])

  -- An error was returned, and no descriptor is open that was not open before.
  abbrev pub NotConnected : Bridge R → Result (Failure E) ℕ × Bridge R → Type 0
  NotConnected b y =
      (f : Failure E) × (w : World) × (y ≡ (err f, record b { world = w }))
      × ((w.files ≡ b.world.files) ⊎ (w.files ≡ b.world.files ++ false ∷ []))

  add_session_cases :
      (r : R) (b : Bridge R) (after : List Bool) (x : Result (Failure E) (Engine R) × World)
      → (after ≡ b.world.files) ⊎ (after ≡ b.world.files ++ false ∷ [])
      → Starts r (length b.world.files) (b.world.files ++ true ∷ []) after x
      → Connected r b (add_session b x) ⊎ NotConnected b (add_session b x)
  unfolding add_session
  add_session_cases r b after (ok e, w) h s = inl (e, w, refl, s.0, s.1)
  add_session_cases r b after (err f, w) (inl h) s = inr (f, w, refl, inl (s ∙ h))
  add_session_cases r b after (err f, w) (inr h) s = inr (f, w, refl, inr (s ∙ h))

  -- ConnectDoH and ConnectDoT: the server was made and its session added under the next handle, or
  -- there is an error.
  pub connect_cases :
      (p : Protocol) (fd : ℤ) (servers : Servers R E) (v : SessionCalls E) (b : Bridge R)
      → v.tun_calls.wrapped ≡ true
      → ((r : R) × (server_of p servers ≡ ok r) × Connected r b (connect p fd servers v b))
        ⊎ NotConnected b (connect p fd servers v b)
  unfolding connect connect_to connect_session
  connect_cases p fd servers v b wraps = elim (Result-cases (server_of p servers)) [
    | inr (e, fails) ↦ inr (call_failed e, b.world, rw fails refl, inl refl)
    | inl (r, made) ↦
        let x = connect_with_resolver fd r true v b.world in
        let cases : Connected r b (add_session b x) ⊎ NotConnected b (add_session b x) =
          elim (connect-Starts fd r true v b.world wraps) [
            | inl s ↦ add_session_cases r b _ x (inl refl) s
            | inr s ↦ add_session_cases r b _ x (inr refl) s
          ] in
        rw made (elim cases [ inl c ↦ inl (r, refl, c) | inr n ↦ inr n ])
  ]

  -- The exported connect functions return 0 with, in `*handleOut`, the handle of a session that is in the
  -- table and runs with the server on a new descriptor; or they return -1, and `*handleOut` and the
  -- table are as before. os.NewFile has given a file for the descriptor of Dup.
  pub connect_code-session :
      (p : Protocol) (fd : ℤ) (servers : Servers R E) (v : SessionCalls E) (b : Bridge R) (out : ℕ)
      → v.tun_calls.wrapped ≡ true
      → let (result, b') = connect p fd servers v b in
        let (code, handle) = connect_code result out in
        ((code ≡ pos 0)
          × (r : R) × (e : Engine R) × (server_of p servers ≡ ok r)
          × (lookup ◌==◌ handle b'.sessions ≡ some e)
          × IsLive r (length b.world.files) e)
        ⊎ ((code ≡ negsuc 0) × (handle ≡ out) × (b'.sessions ≡ b.sessions))
  unfolding connect_code
  connect_code-session p fd servers v b out wraps = elim (connect_cases p fd servers v b wraps) [
    | inr (f, w, y, _) ↦ inr (rw y (refl, refl, refl))
    | inl (r, made, (e, w, y, l, _)) ↦
        inl (rw y (refl, r, e, made, lookup-put_self (handle_after b) e b.sessions, l))
  ]
