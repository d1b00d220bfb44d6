-- ===== src/Bridge/Sessions/Runs.antt =====
-- Runs of calls from the start of the process.
use localdns_go.Prelude.{
  ℕ, suc, ◌+◌, ◌^◌, ◌≤◌, ◌<◌, ◌≡◌, ◌≢◌, sym, subst, inl, inr, true, none, some, List, [], ◌∷◌,
  length, ◌==◌, Option-cases, Result-cases, All, arith, get_elem?,
}
use localdns_go.Prelude.Ints.{ℤ}
use localdns_go.Prelude.Maps.{lookup, put, remove, lookup-put_cases, lookup-remove_cases}
use localdns_go.Tunnel.Engine.{Engine}
use localdns_go.Tunnel.Engine.Live.{set_engine_dns-IsLive, files-disconnect_engine}
use localdns_go.Tunnel.Session.{SessionCalls, set_server}
use localdns_go.Bridge.Sessions.{
  Bridge, new_bridge, Protocol, Servers, server_of, connect, disconnect, end_session,
  set_session_server, replace_server, Call, connects, disconnects, sets, serve, serve_all,
}
use localdns_go.Bridge.Sessions.Owned.{
  IsOwned, IsOwned-closed, IsOwned-put_new, IsOwned-put_same, IsOwned-remove,
}
use localdns_go.Bridge.Sessions.Connect.{connect_cases, handle_after}

module _ {R : Type 0} where
  -- After at most `k` calls: the handles in use were given out, and each open descriptor has its session.
  record IsSound (k : ℕ) (b : Bridge R) : Type 0 where
    bound : b.next_handle ≤ 1 + k
    known : (h : ℕ) (e : Engine R) → lookup ◌==◌ h b.sessions ≡ some e → h ≤ b.next_handle
    owned : IsOwned b.world.files b.sessions

  later : (k : ℕ) (b : Bridge R) → IsSound k b → IsSound (suc k) b
  later k b s = record { bound = omega (arith, s.bound); known = s.known; owned = s.owned }

  disconnect-IsSound : (k h : ℕ) (b : Bridge R) → IsSound k b → IsSound k (disconnect h b)
  unfolding disconnect end_session
  disconnect-IsSound k h b s = elim (Option-cases (lookup ◌==◌ h b.sessions)) [
    | inl missing ↦ rw missing s
    | inr (e, found) ↦
        let (r, file, l, up) = s.owned.live h e found in
        rw found (record {
          bound = s.bound;
          known = λ j e' there. s.known j e' (lookup-remove_cases h j e' b.sessions there).1;
          owned =
              subst (λ z. IsOwned z (remove ◌==◌ h b.sessions))
                (sym (files-disconnect_engine r file e l b.world))
                (IsOwned-remove b.world.files b.sessions h file s.owned (e, r, found, l));
        })
  ]

  new_bridge-IsSound : IsSound 0 (new_bridge {R = R})
  unfolding lookup
  new_bridge-IsSound = record {
    bound = omega arith;
    known = λ h e there. cc;
    owned = record {
      live = λ h e there. cc;
      owner = λ file up. cc;
      alone = λ h k file a b. cc (a.2);
    };
  }

module _ {R E : Type 0} where
  -- os.NewFile gives a file for each descriptor that Dup returned.
  abbrev pub Wraps : Call R E → Type 0
  Wraps (connects p fd servers v) = v.tun_calls.wrapped ≡ true
  Wraps (disconnects h) = Unit
  Wraps (sets p h servers) = Unit

  sets-IsSound :
      (k : ℕ) (p : Protocol) (h : ℕ) (servers : Servers R E) (b : Bridge R)
      → IsSound k b
      → IsSound k (set_session_server p h servers b).1
  unfolding set_session_server replace_server set_server
  sets-IsSound k p h servers b s = elim (Option-cases (lookup ◌==◌ h b.sessions)) [
    | inl missing ↦ rw (missing, set_session_server) s
    | inr (e, found) ↦
        rw (found, set_session_server)
          (elim (Result-cases (server_of p servers)) [
            | inr (f, fails) ↦ rw fails s
            | inl (r, made) ↦ rw made (record {
              bound = s.bound;
              known = λ j e' there. elim (lookup-put_cases h j _ e' b.sessions there) [
                | inl (same, _) ↦ subst (λ z. z ≤ b.next_handle) same (s.known h e found)
                | inr (_, before) ↦ s.known j e' before
              ];
              owned =
                  IsOwned-put_same b.world.files b.sessions h r e _ s.owned found
                    (λ r0 file l. set_engine_dns-IsLive r0 file e l r);
            })
          ])
  ]

  connects-IsSound :
      (k : ℕ) (p : Protocol) (fd : ℤ) (servers : Servers R E) (v : SessionCalls E) (b : Bridge R)
      → k + 2 < 2 ^ 32
      → v.tun_calls.wrapped ≡ true
      → IsSound k b
      → IsSound (suc k) (connect p fd servers v b).1
  connects-IsSound k p fd servers v b few wraps s = elim (connect_cases p fd servers v b wraps) [
    | inr (f, w, y, inl same) ↦ rw y (record {
      bound = omega (arith, s.bound);
      known = s.known;
      owned = subst (λ z. IsOwned z b.sessions) (sym same) s.owned;
    })
    | inr (f, w, y, inr closed) ↦ rw y (record {
      bound = omega (arith, s.bound);
      known = s.known;
      owned =
          subst (λ z. IsOwned z b.sessions) (sym closed)
            (IsOwned-closed b.world.files b.sessions s.owned);
    })
    | inl (r, _, (e, w, y, l, opened)) ↦
        let next : handle_after b ≡ b.next_handle + 1 = omega (arith, s.bound, few) in
        rw y (record {
          bound = omega (arith, s.bound, next);
          known = λ j e' there. elim (lookup-put_cases (handle_after b) j e e' b.sessions there) [
            | inl (same, _) ↦ omega (arith, same)
            | inr (_, before) ↦ let h = s.known j e' before in omega (arith, h, next)
          ];
          owned =
              subst (λ z. IsOwned z (put ◌==◌ (handle_after b) e b.sessions)) (sym opened)
                (IsOwned-put_new b.world.files b.sessions (handle_after b) r e s.owned
                  (fresh b next s) l);
        })
  ]
    where
      fresh :
          (b : Bridge R)
          → handle_after b ≡ b.next_handle + 1
          → IsSound k b
          → lookup ◌==◌ (handle_after b) b.sessions ≡ none
      fresh b next s = elim (Option-cases (lookup ◌==◌ (handle_after b) b.sessions)) [
        | inl missing ↦ missing
        | inr (e, found) ↦
            let h = s.known (handle_after b) e found in absurd (omega (arith, h, next))
      ]

  serve-IsSound :
      (k : ℕ) (c : Call R E) (b : Bridge R)
      → k + 2 < 2 ^ 32
      → Wraps c
      → IsSound k b
      → IsSound (suc k) (serve c b)
  unfolding serve
  serve-IsSound k (connects p fd servers v) b few wraps s =
      connects-IsSound k p fd servers v b few wraps s
  serve-IsSound k (disconnects h) b few wraps s = later k _ (disconnect-IsSound k h b s)
  serve-IsSound k (sets p h servers) b few wraps s = later k _ (sets-IsSound k p h servers b s)

  serve_all-IsSound :
      (k : ℕ) (cs : List (Call R E)) (b : Bridge R)
      → k + length cs + 1 < 2 ^ 32
      → All Wraps cs
      → IsSound k b
      → IsSound (k + length cs) (serve_all cs b)
  unfolding serve_all
  serve_all-IsSound k [] b few wraps s = subst (λ z. IsSound z b) (omega arith) s
  serve_all-IsSound k (c ∷ cs) b few wraps s =
      subst (λ z. IsSound z (serve_all cs (serve c b))) (omega arith)
        (serve_all-IsSound (suc k) cs (serve c b) (omega (arith, few)) wraps.1
          (serve-IsSound k c b (omega (arith, few)) wraps.0 s))

  -- Any calls of the platform, fewer than 2^32 - 1, in any order and with any errors, from the start of
  -- the process; os.NewFile gives files for the descriptors of Dup. The TUN descriptors that are open
  -- behind them are those of the sessions in the table: each session runs on an open descriptor of its
  -- own, and no open descriptor is without its session.
  pub serve_all-IsOwned :
      (cs : List (Call R E))
      → length cs + 1 < 2 ^ 32
      → All Wraps cs
      → IsOwned (serve_all cs new_bridge).world.files (serve_all cs new_bridge).sessions
  serve_all-IsOwned cs few wraps =
      (serve_all-IsSound 0 cs new_bridge (omega (arith, few)) wraps new_bridge-IsSound).owned

  -- When the table is empty behind such calls, no descriptor is open.
  pub serve_all-closes :
      (cs : List (Call R E)) (file : ℕ)
      → length cs + 1 < 2 ^ 32
      → All Wraps cs
      → ((h : ℕ) → lookup ◌==◌ h (serve_all cs new_bridge).sessions ≡ none)
      → get_elem? (serve_all cs new_bridge).world.files file ≢ some true
  serve_all-closes cs file few wraps gone up =
      let (h, (e, r, found, l)) = (serve_all-IsOwned cs few wraps).owner file up in
      cc (found, gone h)
