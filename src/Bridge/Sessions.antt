-- ===== src/Bridge/Sessions.antt =====
-- The session table of infra/android/bridge.go, and the codes that main/main.go returns. The calls run one
-- at a time. How the making of a server ends is an argument, for a resolver type `R`.
pub mod Owned
pub mod Connect
pub mod Runs
pub mod Views
pub mod Usable
use localdns_go.Prelude.{
  ℕ, ◌+◌, ◌%◌, ◌^◌, Bool, true, Option, none, some, List, [], ◌∷◌, ◌==◌, Result, ok, err,
}
use localdns_go.Prelude.Ints.{ℤ, pos, negsuc}
use localdns_go.Prelude.Maps.{lookup, put, remove}
use localdns_go.Tunnel.World.{World, Failure, session_not_found, call_failed}
use localdns_go.Tunnel.Engine.{Engine, disconnect_engine}
use localdns_go.Tunnel.Session.{SessionCalls, set_server, connect_session}

-- The package's variables, and what the sessions hold of the system. `next_handle` is the bit pattern of
-- an int32.
pub record Bridge (R : Type 0) : Type 0 where
  pub sessions : List (ℕ × Engine R)
  pub next_handle : ℕ
  pub world : World

abbrev pub new_bridge : {R : Type 0} → Bridge R
new_bridge = record { sessions = []; next_handle = 1; world = record { files = []; stacks = [] } }

pub data Protocol : Type 0 where
  over_https : Protocol
  over_tls : Protocol

-- How NewDoHServer and NewDoTServer end.
pub record Servers (R E : Type 0) : Type 0 where
  pub doh_server : Result E R
  pub dot_server : Result E R

module _ {R E : Type 0} where
  pub server_of : Protocol → Servers R E → Result E R
  server_of over_https v = v.doh_server
  server_of over_tls v = v.dot_server

  pub add_session :
      Bridge R → Result (Failure E) (Engine R) × World → Result (Failure E) ℕ × Bridge R
  add_session b (err f, w) = (err f, record b { world = w })
  add_session b (ok e, w) =
      let handle = (b.next_handle + 1) % 2 ^ 32 in
      (
        ok handle,
        record { sessions = put ◌==◌ handle e b.sessions; next_handle = handle; world = w },
      )

  pub connect_to : ℤ → SessionCalls E → Bridge R → Result E R → Result (Failure E) ℕ × Bridge R
  connect_to fd v b (err e) = (err (call_failed e), b)
  connect_to fd v b (ok r) = add_session b (connect_session fd (some r) true v b.world)

  -- ConnectDoH and ConnectDoT
  unfoldable pub connect :
      Protocol → ℤ → Servers R E → SessionCalls E → Bridge R → Result (Failure E) ℕ × Bridge R
  unfolding add_session connect_to server_of connect_session
  connect p fd servers v b = connect_to fd v b (server_of p servers)

  pub replace_server : ℕ → Engine R → Bridge R → Result E R → Option (Failure E) × Bridge R
  replace_server handle e b (err f) = (some (call_failed f), b)
  replace_server handle e b (ok r) =
      (none, record b { sessions = put ◌==◌ handle (set_server (some r) e) b.sessions })

  -- SetDoHServer and SetDoTServer: the error, if any.
  unfoldable pub set_session_server :
      Protocol → ℕ → Servers R E → Bridge R → Option (Failure E) × Bridge R
  unfolding replace_server server_of set_server
  set_session_server p handle servers b = elim (lookup ◌==◌ handle b.sessions) [
    | none ↦ (some session_not_found, b)
    | some e ↦ replace_server handle e b (server_of p servers)
  ]

module _ {R : Type 0} where
  pub end_session : ℕ → Option (Engine R) → Bridge R → Bridge R
  end_session handle none b = b
  end_session handle (some e) b = record b {
    sessions = remove ◌==◌ handle b.sessions;
    world = (disconnect_engine e b.world).1;
  }

  -- Disconnect
  unfoldable pub disconnect : ℕ → Bridge R → Bridge R
  unfolding end_session
  disconnect handle b = end_session handle (lookup ◌==◌ handle b.sessions) b

-- What the exported functions return, and what `*handleOut` is behind the call.
unfoldable pub connect_code : {E : Type 0} → Result (Failure E) ℕ → ℕ → ℤ × ℕ
connect_code (err f) handle_out = (negsuc 0, handle_out)
connect_code (ok handle) handle_out = (pos 0, handle)

unfoldable pub error_code : {E : Type 0} → Option (Failure E) → ℤ
error_code (some f) = negsuc 0
error_code none = pos 0

-- A call of the platform.
pub data Call (R E : Type 0) : Type 0 where
  connects : Protocol → ℤ → Servers R E → SessionCalls E → Call R E
  disconnects : ℕ → Call R E
  sets : Protocol → ℕ → Servers R E → Call R E

module _ {R E : Type 0} where
  unfoldable pub serve : Call R E → Bridge R → Bridge R
  serve (connects p fd servers v) b = (connect p fd servers v b).1
  serve (disconnects handle) b = disconnect handle b
  serve (sets p handle servers) b = (set_session_server p handle servers b).1

  unfoldable pub serve_all : List (Call R E) → Bridge R → Bridge R
  serve_all [] b = b
  serve_all (c ∷ cs) b = serve_all cs (serve c b)
