-- ===== src/Dot/Make/Reached.antt =====
-- The states of a DoT resolver: from `NewResolver`, by queries that came to their end and by what the
-- queries in flight on other goroutines do to the shared map and to the hangover.
use Prim.Native.String.{String}
use localdns_go.Prelude.{ℕ, ◌≡◌, Option, some, List, length, Result, All}
use localdns_go.Prelude.Words.{Bytes}
use localdns_go.Net.Ip.{Ip}
use localdns_go.IpMap.Shuffle.{InRange}
use localdns_go.IpMap.Valid.{Op}
use localdns_go.IpMap.Store.{find, set_at, update}
use localdns_go.Doh.Message.{Dns}
use localdns_go.Doh.Make.Ready.{IsReady}
use localdns_go.Doh.Make.Stays.{AddsNoNil, update-IsReady}
use localdns_go.Doh.Query.{Resolver}
use localdns_go.Dot.Framing.{DotError}
use localdns_go.Dot.Query.Ready.{ReportsNoNil, dot_do_query-IsReady}
use localdns_go.Dot.Query.{DotEnv, DotOutcome, dot_do_query}

module _ {E Q H B C : Type 0} (d : Dns (DotError E) Q H B) (resolve : String → List Ip)
    (connect : ℕ → Ip → Result (DotError E) C) (remote : C → Option Ip) (host : String)
    (port : ℕ) where
  -- What `GetAll` draws in a query are places of the host's set, as it stands then.
  abbrev pub DrawsPlaces : DotEnv E → Resolver → Type 0
  DrawsPlaces v r =
      (p : ℕ) → find host r.ips ≡ some p → All (InRange (length (set_at p r.ips).ips)) v.draws

  pub data Reached (start : Resolver) : Resolver → Type 0 where
    made : Reached start start
    queried :
        {r : Resolver} (v : DotEnv E) (q : Bytes) (o : DotOutcome E)
        → Reached start r
        → dot_do_query d resolve connect remote host port v q r ≡ some o
        → Reached start o.state
    touched :
        {r : Resolver} (op : Op) (p : ℕ)
        → AddsNoNil op
        → Reached start r
        → Reached start (record r { ips = update op p r.ips })
    paused :
        {r : Resolver} (until : ℕ)
        → Reached start r
        → Reached start (record r { hangover_expiration = until })

  pub Reached-IsReady :
      {start r : Resolver}
      → ReportsNoNil remote
      → IsReady host start.ips
      → Reached start r
      → IsReady host r.ips
  Reached-IsReady real ready made = ready
  Reached-IsReady real ready (queried {r} v q o run e) =
      dot_do_query-IsReady d resolve connect remote host port real v q r o
        (Reached-IsReady real ready run) e
  Reached-IsReady real ready (touched {r} op p clean run) =
      update-IsReady op p host r.ips clean (Reached-IsReady real ready run)
  Reached-IsReady real ready (paused until run) = Reached-IsReady real ready run
