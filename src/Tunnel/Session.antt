-- ===== src/Tunnel/Session.antt =====
-- app/session: tunnel.go, probe.go, and the probe query of doh.go. A DoHServer or a DoTServer is its
-- resolver, `none` a nil pointer; a Session is its engine.
pub mod Probed
pub mod Live
use Prim.Native.String.{String}
use text.Mathlib.Text.{◌==◌ as str_eq}
use localdns_go.Net.Ip.{Ip}
use localdns_go.Doh.Make.{Url, MakeError, Made, new_doh_resolver}
use localdns_go.Dot.Make.{new_dot_resolver}
use localdns_go.Prelude.{
  ℕ, Bool, Option, none, some, List, [], ◌∷◌, length, ◌==◌, if◌then◌else◌, Result, ok, err,
}
use localdns_go.Prelude.Ints.{ℤ}
use localdns_go.Prelude.Words.{Bytes}
use localdns_go.Doh.Service.{Answer, Service}
use localdns_go.Tunnel.World.{
  World, Failure, dns_required, invalid_response, call_failed, TunCalls, make_tun_device_from_fd,
  close_file,
}
use localdns_go.Tunnel.Engine.{Engine, EngineCalls, new_engine, tun_file, set_engine_dns}

-- `ipsStr`: a list that `split` cuts at the commas; the empty string is the empty list.
unfoldable pub server_ips : (String → List String) → String → List String
server_ips split ips_str = if str_eq ips_str "" then [] else split ips_str

module _ {E : Type 0} (parse : String → Result E Url) (atoi : String → Result E ℕ)
    (resolve : String → List Ip) (split : String → List String) where
  -- NewDoHServer and NewDoTServer, over the parameters of Doh/Make.
  unfoldable pub new_doh_server : String → String → Result (MakeError E) Made
  unfolding server_ips
  new_doh_server url ips_str = new_doh_resolver parse atoi resolve url (server_ips split ips_str)

  unfoldable pub new_dot_server : String → String → Result (MakeError E) Made
  unfolding server_ips
  new_dot_server url ips_str = new_dot_resolver parse atoi resolve url (server_ips split ips_str)

-- dnsProbeQuery
abbrev pub dns_probe_query : Bytes
dns_probe_query =
    0 ∷ 0 ∷ 1 ∷ 0 ∷ 0 ∷ 1 ∷ 0 ∷ 0 ∷ 0 ∷ 0 ∷ 0 ∷ 0 ∷ 7 ∷ 121 ∷ 111 ∷ 117 ∷ 116 ∷ 117 ∷ 98 ∷ 101 ∷ 3
    ∷ 99 ∷ 111 ∷ 109 ∷ 0 ∷ 0 ∷ 1 ∷ 0 ∷ 1 ∷ []

module _ {E : Type 0} where
  pub judge_probe : Option Bytes → Option E → Option (Failure E)
  judge_probe response (some e) = some (call_failed e)
  judge_probe none none = some invalid_response
  judge_probe (some []) none = some invalid_response
  judge_probe (some (b ∷ bs)) none = none

module _ {S V E : Type 0} (s : Service S V E) where
  -- probeResolver: its error, if any; a panic of the resolver is `none`.
  unfoldable pub probe_resolver : V → S → Option (Option (Failure E) × S)
  unfolding judge_probe
  probe_resolver v st = elim (s.query v dns_probe_query st) [
    | none ↦ none
    | some (a, st') ↦ some (judge_probe a.response a.error, st')
  ]

module _ {S V E : Type 0} where
  -- ProbeDoH and ProbeDoT: `none` is a nil server.
  unfoldable pub probe : Option (Service S V E) → V → S → Option (Option (Failure E) × S)
  probe none v st = some (some dns_required, st)
  probe (some s) v st = probe_resolver s v st

-- SetDoHServer and SetDoTServer
unfoldable pub set_server : {R : Type 0} → Option R → Engine R → Engine R
set_server none e = e
set_server (some r) e = set_engine_dns (some r) e

pub record SessionCalls (E : Type 0) : Type 0 where
  pub tun_calls : TunCalls E
  pub engine_calls : EngineCalls E

module _ {R E : Type 0} where
  pub close_on_error :
      ℕ → Result (Failure E) (Engine R) × World → Result (Failure E) (Engine R) × World
  close_on_error file (err e, w) = (err e, close_file file w)
  close_on_error file (ok e, w) = (ok e, w)

  pub on_tun :
      R
      → Bool
      → EngineCalls E
      → Result (Failure E) ℕ × World
      → Result (Failure E) (Engine R) × World
  on_tun r has_listener v (err e, w) = (err e, w)
  on_tun r has_listener v (ok file, w) =
      close_on_error file (new_engine (some r) (tun_file file) has_listener v w)

  -- connectSessionWithResolver
  unfoldable pub connect_with_resolver :
      ℤ → R → Bool → SessionCalls E → World → Result (Failure E) (Engine R) × World
  unfolding on_tun close_on_error
  connect_with_resolver fd r has_listener v w =
      on_tun r has_listener v.engine_calls (make_tun_device_from_fd fd v.tun_calls w)

  -- ConnectSessionDoH and ConnectSessionDoT
  unfoldable pub connect_session :
      ℤ → Option R → Bool → SessionCalls E → World → Result (Failure E) (Engine R) × World
  connect_session fd none has_listener v w = (err dns_required, w)
  connect_session fd (some r) has_listener v w = connect_with_resolver fd r has_listener v w
