-- ===== src/Socket/Protect.antt =====
-- common/socket/protect.go: the dialer and the listen configuration whose sockets are kept out of the
-- tunnel, and features/platform/protector.go.
pub mod Lookups
use Prim.Native.String.{String}
use localdns_go.Prelude.{
  ℕ, ◌%◌, ◌^◌, Bool, Option, none, some, List, [], ◌∷◌, if◌then◌else◌, Result, ok, err,
}
use localdns_go.Net.Ip.{Ip}
use localdns_go.Socket.{ResolverError, resolver_address}

-- platform.Protector: `Protect` for a descriptor, as the bits of an int32, and `GetResolvers`.
pub record Protector : Type 0 where
  pub protect : ℕ → Bool
  pub get_resolvers : String

-- What the control function does: it protects a descriptor, or logs that this failed.
pub data SocketCall : Type 0 where
  protects : ℕ → SocketCall
  logs_failure : String → SocketCall

-- The control function of a dialer, for the network and for what `c.Control` does: it passes the
-- descriptor on, or fails. Its error, if any, is that of `c.Control`.
abbrev pub Control : Type 0 → Type 0
Control E = String → Result E ℕ → List SocketCall × Option E

-- `makeControl`
unfoldable pub make_control : {E : Type 0} → Protector → Control E
make_control p network (err e) = ([], some e)
make_control p network (ok fd) =
    let socket = fd % 2 ^ 32 in
    if p.protect socket
    then (protects socket ∷ [], none)
    else (protects socket ∷ logs_failure network ∷ [], none)

-- `MakeListenConfig`: the control function, if any
unfoldable pub make_listen_config : {E : Type 0} → Option Protector → Option (Control E)
make_listen_config none = none
make_listen_config (some p) = some (make_control p)

-- The fields of `net.Dialer` that `MakeDialer` sets: `Control`, and the `Dial` of its resolver.
pub record Dialer (E C : Type 0) : Type 0 where
  pub control : Option (Control E)
  pub resolver_dial : Option (String → String → Result (ResolverError E) C)

module _ {E C : Type 0} (parse_ip : String → Option Ip)
    (split_host_port : String → Result E (String × String)) (join : String → String → String)
    (split : String → List String) where
  pub dialed :
      (String → Result (ResolverError E) C)
      → Result (ResolverError E) String
      → Result (ResolverError E) C
  dialed dial (err e) = err e
  dialed dial (ok address) = dial address

  module _ (dial_context : Option (Control E) → String → String → Result (ResolverError E) C) where
    -- `resolverDialer`; `dial_context` is `d.DialContext` of the dialer with a control function.
    unfoldable pub resolver_dialer : Protector → String → String → Result (ResolverError E) C
    unfolding dialed
    resolver_dialer p network address =
        dialed (dial_context (some (make_control p)) network)
          (resolver_address parse_ip split_host_port join split p.get_resolvers address)

    -- `MakeDialer`
    unfoldable pub make_dialer : Option Protector → Dialer E C
    unfolding resolver_dialer
    make_dialer none = record { control = none; resolver_dial = none }
    make_dialer (some p) = record {
      control = some (make_control p);
      resolver_dial = some (resolver_dialer p);
    }
