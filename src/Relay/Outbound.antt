-- ===== src/Relay/Outbound.antt =====
-- transport/outbound.go and transport/pipe.go: what a TCP flow of the device is connected to. How the
-- dials end is an argument.
pub mod Routed
use localdns_go.Prelude.{
  ℕ, ◌-◌, ◌/◌, ◌%◌, ◌^◌, Bool, true, false, Option, none, some, ◌==◌, if◌then◌else◌, Result, ok,
  err,
}
use localdns_go.Split.Conn.{Conn, dialed}
use localdns_go.Split.Retrier.{Retrier, no_stats, dial_with_split_retry}
use localdns_go.Relay.Addr.{AddrPort, is_equivalent_addr_port}
use localdns_go.Relay.Tcp.{Flow, new_flow}

-- OutboundDialer, without the dialer; `R` stands for the resolvers.
pub record Outbound (R : Type 0) : Type 0 where
  pub fake_dns_addr : AddrPort
  pub dns : R
  pub has_listener : Bool

-- NewOutboundDialer and SetDNS: a nil resolver is refused. The error of SetDNS, which its caller drops,
-- is left out.
unfoldable pub new_outbound : {R : Type 0} → AddrPort → Option R → Bool → Option (Outbound R)
new_outbound fake_dns none has_listener = none
new_outbound fake_dns (some dns) has_listener =
    some (record { fake_dns_addr = fake_dns; dns = dns; has_listener = has_listener })

unfoldable pub set_dns : {R : Type 0} → Option R → Outbound R → Outbound R
set_dns none od = od
set_dns (some dns) od = record od { dns = dns }

-- `pipeConn`: which of the two ends of the pipe are closed.
pub record Pipe : Type 0 where
  pub local_closed : Bool
  pub remote_closed : Bool

abbrev pub new_pipe : Pipe
new_pipe = record { local_closed = false; remote_closed = false }

unfoldable pub pipe_close_read : Pipe → Pipe
pipe_close_read p = record p { remote_closed = true }

unfoldable pub pipe_close_write : Pipe → Pipe
pipe_close_write p = record p { local_closed = true }

unfoldable pub pipe_close : Pipe → Pipe
unfolding pipe_close_read pipe_close_write
pipe_close p = pipe_close_write (pipe_close_read p)

-- How the dials end: the connecting of DialWithSplitRetry or of DialContext to an address, whether the connection is a
-- TCP connection, and the instants around them.
pub record DialEnv (E : Type 0) : Type 0 where
  pub attempt : AddrPort → Result E (Unit {0})
  pub is_tcp : Bool
  pub before : ℕ
  pub after : ℕ

-- The connection to a target, with the address that was dialed. `not_tcp` is the error of `dial` itself.
pub data Target : Type 0 where
  retried : AddrPort → Retrier → Target
  direct : AddrPort → Conn → Target

pub data DialFailure (E : Type 0) : Type 0 where
  dial_failed : E → DialFailure E
  not_tcp : DialFailure E

module _ {E : Type 0} where
  pub dial_retried : AddrPort → Result E Retrier → Result (DialFailure E) Target
  dial_retried dest (err e) = err (dial_failed e)
  dial_retried dest (ok r) = ok (retried dest r)

  pub dial_direct : AddrPort → Result E (Unit {0}) → Bool → Result (DialFailure E) Target
  dial_direct dest (err e) is_tcp = err (dial_failed e)
  dial_direct dest (ok _) is_tcp = if is_tcp then ok (direct dest dialed) else err not_tcp

  -- `dial`; the statistics of the retries are those of the summary, which are zero.
  unfoldable pub dial_target : AddrPort → DialEnv E → Result (DialFailure E) Target
  unfolding dial_retried dial_direct dial_with_split_retry
  dial_target dest v =
      if dest.port == 443
      then dial_retried dest
          (dial_with_split_retry (v.attempt dest) v.before v.after (some no_stats))
      else dial_direct dest (v.attempt dest) v.is_tcp

-- What `DialTCP` returns: the pipe behind which `Accept` serves the resolver, or the counted connection
-- to the target with the time that the dial took.
pub data Outgoing (R : Type 0) : Type 0 where
  to_resolver : R → Pipe → Outgoing R
  to_target : Target → Flow → ℕ → Outgoing R

module _ {R E : Type 0} where
  pub wrap_target :
      Outbound R
      → ℕ
      → DialEnv E
      → Result (DialFailure E) Target
      → Result (DialFailure E) (Outgoing R)
  wrap_target od port v (err e) = err e
  wrap_target od port v (ok t) = ok (
      to_target t (new_flow port od.has_listener v.after)
        ((v.after - v.before) / 1_000_000 % 2 ^ 32))

  -- `DialTCP`
  unfoldable pub dial_tcp : AddrPort → DialEnv E → Outbound R → Result (DialFailure E) (Outgoing R)
  unfolding wrap_target
  dial_tcp dest v od =
      if is_equivalent_addr_port dest od.fake_dns_addr
      then ok (to_resolver od.dns new_pipe)
      else wrap_target od dest.port v (dial_target dest v)
