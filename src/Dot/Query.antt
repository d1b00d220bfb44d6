-- ===== src/Dot/Query.antt =====
-- `doQuery` of proxy/dot/dot.go. `own_host` and `own_port` are the resolver's, `connect` is the dial of
-- an address, which gives a connection and the address that `RemoteAddr` reports.
mod Connection
pub mod Ways
pub mod Closed
pub mod Ready
pub mod Written
pub mod Confirmed
unfoldable pub use Connection.*
use Prim.Native.String.{String}
use mathlib.Core.Option
use localdns_go.Prelude.{
  ℕ, ◌+◌, ◌*◌, Bool, true, false, Option, none, some, List, [], ◌∷◌, length, Result, ok, err, ltb,
  if◌then◌else◌,
}
use localdns_go.Prelude.Words.{Bytes, hi_byte, lo_byte}
use localdns_go.Net.Ip.{Ip}
use localdns_go.Doh.Message.{Dns}
use localdns_go.Doh.Padding.{Padded, same_slice, new_slice, add_edns_padding, try_servfail}
use localdns_go.Doh.Dial.{DialResult, connected, failed, dial_host}
use localdns_go.Doh.Query.{
  Status, send_failed, http_error, bad_query, bad_response, internal_error, Cause, query_length,
  in_hangover, callee, QueryError, Resolver, hangover_duration, is_send_failed, check_response,
  at_server,
}
use localdns_go.IpMap.Valid.{confirms}
use localdns_go.IpMap.Store.{Store}
use localdns_go.Dot.Framing.{
  DotError, oversize_dns, callee_failed, Source, dns_over_tcp_write, dns_over_tcp_read,
}

-- `dialPlainTCP`, whose body is that of `resolver.dial` with a given port
unfoldable pub dial_plain_tcp :
    {E C : Type 0}
    → (ℕ → Ip → Result E C)
    → (String → List Ip)
    → List (ℕ × ℕ)
    → String
    → ℕ
    → Store
    → DialResult E C × Store
dial_plain_tcp connect resolve draws domain port m = dial_host (connect port) resolve draws domain m

module _ {E Q H B : Type 0} (d : Dns (DotError E) Q H B) (resolve : String → List Ip) where
  -- the returns before a connection, and those that skip the end
  unfoldable pub dot_failed :
      Status
      → Cause (DotError E)
      → Option Bytes
      → Option Ip
      → Resolver
      → Bytes
      → ℕ
      → ℕ
      → DotOutcome E
  dot_failed status cause response server r query opened closed = record {
    response = response;
    server = server;
    qerr = some (record { status = status; cause = cause });
    state = r;
    query = query;
    wrote = none;
    opened = opened;
    closed = closed;
  }

  -- The end: on an error the hangover may start and the answer is a SERVFAIL; on success the server's
  -- address is confirmed.
  unfoldable pub dot_conclude :
      DotEnv E
      → String
      → Option Ip
      → Resolver
      → Bytes
      → Option Bytes × Option (QueryError (DotError E))
      → Bytes
      → ℕ
      → DotOutcome E
  unfolding is_send_failed at_server
  dot_conclude v own_host server r q (response, some e) query closed = record {
    response = try_servfail d q;
    server = server;
    qerr = some e;
    state =
        if is_send_failed e.status
        then r
        else record r { hangover_expiration = v.later + hangover_duration };
    query = query;
    wrote = none;
    opened = 1;
    closed = closed;
  }
  dot_conclude v own_host server r q (response, none) query closed = record {
    response = response;
    server = server;
    qerr = none;
    state = record r { ips = at_server resolve confirms server own_host r.ips };
    query = query;
    wrote = none;
    opened = 1;
    closed = closed;
  }

  pub after_transfer :
      DotEnv E → String → Resolver → ℕ → Bytes → Bytes → Option Ip × Transfer E → DotOutcome E
  after_transfer v own_host r id q query (server, (closed, sent, err (status, e))) =
      record (dot_failed status (callee e) none server r query 1 closed) { wrote = sent }
  after_transfer v own_host r id q query (server, (closed, sent, ok response)) =
      record (dot_conclude v own_host server r q (check_response id (some response) none) query
        closed) { wrote = sent }

  module _ {C : Type 0} (connect : ℕ → Ip → Result (DotError E) C) (remote : C → Option Ip) where
    -- Behind the dial. Without a connection and without an error, Go panics in `SetDeadline`, which is
    -- `none`. Each other path restores the ID; `q` is the slice with its ID.
    unfoldable pub with_connection :
        String
        → DotEnv E
        → Resolver
        → ℕ
        → Bytes
        → Bytes
        → Bytes
        → DialResult (DotError E) C
        → Option (DotOutcome E)
    unfolding transfer after_transfer
    with_connection own_host v r id q zeroed query (failed none) = none
    with_connection own_host v r id q zeroed query (failed (some e)) =
        some (dot_failed send_failed (callee e) none none r query 0 0)
    with_connection own_host v r id q zeroed query (connected c) =
        some (after_transfer v own_host r id q query (transfer v (remote c) zeroed))

    -- From the padded slice on; `own` is the caller's slice if it is another one.
    unfoldable pub dot_send_padded :
        String → ℕ → DotEnv E → Resolver → Option Bytes → Bytes → Option (DotOutcome E)
    unfolding with_connection
    dot_send_padded own_host own_port v r own (h ∷ l ∷ rest) =
        let id = h * 256 + l in
        let restored = hi_byte id ∷ lo_byte id ∷ rest in
        let (end, m) = dial_plain_tcp connect resolve v.draws own_host own_port r.ips in
        with_connection own_host v (record r { ips = m }) id restored (0 ∷ 0 ∷ rest)
          (Option.get_or own restored) end
    dot_send_padded own_host own_port v r own _ = none

    pub dot_pad_and_send :
        String
        → ℕ
        → DotEnv E
        → Resolver
        → Bytes
        → Result (DotError E) Padded
        → Option (DotOutcome E)
    dot_pad_and_send own_host own_port v r q (err e) =
        some (dot_failed internal_error (callee e) none none r q 0 0)
    dot_pad_and_send own_host own_port v r q (ok same_slice) =
        dot_send_padded own_host own_port v r none q
    dot_pad_and_send own_host own_port v r q (ok (new_slice b)) =
        dot_send_padded own_host own_port v r (some q) b

    -- `doQuery`
    unfoldable pub dot_do_query : String → ℕ → DotEnv E → Bytes → Resolver → Option (DotOutcome E)
    unfolding dot_pad_and_send
    dot_do_query own_host own_port v q r =
        if ltb (length q) 2
        then some (dot_failed bad_query (query_length (length q)) none none r q 0 0)
        else if ltb v.now r.hangover_expiration
        then some (dot_failed http_error in_hangover (try_servfail d q) none r q 0 0)
        else dot_pad_and_send own_host own_port v r q (add_edns_padding d q)
