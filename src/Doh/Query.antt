-- ===== src/Doh/Query.antt =====
-- `doQuery` and `sendRequest` of proxy/doh/doh.go.
mod Types
pub mod Report
pub mod Course
pub mod Ids
pub mod Effects
pub mod Posted
pub mod Failing
pub mod AnyId
unfoldable pub use Types.*
use Prim.Native.String.{String}
use mathlib.Core.Option
use localdns_go.Prelude.{
  ℕ, ◌+◌, ◌*◌, Bool, true, false, not, ◌&&◌, ◌||◌, Option, none, some, List, [], ◌∷◌, length,
  Result, ok, err, ltb, ◌==◌, if◌then◌else◌,
}
use localdns_go.Prelude.Words.{Bytes, hi_byte, lo_byte}
use localdns_go.Net.Ip.{Ip}
use localdns_go.IpMap.Valid.{Op, confirms, disconfirms}
use localdns_go.IpMap.Store.{Store, get, update}
use localdns_go.Doh.Message.{Dns}
use localdns_go.Doh.Padding.{Padded, same_slice, new_slice, add_edns_padding, try_servfail}

-- `r.ips.Get(hostname)` and a method of the set
abbrev pub on_host : (String → List Ip) → Op → String → Store → Store
on_host resolve op hostname m = let (p, m') = get hostname (resolve hostname) m in update op p m'

-- with a server only
unfoldable pub at_server : (String → List Ip) → (Ip → Op) → Option Ip → String → Store → Store
at_server resolve op none hostname m = m
at_server resolve op (some ip) hostname m = on_host resolve (op ip) hostname m

-- The results of `sendRequest` before its deferred cleanup: response, hostname and qerr.
unfoldable pub exchange_result :
    {E : Type 0} → String → Exchange E → Option Bytes × String × Option (QueryError E)
exchange_result hostname (do_failed e) =
    (none, hostname, some (record { status = send_failed; cause = callee e }))
exchange_result hostname (body_failed e) =
    (none, hostname, some (record { status = bad_response; cause = callee e }))
exchange_result hostname (replied body code final) = (
  some body,
  final,
  if code == status_ok
      then none
      else some (record { status = http_error; cause = http_failed code }),
)

-- The deferred function: on an error the server's address is disconfirmed.
cleanup :
    {E : Type 0} → (String → List Ip) → Option Ip → String → Option (QueryError E) → Store → Store
cleanup resolve server hostname none m = m
cleanup resolve server hostname (some e) m = at_server resolve disconfirms server hostname m

-- It closes the connection that GotConn saw, which has a server address.
pub closes : {E : Type 0} → Option Ip → Option (QueryError E) → Bool
closes (some ip) (some e) = true
closes _ _ = false

-- The check of the reply's ID, and its replacement by the query's.
unfoldable pub check_response :
    {E : Type 0} → ℕ → Option Bytes → Option (QueryError E) → Option Bytes × Option (QueryError E)
check_response id response (some e) = (response, some e)
check_response id (some (h ∷ l ∷ rest)) none =
    if h * 256 + l == 0
    then (some (hi_byte id ∷ lo_byte id ∷ rest), none)
    else (some (h ∷ l ∷ rest), some (record { status = bad_response; cause = nonzero_id }))
check_response id (some b) none =
    (some b, some (record { status = bad_response; cause = response_length (length b) }))
check_response id none none =
    (none, some (record { status = bad_response; cause = response_length 0 }))

unfoldable pub is_send_failed : Status → Bool
is_send_failed send_failed = true
is_send_failed _ = false

module _ {E Q H B : Type 0} (d : Dns E Q H B) (resolve : String → List Ip) where
  -- The end of `doQuery`: on an error the hangover may start and the answer is a SERVFAIL; on success
  -- the server's address is confirmed.
  unfoldable pub conclude :
      QueryEnv E
      → String
      → Resolver
      → Bytes
      → Option Bytes × Option (QueryError E)
      → Bytes
      → Outcome E
  unfolding is_send_failed at_server
  conclude v hostname r q (response, some e) query = record {
    response = try_servfail d q;
    server = v.server;
    qerr = some e;
    state =
        if is_send_failed e.status
        then r
        else record r { hangover_expiration = v.later + hangover_duration };
    query = query;
    posted = none;
    closed_conn = false;
  }
  conclude v hostname r q (response, none) query = record {
    response = response;
    server = v.server;
    qerr = none;
    state = record r { ips = at_server resolve confirms v.server hostname r.ips };
    query = query;
    posted = none;
    closed_conn = false;
  }

  -- From the call of `sendRequest` on; `q` is the slice with its ID restored.
  unfoldable pub after_request :
      QueryEnv E
      → Resolver
      → ℕ
      → Bytes
      → Bytes
      → Option Bytes × String × Option (QueryError E)
      → Outcome E
  unfolding cleanup conclude at_server closes
  after_request v r id q query (response, hostname, qerr) =
      let r' = record r { ips = cleanup resolve v.server hostname qerr r.ips } in
      record (conclude v hostname r' q (check_response id response qerr) query) {
        closed_conn = closes v.server qerr;
      }

  unfoldable pub failed_with : Status → Cause E → Option Bytes → Resolver → Bytes → Outcome E
  failed_with status cause response r query = record {
    response = response;
    server = none;
    qerr = some (record { status = status; cause = cause });
    state = r;
    query = query;
    posted = none;
    closed_conn = false;
  }

  unfoldable pub send_with :
      String → QueryEnv E → Resolver → ℕ → Bytes → Bytes → Bytes → Bytes → Option E → Outcome E
  send_with own_host v r id q sent zeroed query (some e) =
      failed_with internal_error (callee e) none r zeroed
  send_with own_host v r id q sent zeroed query none =
      let request = new_request sent in
      record (after_request v r id q query (exchange_result own_host (v.exchange request))) {
        posted = some request;
      }

  -- The slice that is sent loses its ID and gets it back. `own` is the caller's slice as it is when it
  -- is not that slice. Go panics on a slice of fewer than two bytes, which is `none`.
  unfoldable pub send_padded :
      String → QueryEnv E → Resolver → Option Bytes → Bytes → Option (Outcome E)
  unfolding send_with failed_with
  send_padded own_host v r own (h ∷ l ∷ rest) =
      let id = h * 256 + l in
      let restored = hi_byte id ∷ lo_byte id ∷ rest in
      let zeroed = 0 ∷ 0 ∷ rest in
      some (
        send_with own_host v r id restored zeroed (Option.get_or own zeroed)
          (Option.get_or own restored) v.request_error)
  send_padded own_host v r own _ = none

  unfoldable pub pad_and_send :
      String → QueryEnv E → Resolver → Bytes → Result E Padded → Option (Outcome E)
  pad_and_send own_host v r q (err e) = some (failed_with internal_error (callee e) none r q)
  pad_and_send own_host v r q (ok same_slice) = send_padded own_host v r none q
  pad_and_send own_host v r q (ok (new_slice b)) = send_padded own_host v r (some q) b

  -- `doQuery`; `own_host` is `r.hostname`
  unfoldable pub do_query : String → QueryEnv E → Bytes → Resolver → Option (Outcome E)
  unfolding pad_and_send failed_with
  do_query own_host v q r =
      if ltb (length q) 2
      then some (failed_with bad_query (query_length (length q)) none r q)
      else if ltb v.now r.hangover_expiration
      then some (failed_with http_error in_hangover (try_servfail d q) r q)
      else pad_and_send own_host v r q (add_edns_padding d q)
