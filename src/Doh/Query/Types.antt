-- ===== src/Doh/Query/Types.antt =====
-- The data of `doQuery` of proxy/doh/doh.go.
use Prim.Native.String.{String}
use localdns_go.Prelude.{ℕ, ◌*◌, Bool, Option, List, [], ◌∷◌}
use localdns_go.Prelude.Words.{Bytes}
use localdns_go.Net.Ip.{Ip}
use localdns_go.IpMap.Store.{Store}

-- Complete to InternalError
pub data Status : Type 0 where
  complete send_failed http_error bad_query bad_response internal_error : Status

-- What a queryError wraps: an error of a callee, or one made here.
pub data Cause (E : Type 0) : Type 0 where
  query_length : ℕ → Cause E
  in_hangover : Cause E
  callee : E → Cause E
  http_failed : ℕ → Cause E
  nonzero_id : Cause E
  response_length : ℕ → Cause E

pub record QueryError (E : Type 0) : Type 0 where
  pub status : Status
  pub cause : Cause E

-- ten seconds
abbrev pub hangover_duration : ℕ
hangover_duration = 10 * 1_000_000_000

abbrev pub status_ok : ℕ
status_ok = 200

-- The fields of `resolver` that change: the sets of `ips`, and hangoverExpiration.
pub record Resolver : Type 0 where
  pub ips : Store
  pub hangover_expiration : ℕ

-- How `client.Do` and the reading of the body end.
pub data Exchange (E : Type 0) : Type 0 where
  do_failed : E → Exchange E
  body_failed : E → Exchange E
  replied : Bytes → ℕ → String → Exchange E

-- What `doQuery` posts to the resolver's URL.
pub record Request : Type 0 where
  pub body : Bytes
  pub headers : List (String × String)

abbrev pub mimetype : String
mimetype = "application/dns-message"

unfoldable pub new_request : Bytes → Request
new_request q = record {
  body = q;
  headers = ("Content-Type", mimetype) ∷ ("Accept", mimetype) ∷ ("User-Agent", "LocalDNS") ∷ [];
}

-- What the environment answers in one `doQuery`: the two clock readings, the new request, the address
-- of the connection that GotConn saw, and the exchange for the request.
pub record QueryEnv (E : Type 0) : Type 0 where
  pub now : ℕ
  pub request_error : Option E
  pub server : Option Ip
  pub exchange : Request → Exchange E
  pub later : ℕ

-- The named results, the resolver behind the call, the bytes of the caller's slice `q`, the request that
-- was posted, if any, and whether the cleanup has closed the connection.
pub record Outcome (E : Type 0) : Type 0 where
  pub response : Option Bytes
  pub server : Option Ip
  pub qerr : Option (QueryError E)
  pub state : Resolver
  pub query : Bytes
  pub posted : Option Request
  pub closed_conn : Bool
