-- ===== src/Tests/Doh.antt =====
-- Runs of proxy/doh, with a toy instance of the message package.
use Prim.Native.String.{String}
use localdns_go.Prelude.{
  ℕ, ◌≡◌, inl, refl, false, Option, none, some, List, [], ◌∷◌, arith, Result, ok, err,
  if◌then◌else◌,
}
use localdns_go.Prelude.Words.{Bytes}
use localdns_go.Net.Ip.{Ip, ip_equal}
use localdns_go.Net.Ip.Same.{ip_equal_sym, ip_equal_trans}
use localdns_go.IpMap.{has_ip, disconfirm, get_all, shuffle}
use localdns_go.IpMap.Valid.{apply}
use localdns_go.IpMap.Store.{Store, new_store}
use localdns_go.Doh.Message.{Dns}
use localdns_go.Doh.Padding.{Padded, new_slice, add_edns_padding, last_opt, has_padding}
use localdns_go.Doh.Dial.{connected, dial_set, try_ips}
use localdns_go.Doh.Dial.Complete.{RespectsEqual}
use localdns_go.Doh.Dial.Host.{dial_set-connects}
use localdns_go.Doh.Query.{
  QueryEnv, Resolver, Outcome, Request, new_request, replied, do_query, send_padded, after_request,
  exchange_result, check_response, conclude, failed_with, internal_error, nonzero_id,
}
use localdns_go.Doh.Query.{http_error, in_hangover, http_failed}
use localdns_go.Doh.Padding.{try_servfail}
use localdns_go.Doh.Query.Effects.{hangover_follows}
use localdns_go.Doh.Query.Ids.{do_query_total}
use localdns_go.Doh.Query.Posted.{IsPrivate, posted-IsPrivate}
use localdns_go.Tests.Toy.{
  toy, toy_unpack, toy_message, additionals_of, toy-HasHeader, toy-AddsOptions,
}

abbrev toy_nat : Dns ℕ Unit Unit Unit
toy_nat = toy 0

-- a header, and a padding option behind it
abbrev padded_query : Bytes
padded_query = 7 ∷ 9 ∷ 0 ∷ 0 ∷ 0 ∷ 0 ∷ 0 ∷ 0 ∷ 0 ∷ 0 ∷ 0 ∷ 0 ∷ 12 ∷ []

abbrev bare_query : Bytes
bare_query = 7 ∷ 9 ∷ 0 ∷ 0 ∷ 0 ∷ 0 ∷ 0 ∷ 0 ∷ 0 ∷ 0 ∷ 0 ∷ 0 ∷ []

abbrev slice_of : Result ℕ Padded → Bytes
slice_of (ok (new_slice b)) = b
slice_of _ = []

abbrev dead : Ip
dead = 9 ∷ 9 ∷ 9 ∷ 9 ∷ []

abbrev alive : Ip
alive = 8 ∷ 8 ∷ 8 ∷ 8 ∷ []

abbrev connect : Ip → Result ℕ ℕ
connect ip = if ip_equal ip alive then ok 5 else err 1

abbrev two_addresses : Store
two_addresses = record {
  sets = record { ips = dead ∷ alive ∷ []; confirmed = dead } ∷ [];
  table = [];
}

connect-RespectsEqual : RespectsEqual connect
connect-RespectsEqual = record {
  same =
      λ a b e. ground (arith, ip_equal_sym a b, ip_equal_trans a b alive, ip_equal_trans b a alive);
}

-- The confirmed address is dead; the dial goes on to the other one.
dial_set_run : (dial_set connect [] 0 two_addresses).0 ≡ connected 5
unfolding dial_set ip_equal disconfirm get_all shuffle try_ips apply
dial_set_run = refl

dial_set-connects_example : (c : ℕ) × ((dial_set connect [] 0 two_addresses).0 ≡ connected c)
unfolding has_ip ip_equal
dial_set-connects_example =
    dial_set-connects connect [] 0 two_addresses tt connect-RespectsEqual alive 5 refl refl refl

abbrev resolve_none : String → List Ip
resolve_none name = []

abbrev idle : Resolver
idle = record { ips = new_store; hangover_expiration = 0 }

abbrev good_reply : QueryEnv ℕ
good_reply = record {
  now = 5;
  request_error = none;
  server = some alive;
  exchange = λ request. replied (0 ∷ 0 ∷ 1 ∷ 2 ∷ []) 200 "a";
  later = 6;
}

do_query_total_example :
    (o : Outcome ℕ) × (do_query toy_nat resolve_none "a" good_reply padded_query idle ≡ some o)
do_query_total_example =
    do_query_total toy_nat (toy-HasHeader 0) resolve_none "a" good_reply idle padded_query

abbrev the_outcome : Option (Outcome ℕ) → Outcome ℕ
the_outcome (some o) = o
the_outcome none = failed_with toy_nat resolve_none internal_error nonzero_id none idle []

abbrev bad_request : QueryEnv ℕ
bad_request = record good_reply { request_error = some 4 }

abbrev refused : QueryEnv ℕ
refused = record good_reply { exchange = λ request. replied [] 500 "a" }

abbrev soon_after : QueryEnv ℕ
soon_after = record good_reply { now = 700 }

hangover_follows_example :
    do_query toy_nat resolve_none "a" soon_after bare_query
      (the_outcome (do_query toy_nat resolve_none "a" refused padded_query idle)).state
    ≡ some (record {
      response = try_servfail toy_nat bare_query;
      server = none;
      qerr = some (record { status = http_error; cause = in_hangover });
      state = (the_outcome (do_query toy_nat resolve_none "a" refused padded_query idle)).state;
      query = bare_query;
      posted = none;
      closed_conn = false;
    })
unfolding do_query toy add_edns_padding toy_unpack toy_message additionals_of send_padded
    after_request exchange_result check_response conclude last_opt has_padding
hangover_follows_example =
    hangover_follows toy_nat resolve_none "a" refused idle padded_query
      (the_outcome (do_query toy_nat resolve_none "a" refused padded_query idle))
      (record { status = http_error; cause = http_failed 500 }) soon_after bare_query (omega arith)
      refl refl (inl refl) (omega arith) (omega arith)

abbrev bare_outcome : Outcome ℕ
bare_outcome = the_outcome (do_query toy_nat resolve_none "a" good_reply bare_query idle)

abbrev the_request : Option Request → Request
the_request (some request) = request
the_request none = new_request []

posted-IsPrivate_example :
    IsPrivate toy_nat resolve_none "a" bare_query (the_request bare_outcome.posted).body
unfolding do_query toy add_edns_padding toy_unpack toy_message additionals_of send_padded last_opt
    has_padding after_request exchange_result check_response conclude
posted-IsPrivate_example =
    posted-IsPrivate toy_nat resolve_none "a" (toy-AddsOptions 0) good_reply idle bare_query
      bare_outcome (the_request bare_outcome.posted) refl refl
