-- ===== src/Tests/Bridge.antt =====
-- Runs of the session table, the network stack and the host names.
use Prim.Native.String.{String}
use localdns_go.Net.Ip.{Ip, ip_equal}
use localdns_go.IpMap.{has_ip}
use localdns_go.Doh.Make.{Url, MakeError, Made}
use localdns_go.Doh.Make.Ready.{NeverNil, IsReady}
use localdns_go.Tunnel.Session.{new_doh_server, new_dot_server}
use localdns_go.Bridge.Sessions.Usable.{serve_all-IsUsable}
use localdns_go.Prelude.{
  ℕ, ◌≡◌, ◌⊎◌, refl, true, false, Option, none, some, List, [], ◌∷◌, Result, ◌++◌, arith, ok, err,
  ◌==◌, ◌/◌, if◌then◌else◌,
}
use localdns_go.IpMap.Store.{new_store}
use localdns_go.Prelude.Ints.{pos, negsuc}
use localdns_go.Prelude.Maps.{lookup}
use localdns_go.Prelude.Words.{Bytes}
use localdns_go.Relay.Addr.{addr4}
use localdns_go.Tunnel.World.{World, NetStack, call_failed}
use localdns_go.Tunnel.Device.{DeviceCalls, new_device}
use localdns_go.Tunnel.Device.Configured.{IsLeft, first_failure, new_device_cases}
use localdns_go.Tunnel.Engine.{Engine}
use localdns_go.Tunnel.Engine.Live.{IsLive}
use localdns_go.Tunnel.Session.{SessionCalls}
use localdns_go.Doh.Message.{Dns}
use localdns_go.Doh.Padding.{add_edns_padding, last_opt, has_padding}
use localdns_go.Doh.Query.{
  QueryEnv, Resolver, Outcome, replied, do_query, failed_with, internal_error, nonzero_id,
  send_padded, after_request, exchange_result, check_response, conclude,
}
use localdns_go.Doh.Query.Report.{query_calls}
use localdns_go.Doh.QueryLog.{was_cancelled}
use localdns_go.Tests.Toy.{toy, toy_unpack, toy_message, additionals_of, are_bytes_lem}
use localdns_go.Bridge.Callbacks.Notices.{notices, outcome_code, notices-do_query}
use localdns_go.Bridge.Hostname.{encode_labels, extract_hostname, join_labels}
use localdns_go.Bridge.Hostname.{extract_hostname-encode}
use localdns_go.Bridge.Sessions.{
  new_bridge, over_https, over_tls, Servers, server_of, connect, connect_code, Call, connects,
  disconnects, sets, serve_all,
}
use localdns_go.Bridge.Sessions.Owned.{IsOwned}
use localdns_go.Bridge.Sessions.Runs.{serve_all-IsOwned}
use localdns_go.Bridge.Sessions.Connect.{connect_code-session}
use localdns_go.Bridge.Sessions.Views.{view, tcp_server, udp_server, note_calls, serve_all-refines}

-- All calls work, or spoofing fails.
abbrev device_calls : Option ℕ → DeviceCalls ℕ
device_calls e = record {
  fdbased = none;
  create_nic = none;
  add_address = none;
  set_spoofing = e;
  set_promiscuous = none;
}

abbrev calls : Option ℕ → SessionCalls ℕ
calls e = record {
  tun_calls = record { dup = none; wrapped = true };
  engine_calls = record {
    fakedns = ok (record { addr = addr4 (10 ∷ 0 ∷ 0 ∷ 1 ∷ []); port = 53 });
    device_calls = device_calls e;
  };
}

abbrev servers : ℕ → Servers ℕ ℕ
servers r = record { doh_server = ok r; dot_server = err 4 }

-- Two sessions, one that fails, a change of server, one that fails, and an end.
abbrev day : List (Call ℕ ℕ)
day =
    connects over_https (pos 5) (servers 7) (calls none)
    ∷ connects over_https (pos 5) (servers 8) (calls (some 1))
    ∷ connects over_https (pos 6) (servers 9) (calls none)
    ∷ sets over_https 3 (servers 11)
    ∷ sets over_tls 2 (servers 12)
    ∷ disconnects 2
    ∷ []

serve_all-IsOwned_example :
    IsOwned (serve_all day new_bridge).world.files (serve_all day new_bridge).sessions
serve_all-IsOwned_example =
    serve_all-IsOwned day (omega arith) (refl, (refl, (refl, (tt, (tt, (tt, tt))))))

serve_all-refines_example :
    (view tcp_server (serve_all day new_bridge) 3 ≡ note_calls day new_bridge (λ j. none) 3)
    × (view udp_server (serve_all day new_bridge) 3 ≡ note_calls day new_bridge (λ j. none) 3)
serve_all-refines_example = serve_all-refines day 3 (refl, (refl, (refl, (tt, (tt, (tt, tt))))))

connect_code-session_example :
    let (result, b') = connect over_https (pos 5) (servers 7) (calls none) new_bridge in
    let (code, handle) = connect_code result 0 in
    ((code ≡ pos 0)
      × (r : ℕ) × (e : Engine ℕ) × (server_of over_https (servers 7) ≡ ok r)
      × (lookup ◌==◌ handle b'.sessions ≡ some e)
      × IsLive r 0 e)
    ⊎ ((code ≡ negsuc 0) × (handle ≡ 0) × (b'.sessions ≡ []))
connect_code-session_example =
    connect_code-session over_https (pos 5) (servers 7) (calls none) new_bridge 0 refl

abbrev empty_world : World
empty_world = record { files = []; stacks = [] }

abbrev no_spoofing : DeviceCalls ℕ
no_spoofing = record (device_calls none) { set_spoofing = some 4; set_promiscuous = some 5 }

new_device_cases_example :
    (s : NetStack) × (new_device 0 0 no_spoofing empty_world
      ≡ (err (call_failed 4), record empty_world { stacks = s ∷ [] }))
    × IsLeft s
unfolding first_failure
new_device_cases_example = new_device_cases 0 0 no_spoofing empty_world

abbrev header : Bytes
header = 0 ∷ 0 ∷ 1 ∷ 0 ∷ 0 ∷ 1 ∷ 0 ∷ 0 ∷ 0 ∷ 0 ∷ 0 ∷ 0 ∷ []

abbrev labels : List Bytes
labels = (97 ∷ 98 ∷ []) ∷ (99 ∷ []) ∷ []

extract_hostname-encode_example :
    extract_hostname (header ++ (encode_labels labels ++ 0 ∷ 0 ∷ 1 ∷ [])) ≡ join_labels labels
extract_hostname-encode_example =
    extract_hostname-encode header labels (0 ∷ 0 ∷ 1 ∷ []) refl (omega arith, (omega arith, tt))
      refl (omega arith)

abbrev parse_toy : String → Result ℕ Url
parse_toy url = ok (record { scheme = "https"; hostname = "a"; port = "" })

abbrev atoi_toy : String → Result ℕ ℕ
atoi_toy s = err 1

abbrev one_name : String → List Ip
one_name name = (8 ∷ 8 ∷ 8 ∷ 8 ∷ []) ∷ []

never_nil : NeverNil one_name
unfolding has_ip ip_equal
never_nil name = refl

abbrev split_toy : String → List String
split_toy s = []

abbrev made_servers : Servers Made (MakeError ℕ)
made_servers = record {
  doh_server = new_doh_server parse_toy atoi_toy one_name split_toy "https://a" "";
  dot_server = new_dot_server parse_toy atoi_toy one_name split_toy "https://a" "";
}

abbrev made_calls : SessionCalls (MakeError ℕ)
made_calls = record {
  tun_calls = record { dup = none; wrapped = true };
  engine_calls = record {
    fakedns = ok (record { addr = addr4 (10 ∷ 0 ∷ 0 ∷ 1 ∷ []); port = 53 });
    device_calls = record {
      fdbased = none;
      create_nic = none;
      add_address = none;
      set_spoofing = none;
      set_promiscuous = none;
    };
  };
}

abbrev one_session : List (Call Made (MakeError ℕ))
one_session =
    connects over_https (pos 5) made_servers made_calls ∷ sets over_tls 2 made_servers ∷ []

abbrev made_a : Made
made_a = record {
  hostname = "a";
  port = 443;
  resolver = record {
    ips = record {
      sets = record { ips = (8 ∷ 8 ∷ 8 ∷ 8 ∷ []) ∷ []; confirmed = [] } ∷ [];
      table = ("a", 0) ∷ [];
    };
    hangover_expiration = 0;
  };
}

serve_all-IsUsable_example :
    (view tcp_server (serve_all one_session new_bridge) 2 ≡ some made_a
      → IsReady "a" made_a.resolver.ips)
    × (view udp_server (serve_all one_session new_bridge) 2 ≡ some made_a
        → IsReady "a" made_a.resolver.ips)
serve_all-IsUsable_example =
    serve_all-IsUsable parse_toy atoi_toy one_name split_toy one_session 2 made_a never_nil
      (refl, (tt, tt)) (("https://a", "", refl, refl), (("https://a", "", refl, refl), tt))

-- A query for the name of `labels`, with a reply from the server.
abbrev named_query : Bytes
named_query = header ++ (encode_labels labels ++ 0 ∷ 0 ∷ 1 ∷ [])

abbrev bridge_toy : Dns ℕ Unit Unit Unit
bridge_toy = toy 0

abbrev answering : QueryEnv ℕ
answering = record {
  now = 5;
  request_error = none;
  server = none;
  exchange = λ request. replied (0 ∷ 0 ∷ 1 ∷ []) 200 "a";
  later = 6;
}

abbrev fresh_resolver : Resolver
fresh_resolver = record { ips = new_store; hangover_expiration = 0 }

abbrev run_outcome : Option (Outcome ℕ) → Outcome ℕ
run_outcome (some o) = o
run_outcome none = failed_with bridge_toy one_name internal_error nonzero_id none fresh_resolver []

abbrev named_outcome : Outcome ℕ
named_outcome = run_outcome (do_query bridge_toy one_name "a" answering named_query fresh_resolver)

notices-do_query_example :
    notices
      (λ n. n / 1000000)
      "https://a/"
      (query_calls (λ (e : ℕ). false) true 4000000 named_outcome)
    ≡ (if was_cancelled (λ (e : ℕ). false) named_outcome.qerr
        then []
        else record {
          hostname = join_labels labels;
          latency_ms = 4;
          status = outcome_code named_outcome.qerr;
        }
          ∷ [])
unfolding do_query toy add_edns_padding toy_unpack toy_message additionals_of send_padded last_opt
    has_padding after_request exchange_result check_response conclude
notices-do_query_example =
    notices-do_query (λ n. n / 1000000) bridge_toy one_name "a" answering fresh_resolver
      (λ (e : ℕ). false) "https://a/" 4000000 header labels (0 ∷ 0 ∷ 1 ∷ []) named_outcome refl
      (omega arith, (omega arith, tt)) refl (omega arith) (are_bytes_lem named_query refl) refl refl
