-- ===== src/Tests/Dot.antt =====
-- Runs of `doQuery` of proxy/dot/dot.go.
use Prim.Native.String.{String}
use localdns_go.Prelude.{
  ℕ, ◌≡◌, refl, subst, some_eq, ok_eq, sym, ap, inl, inr, err, Bool-cases, if◌then◌else◌, false,
  Option, none, some, List, [], ◌∷◌, Result, ok,
}
use localdns_go.Prelude.Words.{Bytes}
use localdns_go.Prelude.Maps.{lookup}
use localdns_go.Net.Ip.{Ip, ip_equal, is_nil}
use localdns_go.IpMap.{has_ip, shuffle, get_all, add_all, add_ip, empty}
use localdns_go.IpMap.Valid.{disconfirms}
use localdns_go.IpMap.Store.{get, commit, update}
use localdns_go.Doh.Make.{Url, Made, with_port, port_or, gather, add_each}
use localdns_go.Doh.Make.Ready.{NeverNil}
use localdns_go.Dot.Make.{new_dot_resolver}
use localdns_go.Dot.Make.Reached.{made, queried, touched}
use localdns_go.Dot.Make.Answers.{new_dot_resolver-IsReady, new_dot_resolver-answers}
use localdns_go.Doh.Message.{Dns}
use localdns_go.Doh.Padding.{add_edns_padding}
use localdns_go.Doh.Dial.{dial_host, dial_set, try_ips}
use localdns_go.Doh.Query.{Resolver, internal_error, nonzero_id, check_response}
use localdns_go.Doh.Query.Posted.{IsPrivate}
use localdns_go.Dot.Query.Confirmed.{ReportsDialed, ConfirmsWorking, dot_do_query-ConfirmsWorking}
use localdns_go.Dot.Query.Written.{wrote-IsPrivate}
use localdns_go.Dot.Framing.{DotError, eof, frame, dns_over_tcp_write, dns_over_tcp_read}
use localdns_go.Dot.Query.{
  DotEnv, DotOutcome, dial_plain_tcp, dot_failed, dot_conclude, dot_send_padded, dot_do_query,
}
use localdns_go.Dot.Query.Closed.{closed-dot_do_query}
use localdns_go.Tests.Toy.{toy, toy-HasHeader, toy-AddsOptions, are_bytes_lem}

abbrev toy_dot : Dns (DotError ℕ) Unit Unit Unit
toy_dot = toy eof

abbrev dot_query : Bytes
dot_query = 7 ∷ 9 ∷ 0 ∷ 0 ∷ 0 ∷ 0 ∷ 0 ∷ 0 ∷ 0 ∷ 0 ∷ 0 ∷ 0 ∷ 12 ∷ []

abbrev server_ip : Ip
server_ip = 8 ∷ 8 ∷ 8 ∷ 8 ∷ []

abbrev known : Resolver
known = record {
  ips = record {
    sets = record { ips = server_ip ∷ []; confirmed = [] } ∷ [];
    table = ("a", 0) ∷ [];
  };
  hangover_expiration = 0;
}

abbrev no_names : String → List Ip
no_names name = []

abbrev accepts : ℕ → Ip → Result (DotError ℕ) ℕ
accepts port ip = ok 5

abbrev remote_of : ℕ → Option Ip
remote_of c = some server_ip

abbrev quiet : DotEnv ℕ
quiet = record {
  now = 5;
  draws = [];
  set_deadline = none;
  handshake = none;
  set_write_deadline = none;
  write = λ b. none;
  set_read_deadline = none;
  source = record { pending = 0 ∷ 3 ∷ 0 ∷ 0 ∷ 6 ∷ []; ending = none };
  later = 6;
}

abbrev no_handshake : DotEnv ℕ
no_handshake = record quiet { handshake = some 3 }

abbrev dot_outcome : Option (DotOutcome ℕ) → DotOutcome ℕ
dot_outcome (some o) = o
dot_outcome none = dot_failed toy_dot no_names internal_error nonzero_id none none known [] 0 0

abbrev dot_run : DotEnv ℕ → Option (DotOutcome ℕ)
dot_run v = dot_do_query toy_dot no_names accepts remote_of "a" 853 v dot_query known

closed-dot_do_query_example :
    ((dot_outcome (dot_run no_handshake)).closed ≡ (dot_outcome (dot_run no_handshake)).opened)
    × ((dot_outcome (dot_run no_handshake)).query ≡ dot_query)
unfolding dot_do_query add_edns_padding toy dot_send_padded dial_plain_tcp dial_host dial_set get
    lookup try_ips get_all shuffle ip_equal
closed-dot_do_query_example =
    closed-dot_do_query toy_dot no_names accepts remote_of "a" 853 no_handshake known dot_query
      (dot_outcome (dot_run no_handshake)) (are_bytes_lem dot_query refl) refl

abbrev parse_toy : String → Result (DotError ℕ) Url
parse_toy url = ok (record { scheme = "dot"; hostname = "a"; port = "" })

abbrev atoi_toy : String → Result (DotError ℕ) ℕ
atoi_toy s = ok 5

abbrev one_name : String → List Ip
one_name name = server_ip ∷ []

never_nil : NeverNil one_name
unfolding has_ip ip_equal
never_nil name = refl

abbrev made_a : Made
made_a = record {
  hostname = "a";
  port = 853;
  resolver = record {
    ips = record {
      sets = record { ips = server_ip ∷ []; confirmed = [] } ∷ [];
      table = ("a", 0) ∷ [];
    };
    hangover_expiration = 0;
  };
}

real : (ip : Ip) → ◌≡◌ {A = Option Ip} (some server_ip) (some ip) → ip_equal ip [] ≡ false
unfolding ip_equal
real ip e = subst (λ x. ip_equal x [] ≡ false) (some_eq e) refl

abbrev after_failure : DotOutcome ℕ
after_failure =
    dot_outcome (
      dot_do_query toy_dot one_name accepts remote_of "a" 853 no_handshake dot_query
        made_a.resolver)

new_dot_resolver-answers_example :
    (o : DotOutcome ℕ) × (dot_do_query toy_dot one_name accepts remote_of "a" 853 quiet dot_query
        (let r = after_failure.state in record r { ips = update (disconfirms server_ip) 0 r.ips })
      ≡ some o)
unfolding new_dot_resolver with_port port_or gather add_each get commit lookup add_all add_ip has_ip
    ip_equal empty dot_do_query add_edns_padding toy dot_send_padded dial_plain_tcp dial_host
    dial_set try_ips get_all shuffle
new_dot_resolver-answers_example =
    new_dot_resolver-answers toy_dot (toy-HasHeader eof) one_name accepts remote_of parse_toy
      atoi_toy "dot://a" [] made_a
      (let r = after_failure.state in record r { ips = update (disconfirms server_ip) 0 r.ips })
      quiet dot_query never_nil (λ c ip e. real ip e) refl
      (touched (disconfirms server_ip) 0 tt
        (queried no_handshake dot_query after_failure made refl))
      (λ p e. tt)

abbrev bare_dot_query : Bytes
bare_dot_query = 7 ∷ 9 ∷ 0 ∷ 0 ∷ 0 ∷ 0 ∷ 0 ∷ 0 ∷ 0 ∷ 0 ∷ 0 ∷ 0 ∷ []

abbrev bare_dot_outcome : DotOutcome ℕ
bare_dot_outcome =
    dot_outcome (dot_do_query toy_dot no_names accepts remote_of "a" 853 quiet bare_dot_query known)

abbrev slice_of : Option Bytes → Bytes
slice_of (some b) = b
slice_of none = []

wrote-IsPrivate_example :
    (msg : Bytes) × (slice_of bare_dot_outcome.wrote ≡ frame msg)
    × IsPrivate toy_dot no_names "a" bare_dot_query msg
unfolding dot_do_query add_edns_padding toy dot_send_padded dial_plain_tcp dial_host dial_set get
    lookup try_ips get_all shuffle ip_equal dns_over_tcp_write dns_over_tcp_read dot_conclude
    check_response
wrote-IsPrivate_example =
    wrote-IsPrivate toy_dot no_names accepts remote_of "a" 853 quiet known (toy-AddsOptions eof)
      bare_dot_query (slice_of bare_dot_outcome.wrote) bare_dot_outcome refl refl

-- Connections are their addresses.
abbrev dials : ℕ → Ip → Result (DotError ℕ) Ip
dials port ip = if is_nil ip then err eof else ok ip

dials-ReportsDialed : ReportsDialed dials (λ ip. some ip) 853
dials-ReportsDialed = record {
  reports = λ ip c e. elim (Bool-cases (is_nil ip)) [
    | inl nil ↦ cc (rw nil at e)
    | inr other ↦ ap some (sym (ok_eq (rw other at e)))
  ];
  dials_real = λ ip c e nil. cc (rw nil at e);
}

abbrev dialed_outcome : DotOutcome ℕ
dialed_outcome =
    dot_outcome
      (dot_do_query toy_dot one_name dials (λ ip. some ip) "a" 853 quiet dot_query made_a.resolver)

dot_do_query-ConfirmsWorking_example : ConfirmsWorking dials 853 0 dialed_outcome
unfolding new_dot_resolver with_port port_or gather add_each get commit lookup add_all add_ip has_ip
    ip_equal empty dot_do_query add_edns_padding toy dot_send_padded dial_plain_tcp dial_host
    dial_set try_ips get_all shuffle dns_over_tcp_write dns_over_tcp_read dot_conclude
    check_response
dot_do_query-ConfirmsWorking_example =
    dot_do_query-ConfirmsWorking toy_dot one_name dials (λ ip. some ip) "a" 853 dials-ReportsDialed
      quiet 0 made_a.resolver
      ((new_dot_resolver-IsReady parse_toy atoi_toy one_name "dot://a" [] made_a never_nil
        refl).sound)
      refl tt dot_query dialed_outcome refl refl
