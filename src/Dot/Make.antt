-- ===== src/Dot/Make.antt =====
-- `NewResolver` of proxy/dot/dot.go, with the parameters of Doh/Make.
pub mod Reached
pub mod Answers
use Prim.Native.String.{String}
use text.Mathlib.Text.{◌==◌ as str_eq}
use localdns_go.Prelude.{
  ℕ, Bool, true, false, not, ◌||◌, List, [], ◌∷◌, Result, ok, err, if◌then◌else◌,
}
use localdns_go.Net.Ip.{Ip}
use localdns_go.Doh.Make.{
  Url, MakeError, callee_error, bad_scheme, empty_host, Made, with_port, port_or,
}

abbrev pub default_dot_port : ℕ
default_dot_port = 853

module _ {E : Type 0} where
  pub dot_of_url :
      (String → Result E ℕ)
      → (String → List Ip)
      → List String
      → Result E Url
      → Result (MakeError E) Made
  dot_of_url atoi resolve addrs (err e) = err (callee_error e)
  dot_of_url atoi resolve addrs (ok url) =
      if str_eq url.scheme "dot" || str_eq url.scheme "tls"
      then if str_eq url.hostname ""
        then err empty_host
        else with_port resolve url.hostname addrs (port_or default_dot_port atoi url.port)
      else err (bad_scheme url.scheme)

  -- dot.NewResolver
  unfoldable pub new_dot_resolver :
      (String → Result E Url)
      → (String → Result E ℕ)
      → (String → List Ip)
      → String
      → List String
      → Result (MakeError E) Made
  unfolding dot_of_url
  new_dot_resolver parse atoi resolve raw_url addrs = dot_of_url atoi resolve addrs (parse raw_url)
