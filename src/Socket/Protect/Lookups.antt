-- ===== src/Socket/Protect/Lookups.antt =====
-- The lookups of names by a protected dialer.
use Prim.Native.String.{String}
use localdns_go.Prelude.{
  ℕ, ◌%◌, ◌^◌, ◌≡◌, refl, sym, ap, ◌∙◌, ◌⊎◌, inl, inr, Option, none, some, some_eq, List, [], ◌∷◌,
  Result, Result-cases, Bool-cases, ok, err,
}
use localdns_go.Net.Ip.{Ip}
use localdns_go.Socket.{ResolverError, resolver_address, replace_ip, is_v4}
use localdns_go.Socket.Family.{FirstOf, NoneOf, replace_ip-family}
use localdns_go.Socket.Protect.{
  Protector, Control, SocketCall, protects, logs_failure, make_control, dialed, make_dialer,
  resolver_dialer,
}

module _ {E C : Type 0} (parse_ip : String → Option Ip)
    (split_host_port : String → Result E (String × String)) (join : String → String → String)
    (split : String → List String)
    (dial_context : Option (Control E) → String → String → Result (ResolverError E) C)
    (p : Protector) where
  -- A control function that asks the platform to protect each socket, before anything else, with the
  -- descriptor as the platform gets it; it reports only the error of `c.Control`.
  pub record Protects (control : Option (Control E)) : Type 0 where
    pub function : Control E
    pub installed : control ≡ some function
    pub protects_first :
        (network : String) (fd : ℕ)
        → (logs : List SocketCall) × (function network (ok fd)
            ≡ (protects (fd % 2 ^ 32) ∷ logs, none))
    pub passes_error : (network : String) (e : E) → function network (err e) ≡ ([], some e)

  -- A dial of one of the platform's resolvers, at the port of the address that was asked for, by a
  -- dialer with the control function `control`: the first resolver of the family of that address, or the
  -- first of all if there is none.
  pub record AsksPlatform (control : Option (Control E)) (network address : String) (c : C)
      : Type 0 where
    pub host : String
    pub port : String
    pub asked : split_host_port address ≡ ok (host, port)
    pub wanted : Ip
    pub parsed : parse_ip host ≡ some wanted
    pub first : String
    pub others : List String
    pub listed : split p.get_resolvers ≡ first ∷ others
    pub resolver : String
    pub choice :
        FirstOf parse_ip (first ∷ others) (is_v4 wanted) resolver
        ⊎ (NoneOf parse_ip (first ∷ others) (is_v4 wanted) × (resolver ≡ first))
    pub protected : Protects control
    pub by_dialer : dial_context control network (join resolver port) ≡ ok c

  make_control-Protects : Protects (some (make_control p))
  unfolding make_control
  make_control-Protects = record {
    function = make_control p;
    installed = refl;
    protects_first = λ network fd. elim (Bool-cases (p.protect (fd % 2 ^ 32))) [
      | inl works ↦ rw works ([], refl)
      | inr fails ↦ rw fails (logs_failure network ∷ [], refl)
    ];
    passes_error = λ network e. refl;
  }

  dialed_new :
      (control : Option (Control E)) (network address new : String) (c : C) (ips : List String)
      → Protects control
      → parse_ip "" ≡ none
      → split p.get_resolvers ≡ ips
      → replace_ip parse_ip split_host_port join address ips ≡ ok new
      → dial_context control network new ≡ ok c
      → AsksPlatform control network address c
  unfolding replace_ip
  dialed_new control network address new c [] guarded no_ip listed run done = cc
  dialed_new control network address new c (first ∷ others) guarded no_ip listed run done =
      let (host, port, orig, chosen, cut, parsed, joined, family) =
        replace_ip-family parse_ip split_host_port join address new first others no_ip run in
      record {
        host = host;
        port = port;
        asked = cut;
        wanted = orig;
        parsed = parsed;
        first = first;
        others = others;
        listed = listed;
        resolver = chosen;
        choice = family;
        protected = guarded;
        by_dialer = ap (dial_context control network) (sym joined) ∙ done;
      }

  -- With a protector, a name is looked up over a dialer with the same control function, and this function
  -- first of all asks the platform to protect each socket that it gets: a connection that the dialer's resolver gets is one that the dialer dialed with that function,
  -- at the port that was asked for, to an entry of the platform's list of resolvers: to the first that is
  -- an address of the family of the one that was asked for, or to the first entry if none is. The empty
  -- string is no address.
  pub make_dialer-AsksPlatform :
      (dial : String → String → Result (ResolverError E) C) (network address : String) (c : C)
      → parse_ip "" ≡ none
      → let d = make_dialer parse_ip split_host_port join split dial_context (some p) in
        d.resolver_dial ≡ some dial
        → dial network address ≡ ok c
        → AsksPlatform d.control network address c
  unfolding make_dialer resolver_dialer dialed resolver_address
  make_dialer-AsksPlatform dial network address c no_ip made run =
      let run' =
        ap (λ (f : String → String → Result (ResolverError E) C). f network address) (some_eq made)
        ∙ run in
      elim (Result-cases
        (replace_ip parse_ip split_host_port join address (split p.get_resolvers))) [
          | inr (e, bad) ↦ cc (rw (bad, dialed) at run')
          | inl (new, good) ↦
              dialed_new (some (make_control p)) network address new c _ make_control-Protects no_ip
                refl good (rw (good, dialed) at run')
        ]
