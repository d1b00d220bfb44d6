-- ===== src/Bridge/Sessions/Usable.antt =====
-- The table with the servers that the constructors of app/session make.
use Prim.Native.String.{String}
use localdns_go.Prelude.{
  ℕ, ◌≡◌, sym, ◌∙◌, Bool, true, false, Option, none, some, List, [], ◌∷◌, ◌==◌, if◌then◌else◌,
  Result, ok, err, All,
}
use localdns_go.Net.Ip.{Ip}
use localdns_go.Doh.Make.{Url, MakeError, Made}
use localdns_go.Doh.Make.Ready.{NeverNil, IsReady, new_doh_resolver-IsReady}
use localdns_go.Dot.Make.Answers.{new_dot_resolver-IsReady}
use localdns_go.Tunnel.Session.{new_doh_server, new_dot_server, server_ips}
use localdns_go.Bridge.Sessions.{
  Bridge, new_bridge, Protocol, over_https, over_tls, Servers, server_of, Call, connects,
  disconnects, sets, serve, serve_all,
}
use localdns_go.Bridge.Sessions.Runs.{Wraps}
use localdns_go.Bridge.Sessions.Views.{
  Directory, answer_with, replaced, note_call, given_by, note_calls, view, tcp_server, udp_server,
  serve_all-refines,
}

module _ {R : Type 0} (P : R → Type 0) where
  abbrev pub Holds : Option R → Type 0
  Holds x = (r : R) → x ≡ some r → P r

  if-Holds : (b : Bool) (x y : Option R) → Holds x → Holds y → Holds (if b then x else y)
  if-Holds true x y hx hy = hx
  if-Holds false x y hx hy = hy

module _ {R E : Type 0} (P : R → Type 0) where
  -- Each server that a call may make has the property.
  abbrev Makes : Call R E → Type 0
  Makes (connects p fd servers v) = (r : R) → server_of p servers ≡ ok r → P r
  Makes (disconnects h) = Unit
  Makes (sets p h servers) = (r : R) → server_of p servers ≡ ok r → P r

  answer_with-Holds :
      (made : Result E R) (old : Option R)
      → ((r : R) → made ≡ ok r → P r)
      → Holds P old
      → Holds P (answer_with made old)
  answer_with-Holds (ok s) old h g r e = h r (cc e)
  answer_with-Holds (err f) old h g r e = g r e

  replaced-Holds :
      (made : Result E R) (old : Option R)
      → ((r : R) → made ≡ ok r → P r)
      → Holds P old
      → Holds P (replaced made old)
  replaced-Holds made none h g = λ r e. cc
  replaced-Holds made (some s) h g = answer_with-Holds made (some s) h g

  note_call-Holds :
      (c : Call R E) (given : Option ℕ) (d : Directory R)
      → Makes c
      → ((k : ℕ) → Holds P (d k))
      → (k : ℕ) → Holds P (note_call c given d k)
  unfolding note_call
  note_call-Holds (connects p fd servers v) none d m h k = h k
  note_call-Holds (connects p fd servers v) (some j) d m h k =
      if-Holds P (j == k) _ _ (answer_with-Holds (server_of p servers) none m (λ r e. cc)) (h k)
  note_call-Holds (disconnects j) given d m h k = if-Holds P (j == k) _ _ (λ r e. cc) (h k)
  note_call-Holds (sets p j servers) given d m h k =
      if-Holds P (j == k) _ _ (replaced-Holds (server_of p servers) (d k) m (h k)) (h k)

  note_calls-Holds :
      (cs : List (Call R E)) (b : Bridge R) (d : Directory R)
      → All Makes cs
      → ((k : ℕ) → Holds P (d k))
      → (k : ℕ) → Holds P (note_calls cs b d k)
  unfolding note_calls
  note_calls-Holds [] b d m h k = h k
  note_calls-Holds (c ∷ cs) b d m h k =
      note_calls-Holds cs (serve c b) _ m.1 (note_call-Holds c (given_by c b) d m.0 h) k

module _ {E : Type 0} (parse : String → Result E Url) (atoi : String → Result E ℕ)
    (resolve : String → List Ip) (split : String → List String) where
  -- The servers of a call come from the constructors, for some URL and list of addresses.
  abbrev pub FromConstructors : Servers Made (MakeError E) → Type 0
  FromConstructors servers =
      (url : String) × (ips_str : String) × (servers.doh_server
        ≡ new_doh_server parse atoi resolve split url ips_str)
      × (servers.dot_server ≡ new_dot_server parse atoi resolve split url ips_str)

  abbrev pub UsesConstructors : Call Made (MakeError E) → Type 0
  UsesConstructors (connects p fd servers v) = FromConstructors servers
  UsesConstructors (disconnects h) = Unit
  UsesConstructors (sets p h servers) = FromConstructors servers

  abbrev pub IsUsable : Made → Type 0
  IsUsable made = IsReady made.hostname made.resolver.ips

  server_of-IsUsable :
      (p : Protocol) (servers : Servers Made (MakeError E)) (made : Made)
      → NeverNil resolve
      → FromConstructors servers
      → server_of p servers ≡ ok made
      → IsUsable made
  unfolding new_doh_server new_dot_server server_of
  server_of-IsUsable over_https servers made never (url, ips, doh, dot) e =
      new_doh_resolver-IsReady parse atoi resolve url (server_ips split ips) made never
        (sym doh ∙ e)
  server_of-IsUsable over_tls servers made never (url, ips, doh, dot) e =
      new_dot_resolver-IsReady parse atoi resolve url (server_ips split ips) made never
        (sym dot ∙ e)

  -- Behind any calls of the platform with the servers that the constructors make, with any errors: the
  -- server that the TCP flows and the UDP flows of a session use is one for which a constructor found an
  -- address of its host, and its set holds no nil address. The system resolver answers no nil address,
  -- and os.NewFile gives files for the descriptors of Dup.
  pub serve_all-IsUsable :
      (cs : List (Call Made (MakeError E))) (k : ℕ) (made : Made)
      → NeverNil resolve
      → All Wraps cs
      → All UsesConstructors cs
      → (view tcp_server (serve_all cs new_bridge) k ≡ some made → IsUsable made)
        × (view udp_server (serve_all cs new_bridge) k ≡ some made → IsUsable made)
  serve_all-IsUsable cs k made never wraps uses =
      let both = serve_all-refines cs k wraps in
      let usable =
        note_calls-Holds IsUsable cs new_bridge (λ j. none) (all_made cs uses) (λ j r e. cc) k
          made in
      ((λ e. usable (sym both.0 ∙ e)), (λ e. usable (sym both.1 ∙ e)))
    where
      made_by : (c : Call Made (MakeError E)) → UsesConstructors c → Makes IsUsable c
      made_by (connects p fd servers v) u = λ r e. server_of-IsUsable p servers r never u e
      made_by (disconnects h) u = tt
      made_by (sets p h servers) u = λ r e. server_of-IsUsable p servers r never u e

      all_made :
          (cs : List (Call Made (MakeError E))) → All UsesConstructors cs → All (Makes IsUsable) cs
      all_made [] u = tt
      all_made (c ∷ cs) u = (made_by c u.0, all_made cs u.1)
