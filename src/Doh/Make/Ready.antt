-- ===== src/Doh/Make/Ready.antt =====
-- What a resolver has behind `NewResolver`.
use Prim.Native.String.{String}
use text.Mathlib.Text.{◌==◌ as str_eq}
use localdns_go.Prelude.{
  ℕ, ◌<◌, ◌≡◌, refl, sym, ap, ◌∙◌, subst, false, some, ==_iff, List, [], ◌∷◌, length, get_or-set,
  Result, ok, err, ok_eq, arith, Bool-cases, Result-cases, inl, inr, ◌==◌, if◌then◌else◌,
}
use localdns_go.Prelude.Maps.{lookup}
use localdns_go.Net.Ip.{Ip, nil_ip, ip_equal}
use localdns_go.IpMap.{IpSet, new_set, has_ip, add_ip, add_all, empty}
use localdns_go.IpMap.Valid.{Op, adds, apply, has_ip-append}
use localdns_go.IpMap.Store.{Store, new_store, set_at, update, find, commit, get}
use localdns_go.IpMap.Store.Stable.{
  IsSound, new_store-IsSound, get-IsSound, update-IsSound, find-get_self,
}
use localdns_go.Doh.Make.{
  Made, add_each, gather, checked, with_port, Url, port_or, new_doh_resolver, doh_of_url,
}

-- The system resolver's answers are addresses.
abbrev pub NeverNil : (String → List Ip) → Type 0
NeverNil resolve = (name : String) → has_ip (resolve name) nil_ip ≡ false

-- A map whose set `p` stands for the host and holds no nil address.
record IsClean (host : String) (p : ℕ) (m : Store) : Type 0 where
  sound : IsSound m
  held : find host m ≡ some p
  no_nil : has_ip (set_at p m).ips nil_ip ≡ false

-- The same with an address in it.
pub record IsReady (host : String) (m : Store) : Type 0 where
  pub place : ℕ
  pub sound : IsSound m
  pub held : find host m ≡ some place
  pub some_ips : 0 < length (set_at place m).ips
  pub no_nil : has_ip (set_at place m).ips nil_ip ≡ false

pub has_ip-add_ip_none :
    (ip other : Ip) (s : IpSet)
    → ip_equal ip other ≡ false
    → has_ip s.ips other ≡ false
    → has_ip (add_ip ip s).ips other ≡ false
unfolding add_ip has_ip
has_ip-add_ip_none ip other s d h = ground (arith, has_ip-append s.ips (ip ∷ []) other)

pub has_ip-add_all_none :
    (ips : List Ip) (other : Ip) (s : IpSet)
    → has_ip ips other ≡ false
    → has_ip s.ips other ≡ false
    → has_ip (add_all ips s).ips other ≡ false
unfolding add_all has_ip
has_ip-add_all_none [] other s d h = h
has_ip-add_all_none (ip ∷ ips) other s d h =
    has_ip-add_all_none ips other (add_ip ip s) (ground arith)
      (has_ip-add_ip_none ip other s (ground arith) h)

pub set_at-update :
    (op : Op) (host : String) (p : ℕ) (m : Store)
    → IsSound m
    → find host m ≡ some p
    → set_at p (update op p m) ≡ apply op (set_at p m)
set_at-update op host p m sound held =
    get_or-set m.sets p p (apply op (set_at p m)) new_set (sound.inside host p held)
    ∙ ap (λ b. if b then apply op (set_at p m) else set_at p m) ((==_iff p p).1 refl)

has_ip-adds_none :
    (ips : List Ip) (other : Ip) (s : IpSet)
    → has_ip ips other ≡ false
    → has_ip s.ips other ≡ false
    → has_ip (apply (adds ips) s).ips other ≡ false
unfolding apply
has_ip-adds_none ips other s = has_ip-add_all_none ips other s

add_each-IsClean :
    (resolve : String → List Ip) (addrs : List String) (host : String) (p : ℕ) (m : Store)
    → NeverNil resolve
    → IsClean host p m
    → IsClean host p (add_each resolve addrs p m)
unfolding add_each
add_each-IsClean resolve [] host p m never c = c
add_each-IsClean resolve (addr ∷ addrs) host p m never c =
    add_each-IsClean resolve addrs host p (update (adds (resolve addr)) p m) never (record {
      sound = update-IsSound (adds (resolve addr)) p c.sound;
      held = c.held;
      no_nil =
          ap (λ (s : IpSet). has_ip s.ips nil_ip)
            (set_at-update (adds (resolve addr)) host p m c.sound c.held)
          ∙ has_ip-adds_none (resolve addr) nil_ip (set_at p m) (never addr) c.no_nil;
    })

new_set-no_nil : has_ip new_set.ips nil_ip ≡ false
unfolding has_ip
new_set-no_nil = refl

get-no_nil :
    (resolve : String → List Ip) (host : String)
    → NeverNil resolve
    → has_ip
        (set_at (get host (resolve host) new_store).0 (get host (resolve host) new_store).1).ips
        nil_ip
      ≡ false
unfolding get lookup commit
get-no_nil resolve host never =
    has_ip-add_all_none (resolve host) nil_ip new_set (never host) new_set-no_nil

get-IsClean :
    (resolve : String → List Ip) (host : String)
    → NeverNil resolve
    → IsClean host (get host (resolve host) new_store).0 (get host (resolve host) new_store).1
get-IsClean resolve host never = record {
  sound = get-IsSound host (resolve host) new_store-IsSound;
  held = find-get_self host (resolve host) new_store;
  no_nil = get-no_nil resolve host never;
}

gather-IsClean :
    (resolve : String → List Ip) (host : String) (addrs : List String)
    → NeverNil resolve
    → IsClean host (gather resolve host addrs).0 (gather resolve host addrs).1
unfolding gather
gather-IsClean resolve host addrs never =
    add_each-IsClean resolve addrs host _ _ never (get-IsClean resolve host never)

-- A constructor that returns a resolver has put an address of its host into the map, and none is nil;
-- the system resolver answers no nil address.
pub with_port-IsReady :
    {E : Type 0} (resolve : String → List Ip) (host : String) (addrs : List String)
    (port : Result E ℕ) (made : Made)
    → NeverNil resolve
    → with_port resolve host addrs port ≡ ok made
    → (made.hostname ≡ host) × IsReady made.hostname made.resolver.ips
unfolding with_port checked empty
with_port-IsReady resolve host addrs (err e) made never run = cc
with_port-IsReady resolve host addrs (ok port) made never run =
    let (p, m) = gather resolve host addrs in
    let c = gather-IsClean resolve host addrs never in
    elim (Bool-cases (length (set_at p m).ips == 0)) [
      | inl none_there ↦ cc (rw none_there at run)
      | inr there ↦
          let same = ok_eq (rw there at run) in
          (
            ap (λ (z : Made). z.hostname) (sym same),
            subst (λ (z : Made). IsReady z.hostname z.resolver.ips) same
                (record {
                  place = p;
                  sound = c.sound;
                  held = c.held;
                  some_ips = ground arith;
                  no_nil = c.no_nil;
                }),
          )
    ]

pub new_doh_resolver-IsReady :
    {E : Type 0} (parse : String → Result E Url) (atoi : String → Result E ℕ)
    (resolve : String → List Ip) (raw_url : String) (addrs : List String) (made : Made)
    → NeverNil resolve
    → new_doh_resolver parse atoi resolve raw_url addrs ≡ ok made
    → IsReady made.hostname made.resolver.ips
unfolding new_doh_resolver doh_of_url
new_doh_resolver-IsReady parse atoi resolve raw_url addrs made never run =
    elim (Result-cases (parse raw_url)) [
      | inr (e, bad) ↦ cc (rw (bad, new_doh_resolver) at run)
      | inl (url, good) ↦ elim (Bool-cases (str_eq url.scheme "https")) [
        | inr other ↦ cc (rw (good, new_doh_resolver, doh_of_url, other) at run)
        | inl scheme ↦
            (with_port-IsReady resolve url.hostname addrs (port_or 443 atoi url.port) made never
              (rw (good, new_doh_resolver, doh_of_url, scheme) at run)).1
      ]
    ]
