-- ===== src/Socket/Family.antt =====
-- Which resolver is dialed.
use Prim.Native.String.{String}
use text.Mathlib.Text.{◌==◌ as str_eq}
use text.Mathlib.TextEquality.{eq_iff}
use text.Mathlib.TextPositions.{eq_refl}
use localdns_go.Prelude.{
  ◌≡◌, refl, sym, ap, ◌∙◌, ◌⊎◌, inl, inr, Bool, true, false, Option, none, some, List, [], ◌∷◌,
  ◌++◌, All, Bool-cases, if◌then◌else◌, Result, ok, ok_eq, Result-cases, Option-cases,
}
use localdns_go.Net.Ip.{Ip}
use localdns_go.Socket.{
  is_v4, of_family, scan, join_new, on_host_port, first_or_scanned, replace_ip, resolver_address,
}

module _ (parse_ip : String → Option Ip) where
  -- The first entry of the family, or the statement that there is none.
  abbrev pub FirstOf : List String → Bool → String → Type 0
  FirstOf ips want_v4 ip =
      (before : List String) × (after : List String) × (ips ≡ before ++ ip ∷ after)
      × (of_family parse_ip want_v4 ip ≡ true)
      × All (λ other. of_family parse_ip want_v4 other ≡ false) before

  abbrev pub NoneOf : List String → Bool → Type 0
  NoneOf ips want_v4 = All (λ other. of_family parse_ip want_v4 other ≡ false) ips

  scan_cases :
      (ips : List String) (want_v4 : Bool)
      → FirstOf ips want_v4 (scan parse_ip ips want_v4)
        ⊎ (NoneOf ips want_v4 × (scan parse_ip ips want_v4 ≡ ""))
  unfolding scan
  scan_cases [] want_v4 = inr (tt, refl)
  scan_cases (ip ∷ ips) want_v4 = elim (Bool-cases (of_family parse_ip want_v4 ip)) [
    | inl here ↦ inl (simp here ([], ips, refl, refl, tt))
    | inr other ↦ elim (scan_cases ips want_v4) [
      | inl (before, after, e, family, others) ↦
          inl (simp other (ip ∷ before, after, ap (λ z. ip ∷ z) e, family, (other, others)))
      | inr (others, nothing) ↦ inr (simp other ((refl, others), nothing))
    ]
  ]

  none_of_empty : (want_v4 : Bool) → parse_ip "" ≡ none → of_family parse_ip want_v4 "" ≡ false
  unfolding of_family
  none_of_empty want_v4 h = rw (h, of_family) refl

  chosen_cases :
      (first : String) (ips : List String) (want_v4 : Bool)
      → parse_ip "" ≡ none
      → let chosen = first_or_scanned first (scan parse_ip (first ∷ ips) want_v4) in
        FirstOf (first ∷ ips) want_v4 chosen ⊎ (NoneOf (first ∷ ips) want_v4 × (chosen ≡ first))
  unfolding first_or_scanned
  chosen_cases first ips want_v4 no_ip = elim (scan_cases (first ∷ ips) want_v4) [
    | inr (others, nothing) ↦
        inr (others, rw nothing (ap (λ b. if b then first else "") (eq_refl "")))
    | inl (before, after, e, family, others) ↦
        elim (Bool-cases (str_eq (scan parse_ip (first ∷ ips) want_v4) "")) [
          | inr some_ip ↦ rw some_ip (inl (before, after, e, family, others))
          | inl nothing ↦
              let empty : scan parse_ip (first ∷ ips) want_v4 ≡ "" = (eq_iff _ "").0 nothing in
              cc (family, none_of_empty want_v4 no_ip, empty)
        ]
  ]

  scan_empty : (want_v4 : Bool) → scan parse_ip ("" ∷ []) want_v4 ≡ ""
  unfolding scan
  scan_empty want_v4 = elim (Bool-cases (of_family parse_ip want_v4 "")) [
    | inl t ↦ rw t refl
    | inr t ↦ rw t refl
  ]

  chosen_empty : (want_v4 : Bool) → first_or_scanned "" (scan parse_ip ("" ∷ []) want_v4) ≡ ""
  unfolding first_or_scanned
  chosen_empty want_v4 = rw (scan_empty want_v4) (ap (λ b. if b then "" else "") (eq_refl ""))

  module _ {E : Type 0} (split_host_port : String → Result E (String × String))
      (join : String → String → String) where
    -- The address that `replaceIP` returns has the port of the given one, and as its host the first of the
    -- resolvers that is an address of the family of the given one, or the first resolver if none is. The
    -- empty string is no address.
    pub replace_ip-family :
        (addr new first : String) (ips : List String)
        → parse_ip "" ≡ none
        → replace_ip parse_ip split_host_port join addr (first ∷ ips) ≡ ok new
        → (host : String) × (port : String) × (orig : Ip) × (chosen : String) × (split_host_port
              addr
            ≡ ok (host, port))
          × (parse_ip host ≡ some orig)
          × (new ≡ join chosen port)
          × (FirstOf (first ∷ ips) (is_v4 orig) chosen
              ⊎ (NoneOf (first ∷ ips) (is_v4 orig) × (chosen ≡ first)))
    unfolding replace_ip on_host_port join_new
    replace_ip-family addr new first ips no_ip run = elim (Result-cases (split_host_port addr)) [
      | inr (e, bad) ↦ cc (rw (bad, replace_ip) at run)
      | inl ((host, port), good) ↦ elim (Option-cases (parse_ip host)) [
        | inl bad ↦ cc (rw (good, replace_ip, on_host_port, bad) at run)
        | inr (orig, parsed) ↦ (
          host,
          port,
          orig,
          first_or_scanned first (scan parse_ip (first ∷ ips) (is_v4 orig)),
          good,
          parsed,
          sym (ok_eq (rw (good, replace_ip, on_host_port, parsed) at run)),
          chosen_cases first ips (is_v4 orig) no_ip,
        )
      ]
    ]

    replaced :
        (address host port : String) (orig : Ip)
        → split_host_port address ≡ ok (host, port)
        → parse_ip host ≡ some orig
        → replace_ip parse_ip split_host_port join address ("" ∷ []) ≡ ok (join "" port)
    unfolding replace_ip on_host_port join_new
    replaced address host port orig good parsed =
        rw (good, replace_ip, on_host_port, parsed, join_new)
          (ap (λ z. ok (join z port)) (chosen_empty (is_v4 orig)))

    -- When the platform has no resolvers, its empty list is cut into one empty entry, and the address that
    -- is dialed has an empty host: the error for no resolvers does not occur.
    pub resolver_address_without_resolvers :
        (split : String → List String) (address host port : String) (orig : Ip)
        → split "" ≡ "" ∷ []
        → split_host_port address ≡ ok (host, port)
        → parse_ip host ≡ some orig
        → resolver_address parse_ip split_host_port join split "" address ≡ ok (join "" port)
    unfolding resolver_address
    resolver_address_without_resolvers split address host port orig cut good parsed =
        ap (replace_ip parse_ip split_host_port join address) cut
        ∙ replaced address host port orig good parsed
