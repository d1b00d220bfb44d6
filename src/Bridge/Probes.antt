-- ===== src/Bridge/Probes.antt =====
-- The exported probes and the arguments of the exported functions, main/main.go.
use Prim.Native.String.{String}
use localdns_go.Prelude.{
  ◌≡◌, refl, ap, ◌∙◌, inl, inr, Option, Option-cases, none, some, some_eq, ◌∷◌, Result, ok, err,
}
use localdns_go.Prelude.Ints.{ℤ, pos}
use localdns_go.Prelude.Words.{Bytes}
use localdns_go.Doh.Service.{Answer, Service, KeepsId}
use localdns_go.Tunnel.World.{Failure}
use localdns_go.Tunnel.Session.{dns_probe_query, probe, probe_resolver}
use localdns_go.Tunnel.Session.Probed.{probe_has_query_id}
use localdns_go.Bridge.Callbacks.{probe_server}
use localdns_go.Bridge.Sessions.{error_code}

-- `goString`: a nil pointer is the empty string; `text` is C.GoString of another pointer.
unfoldable pub go_string : {P : Type 0} → (P → String) → Option P → String
go_string text none = ""
go_string text (some p) = text p

pub code_of : {S E : Type 0} → Option (Option (Failure E) × S) → Option (ℤ × S)
code_of none = none
code_of (some (f, st)) = some (error_code f, st)

-- A code of 0 is that of a call without an error.
no_failure : {E : Type 0} (f : Option (Failure E)) → error_code f ≡ pos 0 → f ≡ none
unfolding error_code
no_failure none h = refl
no_failure (some f) h = cc

module _ {S V E : Type 0} where
  -- localdnsProbeDoH and localdnsProbeDoT, for how the making of the server ends; a panic is `none`.
  unfoldable pub probe_code : Result E (Service S V E) → V → S → Option (ℤ × S)
  unfolding code_of
  probe_code made v st = code_of (probe_server made v st)

  -- For servers that keep the promises of the interface `Resolver`: a probe returns 0 only when the server
  -- could be made and has answered the probe's query, without an error, by a message with its zero ID.
  pub probe_code-answered :
      (made : Result E (Service S V E)) (v : V) (st st' : S)
      → ((s : Service S V E) → made ≡ ok s → KeepsId s)
      → probe_code made v st ≡ some (pos 0, st')
      → (s : Service S V E) × (a : Answer E) × (rest : Bytes) × (made ≡ ok s)
        × (s.query v dns_probe_query st ≡ some (a, st'))
        × (a.error ≡ none)
        × (a.response ≡ some (0 ∷ 0 ∷ rest))
  unfolding probe_code probe_server code_of error_code probe
  probe_code-answered (err e) v st st' keeps run = cc
  probe_code-answered (ok s) v st st' keeps run = elim (Option-cases (probe_resolver s v st)) [
    | inl panics ↦ cc (rw (panics, code_of) at run)
    | inr ((f, st1), e) ↦
        let same = some_eq (rw (e, code_of) at run) in
        let fine = no_failure f (ap (λ (z : ℤ × S). z.0) same) in
        let (a, rest, answered, good, id) =
          probe_has_query_id s (keeps s refl) v st st'
            (e ∙ cc (fine, ap (λ (z : ℤ × S). z.1) same)) in
        (s, a, rest, refl, answered, good, id)
  ]
