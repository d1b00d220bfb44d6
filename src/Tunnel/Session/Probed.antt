-- ===== src/Tunnel/Session/Probed.antt =====
-- What a probe that succeeds has seen.
use localdns_go.Prelude.{
  ◌≡◌, refl, ap, ◌∙◌, Option, none, some, ◌∷◌, some_eq, Option-cases, inl, inr, arith,
}
use localdns_go.Prelude.Words.{Bytes}
use localdns_go.Doh.Service.{Answer, Service, KeepsId}
use localdns_go.Tunnel.World.{Failure}
use localdns_go.Tunnel.Session.{dns_probe_query, judge_probe, probe_resolver}

judge_probe-eq-none :
    {E : Type 0} (x : Option Bytes) (e : Option E) → judge_probe x e ≡ none → e ≡ none
unfolding judge_probe
judge_probe-eq-none x none h = refl
judge_probe-eq-none x (some e) h = cc

module _ {S V E : Type 0} (s : Service S V E) where
  -- For any resolver that keeps the promises of the interface: a probe that reports no error has had an
  -- answer without an error, whose first two bytes are the zero ID of the probe's query.
  pub probe_has_query_id :
      KeepsId s
      → (v : V) (st st' : S) → probe_resolver s v st ≡ some (none, st')
      → (a : Answer E) × (rest : Bytes) × (s.query v dns_probe_query st ≡ some (a, st'))
        × (a.error ≡ none)
        × (a.response ≡ some (0 ∷ 0 ∷ rest))
  unfolding probe_resolver
  probe_has_query_id k v st st' run = elim (Option-cases (s.query v dns_probe_query st)) [
    | inl panics ↦ cc (rw (panics, probe_resolver) at run)
    | inr ((a, st1), e) ↦
        let same = some_eq (rw (e, probe_resolver) at run) in
        let fine =
          judge_probe-eq-none a.response a.error (ap (λ (z : Option (Failure E) × S). z.0) same) in
        let (rest, id) = k.id_kept v 0 0 _ st st1 a (omega arith) (omega arith) e fine in
        (
          a,
          rest,
          e ∙ ap (λ z. some (a, z)) (ap (λ (z : Option (Failure E) × S). z.1) same),
          fine,
          id,
        )
  ]
