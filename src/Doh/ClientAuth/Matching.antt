-- ===== src/Doh/ClientAuth/Matching.antt =====
-- The certificate and the key that stands for it.
use localdns_go.Prelude.{
  ◌≡◌, refl, ◌⊎◌, inl, inr, Bool, true, some, [], ◌∷◌, Option-cases, Bool-cases, Result, ok,
  Result-cases,
}
use localdns_go.Prelude.Words.{Bytes}
use localdns_go.Doh.ClientAuth.{
  ClientAuth, no_certificate, with_intermediate, certificate_of, checked_leaf,
  get_client_certificate, key_of, public,
}

module _ {E L K : Type 0} (parse : Bytes → Result E L) (public_key : L → K)
    (is_ecdsa : K → Bool) where
  -- A handshake goes on without authentication, or with a certificate whose chain starts with the client's
  -- certificate and goes on with the intermediate one, if there is one; then the wrapper signs, and the
  -- key that `Public` returns is the ECDSA key of the chain's first certificate.
  pub get_client_certificate-matches :
      (auth : ClientAuth)
      → let c = get_client_certificate parse public_key is_ecdsa (some auth) in
        (c ≡ no_certificate)
        ⊎ ((cert : Bytes) × (l : L) × (auth.client_certificate ≡ some cert)
            × (parse cert ≡ ok l)
            × (c.chain ≡ with_intermediate auth.intermediate_certificate (cert ∷ []))
            × (c.signs ≡ true)
            × (c.leaf ≡ some l)
            × (public parse public_key (some auth) ≡ some (public_key l))
            × (is_ecdsa (public_key l) ≡ true))
  unfolding get_client_certificate certificate_of checked_leaf public key_of
  get_client_certificate-matches auth = elim (Option-cases auth.client_certificate) [
    | inl missing ↦ inl (rw missing refl)
    | inr (cert, there) ↦ elim (Result-cases (parse cert)) [
      | inr (e, bad) ↦ inl (rw (there, bad) refl)
      | inl (l, good) ↦ elim (Bool-cases (is_ecdsa (public_key l))) [
        | inr other ↦ inl (rw (there, good, other) refl)
        | inl ecdsa ↦ inr (
          cert,
          l,
          there,
          good,
          rw (there, good, ecdsa) refl,
          rw (there, good, ecdsa) refl,
          rw (there, good, ecdsa) refl,
          rw (there, good) refl,
          ecdsa,
        )
      ]
    ]
  ]
