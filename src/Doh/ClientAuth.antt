-- ===== src/Doh/ClientAuth.antt =====
-- proxy/doh/client_auth.go. `K` stands for the public keys, `L` for the parsed certificates; `parse` is
-- x509.ParseCertificate, `public_key` a certificate's key, `is_ecdsa` the test of its type.
pub mod Matching
use localdns_go.Prelude.{
  ℕ, Bool, true, false, Option, none, some, List, [], ◌∷◌, ◌++◌, if◌then◌else◌, Result, ok, err,
}
use localdns_go.Prelude.Words.{Bytes}

-- ClientAuth: what its methods return, `none` for a nil slice.
pub record ClientAuth : Type 0 where
  pub client_certificate : Option Bytes
  pub intermediate_certificate : Option Bytes
  pub signature : Bytes → Option Bytes

-- The fields of `tls.Certificate` that are set; `signs` says that the wrapper is its private key.
pub record Certificate (L : Type 0) : Type 0 where
  pub chain : List Bytes
  pub signs : Bool
  pub leaf : Option L

abbrev pub no_certificate : {L : Type 0} → Certificate L
no_certificate = record { chain = []; signs = false; leaf = none }

pub with_intermediate : Option Bytes → List Bytes → List Bytes
with_intermediate none chain = chain
with_intermediate (some c) chain = chain ++ c ∷ []

pub data SignError : Type 0 where
  no_client_certificate : SignError
  failed_to_sign : SignError

module _ {E L K : Type 0} (parse : Bytes → Result E L) (public_key : L → K)
    (is_ecdsa : K → Bool) where
  pub checked_leaf : List Bytes → Result E L → Certificate L
  checked_leaf chain (err e) = no_certificate
  checked_leaf chain (ok l) =
      if is_ecdsa (public_key l)
      then record { chain = chain; signs = true; leaf = some l }
      else no_certificate

  pub certificate_of : Option Bytes → Option Bytes → Certificate L
  certificate_of none intermediate = no_certificate
  certificate_of (some cert) intermediate =
      checked_leaf (with_intermediate intermediate (cert ∷ [])) (parse cert)

  -- `GetClientCertificate` of the wrapper; `none` is a nil signer. Its error is nil on every path.
  unfoldable pub get_client_certificate : Option ClientAuth → Certificate L
  unfolding certificate_of checked_leaf with_intermediate
  get_client_certificate none = no_certificate
  get_client_certificate (some auth) =
      certificate_of auth.client_certificate auth.intermediate_certificate

module _ {E L K : Type 0} (parse : Bytes → Result E L) (public_key : L → K) where
  pub key_of : Result E L → Option K
  key_of (err e) = none
  key_of (ok l) = some (public_key l)

  pub nil_or : Option Bytes → Bytes
  nil_or none = []
  nil_or (some cert) = cert

  -- `Public`: a nil certificate is parsed as an empty one.
  unfoldable pub public : Option ClientAuth → Option K
  unfolding key_of nil_or
  public none = none
  public (some auth) = key_of (parse (nil_or auth.client_certificate))

pub sign_with : Option Bytes → Result SignError Bytes
sign_with none = err failed_to_sign
sign_with (some s) = ok s

-- `Sign`
unfoldable pub sign : Option ClientAuth → Bytes → Result SignError Bytes
unfolding sign_with
sign none digest = err no_client_certificate
sign (some auth) digest = sign_with (auth.signature digest)
