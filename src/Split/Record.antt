-- ===== src/Split/Record.antt =====
-- `getTLSClientHelloRecordLen` of transport/split/retrier.go.
use localdns_go.Prelude.{ℕ, ◌+◌, ◌*◌, Bool, ◌||◌, not, Option, none, some, ◌∷◌, ◌==◌, if◌then◌else◌}
use localdns_go.Prelude.Words.{Bytes}

abbrev pub type_handshake : ℕ
type_handshake = 22

-- TLS 1.0 to TLS 1.3
abbrev pub is_tls_version : ℕ → Bool
is_tls_version ver = ver == 0x0301 || ver == 0x0302 || ver == 0x0303 || ver == 0x0304

-- The result `(0, false)` is `none`.
unfoldable pub get_tls_client_hello_record_len : Bytes → Option ℕ
get_tls_client_hello_record_len (t ∷ v1 ∷ v2 ∷ l1 ∷ l2 ∷ rest) =
    if not (t == type_handshake)
    then none
    else if not (is_tls_version (v1 * 256 + v2))
    then none
    else some (l1 * 256 + l2)
get_tls_client_hello_record_len _ = none
