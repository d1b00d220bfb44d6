-- ===== src/Doh/Message.antt =====
-- The package golang.org/x/net/dns/dnsmessage, which is not part of the repository: a parameter. The
-- exported structs are records with the fields that the program reads or writes; `Question`,
-- `ResourceHeader` and the bodies other than OPT stay abstract.
use localdns_go.Prelude.{ℕ, ◌≤◌, ◌≡◌, Bool, some, List, length, Result, ok}
use localdns_go.Prelude.Words.{Bytes, uint16}

-- Option
pub record EdnsOption : Type 0 where
  pub code : ℕ
  pub payload : Bytes

-- ResourceBody: OPTResource, or another one
pub data Body (B : Type 0) : Type 0 where
  opt_resource : List EdnsOption → Body B
  other_body : B → Body B

-- Resource
pub record Resource (H B : Type 0) : Type 0 where
  pub header : H
  pub body : Body B

-- Message, with its embedded Header. `flags` stands for the header fields that the program leaves alone.
pub record Message (Q H B : Type 0) : Type 0 where
  pub id : ℕ
  pub is_response : Bool
  pub recursion_available : Bool
  pub rcode : ℕ
  pub flags : ℕ
  pub questions : List Q
  pub answers : List (Resource H B)
  pub authorities : List (Resource H B)
  pub additionals : List (Resource H B)

-- The calls that the program makes. `edns_header` is what `SetEDNS0(65535, RCodeSuccess, false)` makes
-- of an empty `ResourceHeader`, `name` is `Question.Name.String()`.
pub record Dns (E Q H B : Type 0) : Type 0 where
  pub unpack : Bytes → Result E (Message Q H B)
  pub pack : Message Q H B → Result E Bytes
  pub edns_header : Result E H
  pub name : Q → Bytes

-- RFC 1035, 4.1.1: a packed message starts with its ID, in a header of twelve bytes.
pub record HasHeader {E Q H B : Type 0} (d : Dns E Q H B) : Type 0 where
  pub unpack_length : (b : Bytes) (m : Message Q H B) → d.unpack b ≡ ok m → 12 ≤ length b
  pub unpack_id : (b : Bytes) (m : Message Q H B) → d.unpack b ≡ ok m → uint16 b ≡ some m.id
  pub pack_length : (m : Message Q H B) (b : Bytes) → d.pack m ≡ ok b → 12 ≤ length b
  pub pack_id : (m : Message Q H B) (b : Bytes) → d.pack m ≡ ok b → uint16 b ≡ some m.id
