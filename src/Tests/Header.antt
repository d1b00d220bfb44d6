-- ===== src/Tests/Header.antt =====
-- An instance of the message package that keeps the header and the number of questions, for the tests.
use Prim.Native.String.{String}
use localdns_go.Prelude.{
  ℕ, ◌+◌, ◌*◌, ◌/◌, ◌%◌, Bool, List, [], ◌∷◌, length, replicate, Result, ok, err, ltb, ◌==◌,
  if◌then◌else◌,
}
use localdns_go.Prelude.Words.{Bytes}
use localdns_go.Net.Ip.{Ip}
use localdns_go.IpMap.Store.{new_store}
use localdns_go.Doh.Message.{Message, Dns}
use localdns_go.Doh.Query.{Resolver}

unfoldable pub bit : Bool → ℕ
bit b = if b then 1 else 0

unfoldable pub header_bytes : Message Unit Unit Unit → Bytes
header_bytes m =
    m.id / 256
    ∷ m.id % 256
    ∷ bit m.is_response
    ∷ bit m.recursion_available
    ∷ m.rcode % 16
    ∷ length m.questions
    ∷ 0
    ∷ 0
    ∷ 0
    ∷ 0
    ∷ 0
    ∷ 0
    ∷ []

-- At most 255 questions.
unfoldable pub header_pack : Message Unit Unit Unit → Result ℕ Bytes
header_pack m = if ltb (length m.questions) 256 then ok (header_bytes m) else err 1

unfoldable pub header_message : ℕ → ℕ → ℕ → ℕ → ℕ → Message Unit Unit Unit
header_message id kind recursion rcode count = record {
  id = id;
  is_response = kind == 1;
  recursion_available = recursion == 1;
  rcode = rcode;
  flags = 0;
  questions = replicate count tt;
  answers = [];
  authorities = [];
  additionals = [];
}

unfoldable pub header_unpack : Bytes → Result ℕ (Message Unit Unit Unit)
header_unpack (h ∷ l ∷ kind ∷ recursion ∷ rcode ∷ count ∷ rest) =
    if ltb (length rest) 6
    then err 1
    else ok (header_message (h * 256 + l) kind recursion rcode count)
header_unpack _ = err 1

unfoldable pub header_toy : Dns ℕ Unit Unit Unit
unfolding header_pack header_unpack header_bytes header_message bit
header_toy = record {
  unpack = header_unpack;
  pack = header_pack;
  edns_header = ok tt;
  name = λ q. [];
}

abbrev pub one_question : Bytes
one_question = 7 ∷ 9 ∷ 0 ∷ 0 ∷ 0 ∷ 1 ∷ 0 ∷ 0 ∷ 0 ∷ 0 ∷ 0 ∷ 0 ∷ []

abbrev pub awake : Resolver
awake = record { ips = new_store; hangover_expiration = 0 }

abbrev pub no_names : String → List Ip
no_names name = []
