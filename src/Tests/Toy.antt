-- ===== src/Tests/Toy.antt =====
-- A small instance of the parameter `Dns`, for the runs: a header of twelve bytes, and each OPT
-- resource as its options with code and length.
use localdns_go.Prelude.{
  ok_eq, ℕ, ◌+◌, ◌*◌, ◌/◌, ◌%◌, drop, All, ◌&&◌, ◌≤◌, ◌≡◌, ◌≢◌, refl, sym, ap, Bool, true, false,
  none, some, List, [], ◌∷◌, ◌++◌, length, Result, ok, err, arith, ltb, if◌then◌else◌, Bool-cases,
  Option-cases, inl, inr, length-append,
}
use localdns_go.Prelude.Words.{Bytes, uint16}
use localdns_go.Split.Frames.Fragments.{IsByte}
use localdns_go.Doh.Message.{
  EdnsOption, Body, opt_resource, other_body, Resource, Message, Dns, HasHeader,
}
use localdns_go.Doh.Padding.{
  append_option, add_to_body, body_options, last_opt, later_or, add_here, with_option,
}
use localdns_go.Doh.Padding.Block.{AddsOptions}

enc_options : List EdnsOption → Bytes
enc_options [] = []
enc_options (o ∷ os) = o.code ∷ 0 ∷ length o.payload ∷ 0 ∷ (o.payload ++ enc_options os)

enc_body : Body Unit → Bytes
enc_body (opt_resource os) = 41 ∷ enc_options os
enc_body (other_body b) = 1 ∷ []

enc_resources : List (Resource Unit Unit) → Bytes
enc_resources [] = []
enc_resources (r ∷ rs) = enc_body r.body ++ enc_resources rs

blank : Bytes → Bytes
blank rest = 0 ∷ 0 ∷ 0 ∷ 0 ∷ 0 ∷ 0 ∷ 0 ∷ 0 ∷ 0 ∷ 0 ∷ rest

toy_pack : Message Unit Unit Unit → Bytes
toy_pack m = m.id / 256 ∷ m.id % 256 ∷ blank (enc_resources m.additionals)

-- an OPT resource with one option, if anything follows the header
unfoldable pub additionals_of : Bytes → List (Resource Unit Unit)
additionals_of [] = []
additionals_of (code ∷ rest) =
    record { header = tt; body = opt_resource (record { code = code; payload = [] } ∷ []) } ∷ []

unfoldable pub toy_message : ℕ → Bytes → Message Unit Unit Unit
toy_message id rest = record {
  id = id;
  is_response = false;
  recursion_available = false;
  rcode = 0;
  flags = 0;
  questions = [];
  answers = [];
  authorities = [];
  additionals = additionals_of (drop 10 rest);
}

unfoldable pub toy_unpack : {E : Type 0} → E → Bytes → Result E (Message Unit Unit Unit)
toy_unpack bad (h ∷ l ∷ rest) =
    if ltb (length rest) 10 then err bad else ok (toy_message (h * 256 + l) rest)
toy_unpack bad _ = err bad

unfoldable pub toy : {E : Type 0} → E → Dns E Unit Unit Unit
unfolding toy_pack toy_unpack additionals_of toy_message enc_resources blank enc_body enc_options
toy bad = record {
  unpack = toy_unpack bad;
  pack = λ m. ok (toy_pack m);
  edns_header = ok tt;
  name = λ q. [];
}

unpack_lem :
    {E : Type 0} (bad : E) (b : Bytes) (m : Message Unit Unit Unit)
    → toy_unpack bad b ≡ ok m
    → (12 ≤ length b) × (uint16 b ≡ some m.id)
unfolding toy_unpack toy_message
unpack_lem bad [] m e = cc
unpack_lem bad (h ∷ []) m e = cc
unpack_lem bad (h ∷ l ∷ rest) m e = elim (Bool-cases (ltb (length rest) 10)) [
  | inl few ↦ cc (rw few at e)
  | inr enough ↦
      (ground arith, ap (λ (z : Message Unit Unit Unit). some z.id) (ok_eq (rw enough at e)))
]

pack_lem :
    {E : Type 0} (m : Message Unit Unit Unit) (b : Bytes)
    → ◌≡◌ {A = Result E Bytes} (ok (toy_pack m)) (ok b)
    → (12 ≤ length b) × (uint16 b ≡ some m.id)
unfolding toy_pack blank
pack_lem m b e = rw (sym (ok_eq e)) (omega arith, ap some (omega arith))

pub toy-HasHeader : {E : Type 0} (bad : E) → HasHeader (toy bad)
unfolding toy toy_unpack
toy-HasHeader bad = record {
  unpack_length = λ b m e. (unpack_lem bad b m e).0;
  unpack_id = λ b m e. (unpack_lem bad b m e).1;
  pack_length = λ m b e. (pack_lem m b e).0;
  pack_id = λ m b e. (pack_lem m b e).1;
}

length-enc_options :
    (os : List EdnsOption) (o : EdnsOption)
    → length (enc_options (os ++ o ∷ [])) ≡ length (enc_options os) + 4 + length o.payload
unfolding enc_options
length-enc_options [] o = omega (arith, length-append o.payload [])
length-enc_options (x ∷ os) o = omega (
  arith,
  length-enc_options os o,
  length-append x.payload (enc_options os),
  length-append x.payload (enc_options (os ++ o ∷ [])),
)

length-enc_body :
    (b : Body Unit) (o : EdnsOption)
    → body_options b ≢ none
    → length (enc_body (add_to_body o b)) ≡ length (enc_body b) + 4 + length o.payload
unfolding enc_body add_to_body body_options
length-enc_body (opt_resource os) o h = omega (arith, length-enc_options os o)
length-enc_body (other_body b) o h = absurd (h refl)

length-enc_resources :
    (rs : List (Resource Unit Unit)) (o : EdnsOption)
    → last_opt rs ≢ none
    → length (enc_resources (append_option o rs)) ≡ length (enc_resources rs) + 4 + length o.payload
unfolding enc_resources append_option last_opt
length-enc_resources [] o h = absurd (h refl)
length-enc_resources (r ∷ rs) o h = elim (Option-cases (last_opt rs)) [
  | inl e ↦
      rw (e, add_here)
        (omega (
          arith,
          length-enc_body r.body o (λ z. h (rw (e, later_or) z)),
          length-append (enc_body (add_to_body o r.body)) (enc_resources rs),
          length-append (enc_body r.body) (enc_resources rs),
        ))
  | inr (os, e) ↦
      rw (e, add_here)
        (omega (
          arith,
          length-enc_resources rs o (λ z. cc (z, e)),
          length-append (enc_body r.body) (enc_resources (append_option o rs)),
          length-append (enc_body r.body) (enc_resources rs),
        ))
]

pub toy-AddsOptions : {E : Type 0} (bad : E) → AddsOptions (toy bad)
unfolding toy toy_pack with_option blank
toy-AddsOptions bad = record {
  option_size = λ o m b b' has p p'.
      rw (sym (ok_eq p), sym (ok_eq p')) (omega (arith, length-enc_resources m.additionals o has));
}

abbrev pub are_bytes : Bytes → Bool
are_bytes [] = true
are_bytes (b ∷ bs) = ltb b 256 && are_bytes bs

pub are_bytes_lem : (bs : Bytes) → are_bytes bs ≡ true → All IsByte bs
are_bytes_lem [] h = tt
are_bytes_lem (b ∷ bs) h = (ground arith, are_bytes_lem bs (ground arith))
