-- ===== src/Doh/Padding/Servfail.antt =====
-- What a SERVFAIL is for the client that asked.
use localdns_go.Prelude.{
  ◌%◌, ◌^◌, ◌<◌, ◌≡◌, refl, sym, ap, ◌∙◌, true, some, some_eq, All, Result-cases, inl, inr, ok,
}
use localdns_go.Prelude.Words.{Bytes}
use localdns_go.Split.Frames.Fragments.{IsByte}
use localdns_go.Doh.Message.{Message, Dns}
use localdns_go.Doh.Padding.{rcode_server_failure, servfail_message, servfail, try_servfail}

module _ {E Q H B : Type 0} (d : Dns E Q H B) where
  -- What unpacking gives back of a message that was packed. The code of a response has four bits.
  pub record Keeps (m m' : Message Q H B) : Type 0 where
    pub same_id : m'.id ≡ m.id
    pub same_kind : m'.is_response ≡ m.is_response
    pub same_recursion : m'.recursion_available ≡ m.recursion_available
    pub same_rcode : m'.rcode ≡ m.rcode % 16
    pub same_questions : m'.questions ≡ m.questions

  -- Messages with an ID of 16 bits are packed to bytes, which unpack to a message with the same header and
  -- questions.
  pub record RoundTrips : Type 0 where
    pub to_bytes : (m : Message Q H B) (b : Bytes) → m.id < 2 ^ 16 → d.pack m ≡ ok b → All IsByte b
    pub and_back :
        (m : Message Q H B) (b : Bytes)
        → m.id < 2 ^ 16
        → d.pack m ≡ ok b
        → (m' : Message Q H B) × (d.unpack b ≡ ok m') × Keeps m m'

  -- A message that tells of a server's failure, with the ID and the questions of `m`.
  pub record IsServfailOf (m : Message Q H B) (b : Bytes) : Type 0 where
    pub message : Message Q H B
    pub unpacks : d.unpack b ≡ ok message
    pub same_id : message.id ≡ m.id
    pub same_questions : message.questions ≡ m.questions
    pub responds : message.is_response ≡ true
    pub recursion : message.recursion_available ≡ true
    pub failure : message.rcode ≡ rcode_server_failure

  servfail-eq-pack :
      (q : Bytes) (m : Message Q H B)
      → d.unpack q ≡ ok m
      → servfail d q ≡ d.pack (servfail_message d m)
  unfolding servfail
  servfail-eq-pack q m u = rw (u, servfail) refl

  servfail-eq-some :
      (q b : Bytes) (m : Message Q H B)
      → d.unpack q ≡ ok m
      → try_servfail d q ≡ some b
      → d.pack (servfail_message d m) ≡ ok b
  unfolding try_servfail
  servfail-eq-some q b m u e = elim (Result-cases (servfail d q)) [
    | inl (b', p) ↦ sym (servfail-eq-pack q m u) ∙ p ∙ ap ok (some_eq (rw (p, try_servfail) at e))
    | inr (x, p) ↦ cc (rw (p, try_servfail) at e)
  ]

  pub try_servfail-IsServfailOf :
      RoundTrips
      → (q b : Bytes) (m : Message Q H B) → m.id < 2 ^ 16
      → d.unpack q ≡ ok m
      → try_servfail d q ≡ some b
      → IsServfailOf m b
  unfolding servfail_message rcode_server_failure
  try_servfail-IsServfailOf law q b m small u e =
      let (m', back, kept) =
        law.and_back (servfail_message d m) b small (servfail-eq-some q b m u e) in
      record {
        message = m';
        unpacks = back;
        same_id = kept.same_id;
        same_questions = kept.same_questions;
        responds = kept.same_kind;
        recursion = kept.same_recursion;
        failure = kept.same_rcode;
      }
