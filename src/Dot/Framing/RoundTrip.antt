-- ===== src/Dot/Framing/RoundTrip.antt =====
-- What is written is read back, and what is read is a frame.
use mathlib.Core.Option
use localdns_go.Prelude.{
  ok_eq, take-length-append, drop-length-append, ℕ, ◌+◌, ◌*◌, ◌≤◌, ◌<◌, ◌≡◌, refl, sym, ap, ◌∙◌,
  false, ◌||◌, Option, none, some, [], ◌∷◌, ◌++◌, length, take, drop, take-append-drop, Result, ok,
  err, ltb, arith, Bool-cases, inl, inr, length-append, All, length-take, ◌⊎◌, nil_of_length,
}
use localdns_go.Prelude.Words.{
  Bytes, hi_byte, lo_byte, word_of_bytes, hi_byte_of_word, lo_byte_of_word,
}
use localdns_go.Split.Frames.Fragments.{IsByte}
use localdns_go.Dot.Framing.{
  DotError, oversize_dns, callee_failed, Source, read_full, frame, max_uint16, dns_over_tcp_write,
  dns_over_tcp_read, read_body, read_behind,
}

module _ {E : Type 0} where
  read_full-append :
      (xs rest : Bytes) (ending : Option E)
      → read_full (length xs) (record { pending = xs ++ rest; ending = ending })
        ≡ (ok xs, record { pending = rest; ending = ending })
  unfolding read_full
  read_full-append xs rest ending =
      let enough : ltb (length (xs ++ rest)) (length xs) ≡ false =
        ground (arith, length-append xs rest) in
      rw (enough, take-length-append xs rest, drop-length-append xs rest)

  read_body-fits :
      (n : ℕ) (r : Source E) → (ltb n 2 || ltb max_uint16 n) ≡ false → read_body n r ≡ read_full n r
  unfolding read_body
  read_body-fits n r fits = rw fits refl

  -- A message of 2 to 65535 bytes is read back from its frame, whatever the stream holds behind it.
  pub dns_over_tcp_read-frame :
      (msg rest : Bytes) (ending : Option E)
      → 2 ≤ length msg
      → length msg ≤ max_uint16
      → dns_over_tcp_read (record { pending = frame msg ++ rest; ending = ending })
        ≡ (ok msg, record { pending = rest; ending = ending })
  unfolding dns_over_tcp_read
  dns_over_tcp_read-frame msg rest ending lo hi =
      let fits : (ltb (length msg) 2 || ltb max_uint16 (length msg)) ≡ false = ground arith in
      let word : hi_byte (length msg) * 256 + lo_byte (length msg) ≡ length msg =
        word_of_bytes (length msg) (omega arith) in
      ap read_behind
        (read_full-append (hi_byte (length msg) ∷ lo_byte (length msg) ∷ []) (msg ++ rest) ending)
      ∙ ap (λ n. read_body n (record { pending = msg ++ rest; ending = ending })) word
      ∙ read_body-fits (length msg) _ fits
      ∙ read_full-append msg rest ending

  -- `dnsOverTCPWrite` fails without a write exactly on more than 65535 bytes; otherwise it writes the
  -- length and the message in one call, and reports what the writer does.
  pub dns_over_tcp_write_lem :
      (write : Bytes → Option E) (msg : Bytes)
      → ((max_uint16 < length msg) × (dns_over_tcp_write write msg ≡ (none, some oversize_dns)))
        ⊎ ((length msg ≤ max_uint16)
            × (dns_over_tcp_write write msg
                ≡ (some (frame msg), Option.map callee_failed (write (frame msg)))))
  unfolding dns_over_tcp_write
  dns_over_tcp_write_lem write msg = elim (Bool-cases (ltb max_uint16 (length msg))) [
    | inl over ↦ inl (ground arith, rw over refl)
    | inr fits ↦ inr (ground arith, rw fits refl)
  ]

  read_full-eq-ok :
      (n : ℕ) (r r' : Source E) (b : Bytes)
      → read_full n r ≡ (ok b, r')
      → (r.pending ≡ b ++ r'.pending) × (length b ≡ n)
  unfolding read_full
  read_full-eq-ok n r r' b h = elim (Bool-cases (ltb (length r.pending) n)) [
    | inl few ↦ cc (rw few at h)
    | inr enough ↦
        let e = rw enough at h in
        let taken : take n r.pending ≡ b = ok_eq (ap (λ z. z.0) e) in
        let left : drop n r.pending ≡ r'.pending = ap (λ z. z.1.pending) e in
        (
          sym (take-append-drop n r.pending) ∙ cc (taken, left),
          ap (λ z. length z) (sym taken) ∙ length-take n r.pending ∙ ground arith,
        )
  ]

  read_body-eq-ok :
      (n : ℕ) (r r' : Source E) (b : Bytes)
      → read_body n r ≡ (ok b, r')
      → (r.pending ≡ b ++ r'.pending) × (length b ≡ n) × (2 ≤ n) × (n ≤ max_uint16)
  unfolding read_body
  read_body-eq-ok n r r' b h = elim (Bool-cases (ltb n 2 || ltb max_uint16 n)) [
    | inl bad ↦ cc (rw bad at h)
    | inr fits ↦
        let (parts, size) = read_full-eq-ok n r r' b (rw fits at h) in
        (parts, size, ground arith, ground arith)
  ]

  read_behind-eq-ok :
      (r r' : Source E) (b : Bytes)
      → All IsByte r.pending
      → (x : Result (DotError E) Bytes × Source E) → read_full 2 r ≡ x
      → read_behind x ≡ (ok b, r')
      → (r.pending ≡ frame b ++ r'.pending) × (2 ≤ length b) × (length b ≤ max_uint16)
  unfolding read_behind
  read_behind-eq-ok r r' b bytes (err e, r1) p h = cc
  read_behind-eq-ok r r' b bytes (ok [], r1) p h = cc
  read_behind-eq-ok r r' b bytes (ok (x ∷ []), r1) p h = cc
  read_behind-eq-ok r r' b bytes (ok (x ∷ y ∷ t), r1) p h =
      let (parts, two) = read_full-eq-ok 2 r r1 (x ∷ y ∷ t) p in
      let (body, size, lo, hi) = read_body-eq-ok (x * 256 + y) r1 r' b h in
      let ends : t ≡ [] = nil_of_length t (omega arith) in
      let whole : r.pending ≡ x ∷ y ∷ r1.pending =
        parts ∙ ap (λ z. x ∷ y ∷ (z ++ r1.pending)) ends in
      let small : All IsByte (x ∷ y ∷ r1.pending) = rw whole at bytes in
      (
        whole
            ∙ cc (
              body,
              ap hi_byte size ∙ hi_byte_of_word x y small.0 small.1.0,
              ap lo_byte size ∙ lo_byte_of_word x y small.1.0,
            ),
        omega arith,
        omega arith,
      )

  -- Where `dnsOverTCPRead` succeeds on a stream of bytes, the stream started with the frame of what it
  -- returns, which has 2 to 65535 bytes, and the rest of the stream is left.
  pub dns_over_tcp_read-ok :
      (r r' : Source E) (b : Bytes)
      → All IsByte r.pending
      → dns_over_tcp_read r ≡ (ok b, r')
      → (r.pending ≡ frame b ++ r'.pending) × (2 ≤ length b) × (length b ≤ max_uint16)
  unfolding dns_over_tcp_read
  dns_over_tcp_read-ok r r' b bytes h = read_behind-eq-ok r r' b bytes (read_full 2 r) refl h
