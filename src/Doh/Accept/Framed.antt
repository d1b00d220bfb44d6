-- ===== src/Doh/Accept/Framed.antt =====
-- The frames of the stream socket: what `Accept` takes from it, and what `forwardQuery` puts on it.
use mathlib.Core.Option
use localdns_go.Prelude.{
  ℕ, ◌+◌, ◌*◌, ◌≤◌, ◌<◌, ◌≡◌, ◌↔◌, ◌⊎◌, inl, inr, refl, sym, ap, ◌∙◌, true, false, Option, none,
  some, List, [], ◌∷◌, ◌++◌, length, ltb, ◌==◌, All, arith, Bool-cases, Option-cases, append_assoc,
  nil_of_length, ok,
}
use localdns_go.Prelude.Words.{
  Bytes, hi_byte, lo_byte, word_of_bytes, hi_byte_of_word, lo_byte_of_word,
}
use localdns_go.Split.Frames.Fragments.{IsByte}
use localdns_go.Dot.Framing.{frame, max_uint16, dns_over_tcp_read}
use localdns_go.Dot.Framing.RoundTrip.{dns_over_tcp_read-frame}
use localdns_go.Doh.Accept.{
  ForwardError, WriteEnd, forward_query, forward_query_and_check, send_response, after_write,
  error_of, is_failure, round, pass_on, read_length, length_of, read_query, last_round, ReadEnd,
  clean_shutdown, Accepted, accept,
}

abbrev pub frames : List Bytes → Bytes
frames [] = []
frames (q ∷ qs) = frame q ++ frames qs

Sum-cases : {A B : Type 0} (x : A ⊎ B) → ((a : A) × (x ≡ inl a)) ⊎ ((b : B) × (x ≡ inr b))
Sum-cases (inl a) = inl (a, refl)
Sum-cases (inr b) = inr (b, refl)

bytes_behind : (xs ys : Bytes) → All IsByte (xs ++ ys) → All IsByte ys
bytes_behind [] ys h = h
bytes_behind (x ∷ xs) ys h = bytes_behind xs ys h.1

one_frame :
    (h l : ℕ) (q more : Bytes) (qs : List Bytes) (x : Bytes)
    → h < 256
    → l < 256
    → length q ≡ h * 256 + l
    → more ≡ frames qs ++ x
    → h ∷ l ∷ (q ++ more) ≡ frames (q ∷ qs) ++ x
one_frame h l q more qs x bh bl n e = cc (
  ap hi_byte n ∙ hi_byte_of_word h l bh bl,
  ap lo_byte n ∙ lo_byte_of_word h l bl,
  ap (λ z. q ++ z) e ∙ sym (append_assoc q (frames qs) x),
)

module _ {E : Type 0} where
  -- A response of 2 to 65535 bytes that `forwardQuery` sends is read back by `dnsOverTCPRead`, with or
  -- without an error of the query, and whatever the write reports.
  pub forward_query-read_back :
      (write : Bytes → WriteEnd E) (resp rest : Bytes) (qerr ending : Option E)
      → 2 ≤ length resp
      → length resp ≤ max_uint16
      → dns_over_tcp_read (record {
        pending = Option.get_or (forward_query write (some resp) qerr).0 [] ++ rest;
        ending = ending;
      })
        ≡ (ok resp, record { pending = rest; ending = ending })
  unfolding forward_query send_response
  forward_query-read_back write resp rest qerr ending lo hi =
      let fits : ltb max_uint16 (length resp) ≡ false = ground arith in
      rw fits (dns_over_tcp_read-frame resp rest ending lo hi)

  after_write-none_iff :
      (len : ℕ) (qerr : Option E) (w : WriteEnd E)
      → (after_write len qerr w ≡ none) ↔ ((qerr ≡ none) × (w.error ≡ none) × (w.n ≡ len))
  unfolding after_write error_of
  after_write-none_iff len qerr w = elim (Option-cases w.error) [
    | inr (e, bad) ↦ rw (bad, after_write) ((λ h. cc), (λ h. cc (h.1)))
    | inl fine ↦
        rw (fine, after_write)
          (elim (Bool-cases (w.n == len)) [
            | inl whole ↦ rw whole (error_of_iff qerr (ground arith))
            | inr part ↦ rw part ((λ h. cc), (λ h. absurd (ground (arith, h.2))))
          ])
  ]
    where
      error_of_iff :
          (qerr : Option E)
          → w.n ≡ len
          → (error_of qerr ≡ none) ↔ ((qerr ≡ none) × (◌≡◌ {A = Option E} none none) × (w.n ≡ len))
      error_of_iff none e = ((λ _. (refl, refl, e)), (λ _. refl))
      error_of_iff (some x) e = ((λ h. cc), (λ h. cc (h.0)))

  is_failure_iff : (x : Option (ForwardError E)) → (is_failure x ≡ false) ↔ (x ≡ none)
  unfolding is_failure
  is_failure_iff none = ((λ _. refl), (λ _. refl))
  is_failure_iff (some e) = ((λ h. cc), (λ h. cc))

  -- The socket stays open exactly if the query had no error, the response fits a frame, and the frame
  -- was written whole and without an error.
  pub forward_query_and_check_iff :
      (write : Bytes → WriteEnd E) (resp : Bytes) (qerr : Option E)
      → ((forward_query_and_check write (some resp) qerr).1 ≡ false) ↔ (
          (qerr ≡ none)
          × (length resp ≤ max_uint16)
          × ((write (frame resp)).error ≡ none)
          × ((write (frame resp)).n ≡ length resp + 2))
  unfolding forward_query_and_check forward_query send_response after_write
  forward_query_and_check_iff write resp qerr = elim (Bool-cases (ltb max_uint16 (length resp))) [
    | inl over ↦ rw over ((λ h. cc), (λ h. absurd (ground (arith, h.1))))
    | inr fits ↦ rw fits (
        let (to, from) = after_write-none_iff (length resp + 2) qerr (write (frame resp)) in
        let (opens, closes) =
          is_failure_iff (after_write (length resp + 2) qerr (write (frame resp))) in
        (
          (λ h. let (a, b, c) = to (opens h) in (a, ground arith, b, c)),
          (λ h. closes (from (h.0, h.2, h.3))),
        ))
  ]

  -- all that the reads deliver
  abbrev pub stream : List (ReadEnd E) → Bytes
  stream [] = []
  stream (r ∷ rs) = r.chunk ++ stream rs

  -- Each read of a length delivers at most the two bytes that it has room for.
  abbrev pub FitsLength : List (ReadEnd E) → Type 0
  FitsLength [] = Unit
  FitsLength (r ∷ []) = length r.chunk ≤ 2
  FitsLength (r ∷ second ∷ rest) = (length r.chunk ≤ 2) × FitsLength rest

  -- reads that deliver the frames as they are, and then the end of the stream
  abbrev pub whole_reads : List Bytes → List (ReadEnd E)
  whole_reads [] = record { chunk = []; error = none } ∷ []
  whole_reads (q ∷ qs) =
      record { chunk = hi_byte (length q) ∷ lo_byte (length q) ∷ []; error = none }
      ∷ record { chunk = q; error = none }
      ∷ whole_reads qs

  -- Queries of at most 65535 bytes that arrive as frames, each part in one read, are all passed on, in
  -- order, and the end of the stream behind them ends the loop cleanly.
  pub accept-whole_reads :
      (qs : List Bytes)
      → All (λ q. length q ≤ max_uint16) qs
      → accept (whole_reads qs) ≡ record { queries = qs; stop = clean_shutdown }
  unfolding accept
  accept-whole_reads [] h = refl
  accept-whole_reads (q ∷ qs) h =
      let same : hi_byte (length q) * 256 + lo_byte (length q) ≡ length q =
        word_of_bytes (length q) (omega (arith, h.0)) in
      rw same (
        let all : (length q == length q) ≡ true = ground arith in
        rw all (
          ap (λ (a : Accepted E). record a { queries = q ∷ a.queries })
            (accept-whole_reads qs h.1)))

  read_length-inl :
      (r : ReadEnd E) (n : ℕ)
      → read_length r ≡ inl n
      → (h : ℕ) × (l : ℕ) × (t : Bytes) × (r.chunk ≡ h ∷ l ∷ t) × (h * 256 + l ≡ n)
  unfolding read_length length_of
  read_length-inl r n e = elim (Bool-cases (length r.chunk == 0)) [
    | inl nothing ↦ cc (rw nothing at e)
    | inr something ↦ elim (Option-cases r.error) [
      | inr (x, bad) ↦ cc (simp (something, bad) at e)
      | inl fine ↦ long r.chunk (simp (something, fine) at e)
    ]
  ]
    where
      long :
          (b : Bytes)
          → length_of {E = E} b ≡ inl n
          → (h : ℕ) × (l : ℕ) × (t : Bytes) × (b ≡ h ∷ l ∷ t) × (h * 256 + l ≡ n)
      long [] e = cc
      long (x ∷ []) e = cc
      long (h ∷ l ∷ t) e = (h, l, t, refl, cc)

  read_query-none : (n : ℕ) (r : ReadEnd E) → read_query n r ≡ none → length r.chunk ≡ n
  unfolding read_query
  read_query-none n r e = elim (Option-cases r.error) [
    | inr (x, bad) ↦ cc (rw (bad, read_query) at e)
    | inl fine ↦ elim (Bool-cases (length r.chunk == n)) [
      | inl whole ↦ ground arith
      | inr part ↦ cc (rw (fine, read_query, part) at e)
    ]
  ]

  -- For reads of bytes, of which each read of a length delivers at most the two that it has room
  -- for, and with whatever errors and ends: the queries that are passed on are framed at the front
  -- of the stream of bytes, so that nothing is taken twice, skipped or put in another order.
  pub frames-accept :
      (rs : List (ReadEnd E))
      → FitsLength rs
      → All IsByte (stream rs)
      → (rest : Bytes) × (stream rs ≡ frames (accept rs).queries ++ rest)
  unfolding accept
  frames-accept [] f b = ([], refl)
  frames-accept (r ∷ []) f b = elim (Sum-cases (read_length r)) [
    | inl (n, e) ↦ rw (e, last_round) (_, refl)
    | inr (why, e) ↦ rw (e, last_round) (_, refl)
  ]
  frames-accept (r ∷ second ∷ rest) f b = elim (Sum-cases (read_length r)) [
    | inr (why, e) ↦ rw (e, round) (_, refl)
    | inl (n, e) ↦
        rw (e, round)
          (elim (Option-cases (read_query n second)) [
            | inr (why, bad) ↦ rw (bad, pass_on) (_, refl)
            | inl good ↦
                let (h, l, t, chunk, word) = read_length-inl r n e in
                let size = read_query-none n second good in
                let ends : t ≡ [] =
                  nil_of_length t (omega (arith, f.0, ap (λ z. length z) chunk)) in
                let two : r.chunk ≡ h ∷ l ∷ [] = chunk ∙ ap (λ z. h ∷ l ∷ z) ends in
                let bytes : All IsByte (h ∷ l ∷ (second.chunk ++ stream rest)) = rw two at b in
                let (x, tail) =
                  frames-accept rest f.1 (bytes_behind second.chunk (stream rest) bytes.1.1) in
                rw (good, pass_on)
                  (
                    x,
                    ap (λ z. z ++ (second.chunk ++ stream rest)) two
                        ∙ one_frame h l second.chunk (stream rest) (accept rest).queries x bytes.0
                            bytes.1.0 (size ∙ sym word) tail,
                  )
          ])
  ]
