-- ===== src/Doh/Service/Stream.antt =====
-- A query on the stream socket, from the resolver's answer to the bytes on the socket:
-- `forwardQueryAndCheck` of proxy/doh/doh.go for any resolver.
use mathlib.Core.Option
use localdns_go.Prelude.{
  ℕ, ◌≤◌, ◌≡◌, refl, sym, ap, ◌∙◌, Bool, false, Option, none, some, [], ◌∷◌, ◌++◌, length, arith,
  some_eq, ok, Option-cases, inl, inr, ltb, All,
}
use localdns_go.Prelude.Words.{Bytes}
use localdns_go.Split.Frames.Fragments.{IsByte}
use localdns_go.Dot.Framing.{frame, max_uint16, dns_over_tcp_read}
use localdns_go.Dot.Framing.RoundTrip.{dns_over_tcp_read-frame}
use localdns_go.Doh.Accept.{WriteEnd, forward_query, forward_query_and_check}
use localdns_go.Doh.Accept.Framed.{forward_query_and_check_iff}
use localdns_go.Doh.Service.{Answer, Service, KeepsId}

-- What an open socket has got.
record StaysOpen {E : Type 0} (sent : Option Bytes) (resp : Bytes) (qerr : Option E) : Type 0 where
  no_error : qerr ≡ none
  fits : length resp ≤ max_uint16
  framed : sent ≡ some (frame resp)

stays_open :
    {E : Type 0} (write : Bytes → WriteEnd E) (resp : Bytes) (qerr : Option E)
    → (forward_query_and_check write (some resp) qerr).1 ≡ false
    → StaysOpen (forward_query_and_check write (some resp) qerr).0 resp qerr
unfolding forward_query_and_check forward_query
stays_open write resp qerr h =
    let (fine, small, written, whole) = (forward_query_and_check_iff write resp qerr).0 h in
    let fits : ltb max_uint16 (length resp) ≡ false = ground arith in
    record { no_error = fine; fits = small; framed = rw fits refl }

any-StaysOpen :
    {E : Type 0} (write : Bytes → WriteEnd E) (resp : Option Bytes) (qerr : Option E)
    → (forward_query_and_check write resp qerr).1 ≡ false
    → StaysOpen (forward_query_and_check write resp qerr).0 (Option.get_or resp []) qerr
unfolding forward_query_and_check forward_query
any-StaysOpen write (some resp) qerr h = stays_open write resp qerr h
any-StaysOpen write none none h = stays_open write [] none h
any-StaysOpen write none (some e) h = cc

module _ {S V E : Type 0} (s : Service S V E) where
  -- What is written, whether the socket is closed, and the resolver behind it.
  unfoldable pub serve_query :
      (Bytes → WriteEnd E) → V → Bytes → S → Option (Option Bytes × Bool × S)
  serve_query write v q st = elim (s.query v q st) [
    | none ↦ none
    | some (a, st') ↦
        let (sent, closed) = forward_query_and_check write a.response a.error in
        some (sent, closed, st')
  ]

  -- For any resolver that keeps the promises of the interface: if the socket stays open behind a query of
  -- bytes, then the query had an ID, and what was written is a frame from which a client reads a message with that ID, whatever is behind the frame.
  pub stream_has_query_id :
      KeepsId s
      → (write : Bytes → WriteEnd E) (v : V) (q : Bytes) (st st' : S) (sent : Option Bytes)
        (rest : Bytes) (ending : Option E)
      → All IsByte q
      → serve_query write v q st ≡ some (sent, false, st')
      → (h : ℕ) × (l : ℕ) × (tail : Bytes) × (body : Bytes) × (q ≡ h ∷ l ∷ tail)
        × (dns_over_tcp_read (record { pending = Option.get_or sent [] ++ rest; ending = ending })
            ≡ (ok (h ∷ l ∷ body), record { pending = rest; ending = ending }))
  unfolding serve_query
  stream_has_query_id law write v q st st' sent rest ending bytes run =
      elim (Option-cases (s.query v q st)) [
        | inl panics ↦ cc (rw (panics, serve_query) at run)
        | inr ((a, st1), e) ↦
            let same = some_eq (rw (e, serve_query) at run) in
            let open_end =
              any-StaysOpen write a.response a.error
                (ap (λ (z : Option Bytes × Bool × S). z.1) same) in
            let out : sent ≡ some (frame (Option.get_or a.response [])) =
              sym (ap (λ (z : Option Bytes × Bool × S). z.0) same) ∙ open_end.framed in
            with_id q st1 a sent bytes e open_end.no_error open_end.fits out
      ]
    where
      with_id :
          (q : Bytes) (st1 : S) (a : Answer E) (sent : Option Bytes)
          → All IsByte q
          → s.query v q st ≡ some (a, st1)
          → a.error ≡ none
          → length (Option.get_or a.response []) ≤ max_uint16
          → sent ≡ some (frame (Option.get_or a.response []))
          → (h : ℕ) × (l : ℕ) × (tail : Bytes) × (body : Bytes) × (q ≡ h ∷ l ∷ tail)
            × (dns_over_tcp_read
                  (record { pending = Option.get_or sent [] ++ rest; ending = ending })
                ≡ (ok (h ∷ l ∷ body), record { pending = rest; ending = ending }))
      with_id [] st1 a sent b e fine small out =
          absurd ((law.short_fails v [] st st1 a (omega arith) e).0 fine)
      with_id (h ∷ []) st1 a sent b e fine small out =
          absurd ((law.short_fails v (h ∷ []) st st1 a (omega arith) e).0 fine)
      with_id (h ∷ l ∷ tail) st1 a sent b e fine small out =
          let (body, answer) = law.id_kept v h l tail st st1 a b.0 b.1.0 e fine in
          let resp : Option.get_or a.response [] ≡ h ∷ l ∷ body =
            ap (λ z. Option.get_or z []) answer in
          (
            h,
            l,
            tail,
            body,
            refl,
            rw (out ∙ ap (λ z. some (frame z)) resp) (
                dns_over_tcp_read-frame (h ∷ l ∷ body) rest ending (omega arith)
                  (omega (arith, ap length resp))),
          )
