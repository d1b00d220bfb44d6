-- ===== src/Relay/Udp/Datagrams.antt =====
-- What a DNS client gets over UDP.
use localdns_go.Prelude.{
  ℕ, ◌≡◌, refl, sym, ap, ◌∙◌, true, Option, none, some, [], ◌∷◌, length, arith, some_eq,
  Option-cases, Bool-cases, inl, inr, All, ◌==◌,
}
use localdns_go.Prelude.Words.{Bytes}
use localdns_go.Split.Frames.Fragments.{IsByte}
use localdns_go.Doh.Accept.{ReadEnd}
use localdns_go.Doh.Service.{Answer, Service, KeepsId}
use localdns_go.Relay.Udp.{nonempty, to_write, ask, asked, handle_dns}

nonempty-eq-some : (x : Option Bytes) (b : Bytes) → nonempty x ≡ some b → x ≡ some b
unfolding nonempty
nonempty-eq-some none b e = cc
nonempty-eq-some (some []) b e = cc
nonempty-eq-some (some (y ∷ ys)) b e = e

to_write-eq-some :
    {E : Type 0} (x : Option Bytes) (err : Option E) (b : Bytes)
    → to_write x err ≡ some b
    → (err ≡ none) × (x ≡ some b)
unfolding to_write
to_write-eq-some x none b e = (refl, nonempty-eq-some x b e)
to_write-eq-some x (some err) b e = cc

module _ {S V E : Type 0} (s : Service S V E) where
  ask-eq-some :
      (v : V) (q : Bytes) (st st' : S) (b : Bytes)
      → ask s v q st ≡ some (some b, st')
      → (a : Answer E) × (st1 : S) × (s.query v q st ≡ some (a, st1))
        × (a.error ≡ none)
        × (a.response ≡ some b)
  unfolding ask
  ask-eq-some v q st st' b run = elim (Option-cases (s.query v q st)) [
    | inl panics ↦ cc (rw (panics, ask) at run)
    | inr ((a, st1), e) ↦
        let same = some_eq (rw (e, ask) at run) in
        let (fine, answer) =
          to_write-eq-some a.response a.error b (ap (λ (z : Option Bytes × S). z.0) same) in
        (a, st1, e, fine, answer)
  ]

module _ {S V E F : Type 0} (s : Service S V E) where
  handle_dns-eq-some :
      (r : ReadEnd F) (v : V) (st st' : S) (b : Bytes)
      → handle_dns s true r v st ≡ some (some b, st')
      → ask s v r.chunk st ≡ some (some b, st')
  unfolding handle_dns asked
  handle_dns-eq-some r v st st' b run = elim (Option-cases r.error) [
    | inr (e, bad) ↦ cc (rw (bad, handle_dns, asked) at run)
    | inl fine ↦ elim (Bool-cases (length r.chunk == 0)) [
      | inl nothing ↦ cc (rw (fine, handle_dns, asked, nothing) at run)
      | inr something ↦ rw (fine, handle_dns, asked, something) at run
    ]
  ]

  -- For any resolver that keeps the promises of the interface: a datagram that `handleDNS` sends back
  -- starts with the ID of the datagram of bytes that it received, which has at least two bytes.
  pub udp_has_query_id :
      KeepsId s
      → (r : ReadEnd F) (v : V) (st st' : S) (b : Bytes) → All IsByte r.chunk
      → handle_dns s true r v st ≡ some (some b, st')
      → (h : ℕ) × (l : ℕ) × (tail : Bytes) × (rest : Bytes) × (r.chunk ≡ h ∷ l ∷ tail)
        × (b ≡ h ∷ l ∷ rest)
  udp_has_query_id law r v st st' b bytes run =
      let (a, st1, e, fine, answer) =
        ask-eq-some s v r.chunk st st' b (handle_dns-eq-some r v st st' b run) in
      with_id r.chunk bytes a st1 e fine answer
    where
      with_id :
          (q : Bytes)
          → All IsByte q
          → (a : Answer E) (st1 : S) → s.query v q st ≡ some (a, st1)
          → a.error ≡ none
          → a.response ≡ some b
          → (h : ℕ) × (l : ℕ) × (tail : Bytes) × (rest : Bytes) × (q ≡ h ∷ l ∷ tail)
            × (b ≡ h ∷ l ∷ rest)
      with_id [] h a st1 e fine answer =
          absurd ((law.short_fails v [] st st1 a (omega arith) e).0 fine)
      with_id (x ∷ []) h a st1 e fine answer =
          absurd ((law.short_fails v (x ∷ []) st st1 a (omega arith) e).0 fine)
      with_id (x ∷ y ∷ tail) h a st1 e fine answer =
          let (rest, same) = law.id_kept v x y tail st st1 a h.0 h.1.0 e fine in
          (x, y, tail, rest, refl, some_eq (sym answer ∙ same))
