-- ===== src/Split/Frames/Delivery.antt =====
-- `splitHello` on any hello and any draw: what the peer reads, and what the caller is told.
use localdns_go.Prelude.{
  ℕ, suc, ◌+◌, ◌-◌, ◌*◌, ◌≤◌, ◌<◌, ◌≡◌, ap, ◌⊎◌, inl, inr, ◌||◌, none, some, ◌∷◌, ◌++◌, append-nil,
  length, All, arith, leb, Bool-cases,
}
use localdns_go.Prelude.Words.{Bytes}
use localdns_go.Split.Conn.{write, write_error, WriteOutcome, full, short, dialed, flatten}
use localdns_go.Split.Record.{get_tls_client_hello_record_len}
use localdns_go.Split.Hello.{SplitResult, choose_split, split_by, tcp_split, split_hello}
use localdns_go.Split.Frames.{SameStream, peer_reads}
use localdns_go.Split.Frames.Fragments.{
  IsByte, choose_split-le-length, tcp_split-flatten, record_split-SameStream,
}

-- With no error reported, the peer reads `hello`.
abbrev Delivers : {E : Type 0} → SplitResult E → Bytes → Type 0
Delivers r hello = r.error ≡ none → SameStream (flatten r.conn.segments) hello

record_len-cases :
    (t v1 v2 l1 l2 : ℕ) (p : Bytes)
    → (get_tls_client_hello_record_len (t ∷ v1 ∷ v2 ∷ l1 ∷ l2 ∷ p) ≡ none)
      ⊎ (get_tls_client_hello_record_len (t ∷ v1 ∷ v2 ∷ l1 ∷ l2 ∷ p) ≡ some (l1 * 256 + l2))
unfolding get_tls_client_hello_record_len
record_len-cases t v1 v2 l1 l2 p = ground arith

module _ {E : Type 0} (o1 o2 : WriteOutcome E) where
  tcp_split-Delivers : (s : ℕ) (hello : Bytes) → Delivers (tcp_split o1 o2 s hello dialed) hello
  tcp_split-Delivers s hello h rest =
      ap (λ z. peer_reads (z ++ rest)) (tcp_split-flatten o1 o2 s hello h)

  split_some-Delivers :
      (t v1 v2 l1 l2 : ℕ) (p : Bytes) (s : ℕ)
      → l1 < 256
      → l2 < 256
      → s ≤ 5 + length p
      → Delivers
          (split_by (some (l1 * 256 + l2)) o1 o2 s (t ∷ v1 ∷ v2 ∷ l1 ∷ l2 ∷ p) dialed)
          (t ∷ v1 ∷ v2 ∷ l1 ∷ l2 ∷ p)
  unfolding split_by
  split_some-Delivers t v1 v2 l1 l2 p (suc (suc (suc (suc (suc k))))) b1 b2 h ok =
      let s = suc (suc (suc (suc (suc k)))) in
      elim (Bool-cases (leb s 5 || leb (l1 * 256 + l2) (s - 5))) [
        | inl b ↦ rw b (tcp_split-Delivers _ _ (rw b at ok))
        | inr b ↦ rw b (
            record_split-SameStream o1 o2 t v1 v2 l1 l2 k p b1 b2 (omega arith) (ground arith)
              (rw b at ok))
      ]
  split_some-Delivers t v1 v2 l1 l2 p s b1 b2 h ok = tcp_split-Delivers s _ ok

  split_full-Delivers :
      (t v1 v2 l1 l2 : ℕ) (p : Bytes) (s : ℕ)
      → l1 < 256
      → l2 < 256
      → s ≤ 5 + length p
      → Delivers
          (split_by
            (get_tls_client_hello_record_len (t ∷ v1 ∷ v2 ∷ l1 ∷ l2 ∷ p))
            o1
            o2
            s
            (t ∷ v1 ∷ v2 ∷ l1 ∷ l2 ∷ p)
            dialed)
          (t ∷ v1 ∷ v2 ∷ l1 ∷ l2 ∷ p)
  unfolding split_by
  split_full-Delivers t v1 v2 l1 l2 p s b1 b2 h = elim (record_len-cases t v1 v2 l1 l2 p) [
    | inl e ↦ rw e (tcp_split-Delivers s _)
    | inr e ↦ rw e (split_some-Delivers t v1 v2 l1 l2 p s b1 b2 h)
  ]

  split_by-Delivers :
      (hello : Bytes) (s : ℕ)
      → All IsByte hello
      → s ≤ length hello
      → Delivers (split_by (get_tls_client_hello_record_len hello) o1 o2 s hello dialed) hello
  unfolding split_by get_tls_client_hello_record_len
  split_by-Delivers (t ∷ v1 ∷ v2 ∷ l1 ∷ l2 ∷ p) s bytes h =
      split_full-Delivers t v1 v2 l1 l2 p s (omega arith) (omega arith) (omega arith)
  split_by-Delivers hello s bytes h = tcp_split-Delivers s hello

tiny-Delivers :
    {E : Type 0} (o : WriteOutcome E) (hello : Bytes)
    → write_error o ≡ none
    → SameStream (flatten (write o hello dialed).segments) hello
tiny-Delivers full hello h rest = ap (λ z. peer_reads (z ++ rest)) (append-nil hello)
tiny-Delivers (short n e) hello h rest = cc

-- Whatever the hello, made of bytes, the drawn split position and the outcomes of the writes: if
-- `splitHello` on a fresh connection reports no error, then the peer reads from the segments, with
-- any bytes `rest` behind them, exactly the record contents, types and versions of the hello with
-- `rest` behind it. This covers the unsplit write, the TCP split and the TLS record split.
pub peer_reads-split_hello :
    {E : Type 0} (draw : ℕ) (o1 o2 : WriteOutcome E) (hello rest : Bytes)
    → All IsByte hello
    → (split_hello draw o1 o2 hello dialed).error ≡ none
    → peer_reads (flatten (split_hello draw o1 o2 hello dialed).conn.segments ++ rest)
      ≡ peer_reads (hello ++ rest)
unfolding split_hello
peer_reads-split_hello draw o1 o2 hello rest bytes ok = elim (Bool-cases (leb (length hello) 1)) [
  | inl b ↦ rw b (tiny-Delivers o1 hello (rw b at ok) rest)
  | inr b ↦ rw b (
      split_by-Delivers o1 o2 hello (choose_split draw hello) bytes
        (choose_split-le-length draw hello) (rw b at ok) rest)
]
