-- ===== src/Split/Frames/Fragments.antt =====
-- What `splitHello` sends, as the peer reads it: on every path on which it reports no error the peer
-- reads the hello that it was given.
use localdns_go.Prelude.{
  ℕ, suc, ◌+◌, ◌-◌, ◌*◌, ◌%◌, ◌^◌, ◌≤◌, ◌<◌, ◌≡◌, sym, ap, ◌∙◌, none, [], ◌∷◌, ◌++◌, append-nil,
  append_assoc, map, length, take, drop, arith, length-take, take-append-drop, drop-take_append,
}
use localdns_go.Prelude.Words.{Bytes, hi_byte, lo_byte, word_of_bytes}
use localdns_go.Split.Conn.{Conn, WriteOutcome, full, short, dialed, flatten}
use localdns_go.Split.Hello.{put_record_len, choose_split, tcp_split, record_split}
use localdns_go.Split.Frames.{SameStream, peer_reads, scan, enter, tag, scan-body}

abbrev pub IsByte : ℕ → Type 0
IsByte b = b < 256

-- A TLS record, or the start of one: the header for `n` bytes, then `body`.
abbrev fragment : ℕ → ℕ → ℕ → ℕ → Bytes → Bytes
fragment t v1 v2 n body = t ∷ v1 ∷ v2 ∷ hi_byte n ∷ lo_byte n ∷ body

peer_reads-fragment :
    (t v1 v2 n : ℕ) (body : Bytes)
    → n < 2 ^ 16
    → peer_reads (fragment t v1 v2 n body) ≡ scan (enter t v1 v2 n) body
peer_reads-fragment t v1 v2 n body h = ap (λ m. scan (enter t v1 v2 m) body) (word_of_bytes n h)

-- Reading `k` bytes of a body in which `k + m` are to come.
scan-prefix :
    (t v1 v2 k m : ℕ) (p ys : Bytes)
    → k ≤ length p
    → scan (enter t v1 v2 (k + m)) (take k p ++ ys)
      ≡ map (tag t v1 v2) (take k p) ++ scan (enter t v1 v2 m) ys
scan-prefix t v1 v2 k m p ys h =
    let e : k + m ≡ length (take k p) + m = omega (arith, length-take k p) in
    ap (λ j. scan (enter t v1 v2 j) (take k p ++ ys)) e ∙ scan-body t v1 v2 m (take k p) ys

-- A record cut in two by a second header reads as before.
peer_reads_cut :
    (t v1 v2 k n : ℕ) (p z : Bytes)
    → k ≤ length p
    → k ≤ n
    → n < 2 ^ 16
    → peer_reads (fragment t v1 v2 k (take k p) ++ fragment t v1 v2 (n - k) z)
      ≡ scan (enter t v1 v2 n) (take k p ++ z)
peer_reads_cut t v1 v2 k n p z inside hk hn =
    let second = fragment t v1 v2 (n - k) z in
    let front = map (tag t v1 v2) (take k p) in
    let k0 : k ≡ k + 0 = omega arith in
    let kn : k + (n - k) ≡ n = omega arith in
    peer_reads-fragment t v1 v2 k (take k p ++ second) (omega arith)
    ∙ ap (λ j. scan (enter t v1 v2 j) (take k p ++ second)) k0
    ∙ scan-prefix t v1 v2 k 0 p second inside
    ∙ ap (λ y. front ++ y) (peer_reads-fragment t v1 v2 (n - k) z (omega arith))
    ∙ sym (scan-prefix t v1 v2 k (n - k) p z inside)
    ∙ ap (λ j. scan (enter t v1 v2 j) (take k p ++ z)) kn

-- The two writes of a record split, in terms of the hello's header and body.
record_split-segments :
    (E : Type 0) (t v1 v2 l1 l2 k n : ℕ) (p : Bytes) (c : Conn)
    → k ≤ length p
    → k ≤ n
    → n < 2 ^ 16
    → (record_split {E = E} full full n
        (suc (suc (suc (suc (suc k)))))
        (t ∷ v1 ∷ v2 ∷ l1 ∷ l2 ∷ p)
        c).conn.segments
      ≡ (c.segments ++ fragment t v1 v2 k (take k p) ∷ [])
        ++ fragment t v1 v2 (n - k) (drop k p) ∷ []
unfolding record_split put_record_len
record_split-segments E t v1 v2 l1 l2 k n p c inside hk hn =
    let five : suc (suc (suc (suc (suc k)))) - 5 ≡ k = omega arith in
    let word : k % 2 ^ 16 ≡ k = omega arith in
    let rest : (n + 2 ^ 16 - k) % 2 ^ 16 ≡ n - k = omega arith in
    let h1 = fragment t v1 v2 k p in
    let tail = t ∷ v1 ∷ v2 ∷ hi_byte k ∷ lo_byte k ∷ drop k p in
    rw five (rw word (rw rest (rw (drop-take_append k h1 tail (omega arith)))))

-- The number of bytes of a hello in front of which `splitHello` cuts is inside the hello.
pub choose_split-le-length : (draw : ℕ) (hello : Bytes) → choose_split draw hello ≤ length hello
unfolding choose_split
choose_split-le-length draw hello = ground arith

flatten_two : (a b : Bytes) → flatten (a ∷ b ∷ []) ≡ a ++ b
flatten_two a b = ap (λ z. a ++ z) (append-nil b)

pub tcp_split-flatten :
    {E : Type 0} (o1 o2 : WriteOutcome E) (s : ℕ) (hello : Bytes)
    → (tcp_split o1 o2 s hello dialed).error ≡ none
    → flatten (tcp_split o1 o2 s hello dialed).conn.segments ≡ hello
unfolding tcp_split
tcp_split-flatten full full s hello ok =
    flatten_two (take s hello) (drop s hello) ∙ take-append-drop s hello
tcp_split-flatten full (short k e) s hello ok = cc
tcp_split-flatten (short k e) o2 s hello ok = cc

-- The stream of the two fragments, with what follows them.
fragments-SameStream :
    (t v1 v2 l1 l2 k : ℕ) (p : Bytes)
    → l1 < 256
    → l2 < 256
    → k ≤ length p
    → k < l1 * 256 + l2
    → SameStream
        (flatten
          (fragment t v1 v2 k (take k p) ∷ fragment t v1 v2 (l1 * 256 + l2 - k) (drop k p) ∷ []))
        (t ∷ v1 ∷ v2 ∷ l1 ∷ l2 ∷ p)
fragments-SameStream t v1 v2 l1 l2 k p b1 b2 inside hk rest =
    let n = l1 * 256 + l2 in
    let a = fragment t v1 v2 k (take k p) in
    let b = fragment t v1 v2 (n - k) (drop k p) in
    ap (λ z. peer_reads (z ++ rest)) (flatten_two a b)
    ∙ ap peer_reads (append_assoc a b rest)
    ∙ peer_reads_cut t v1 v2 k n p (drop k p ++ rest) inside (omega arith) (omega arith)
    ∙ ap (scan (enter t v1 v2 n)) (sym (append_assoc (take k p) (drop k p) rest))
    ∙ ap (λ z. scan (enter t v1 v2 n) (z ++ rest)) (take-append-drop k p)

pub record_split-SameStream :
    {E : Type 0} (o1 o2 : WriteOutcome E) (t v1 v2 l1 l2 k : ℕ) (p : Bytes)
    → l1 < 256
    → l2 < 256
    → k ≤ length p
    → k < l1 * 256 + l2
    → (record_split o1 o2
        (l1 * 256 + l2)
        (suc (suc (suc (suc (suc k)))))
        (t ∷ v1 ∷ v2 ∷ l1 ∷ l2 ∷ p)
        dialed).error
      ≡ none
    → SameStream
        (flatten
          (record_split o1 o2
            (l1 * 256 + l2)
            (suc (suc (suc (suc (suc k)))))
            (t ∷ v1 ∷ v2 ∷ l1 ∷ l2 ∷ p)
            dialed).conn.segments)
        (t ∷ v1 ∷ v2 ∷ l1 ∷ l2 ∷ p)
record_split-SameStream {E} full full t v1 v2 l1 l2 k p b1 b2 inside hk ok =
    rw
      (record_split-segments E t v1 v2 l1 l2 k (l1 * 256 + l2) p dialed inside (omega arith)
        (omega arith))
      (fragments-SameStream t v1 v2 l1 l2 k p b1 b2 inside hk)
record_split-SameStream full (short m e) t v1 v2 l1 l2 k p b1 b2 inside hk ok =
    unfold record_split in cc
record_split-SameStream (short m e) o2 t v1 v2 l1 l2 k p b1 b2 inside hk ok =
    unfold record_split in cc
