-- ===== src/Split/Counts.antt =====
-- The counts that `splitHello` returns.
use localdns_go.Prelude.{
  ℕ, ◌-◌, ◌*◌, ◌≤◌, ◌<◌, ◌≡◌, refl, inl, inr, false, ◌||◌, Option, none, some, [], ◌++◌, length,
  take, arith, leb, Bool-cases, length-append, length-take,
}
use localdns_go.Prelude.Words.{Bytes}
use localdns_go.Split.Conn.{Conn, WriteOutcome, full, short, dialed, flatten, written, sent_part}
use localdns_go.Split.Record.{get_tls_client_hello_record_len}
use localdns_go.Split.Hello.{
  SplitResult, choose_split, second_write, split_by, tcp_split, record_split, split_hello,
}

-- The count of the result is the length of the stream that was written.
abbrev CountsSent : {E : Type 0} → SplitResult E → Type 0
CountsSent r = r.n ≡ length (flatten r.conn.segments)

pub length-sent_part :
    {E : Type 0} (o : WriteOutcome E) (b : Bytes) → length (sent_part o b) ≡ written o b
length-sent_part full b = refl
length-sent_part (short n e) b = length-take n b

second_write-CountsSent :
    {E : Type 0} (o1 o2 : WriteOutcome E) (b1 b2 : Bytes) (s : ℕ) (h1 h2 : Bytes)
    → CountsSent (second_write o1 o2 b1 b2 s h1 h2 dialed)
second_write-CountsSent full o2 b1 b2 s h1 h2 = omega (
  arith,
  length-append b1 (sent_part o2 b2 ++ []),
  length-append {0} (sent_part o2 b2) [],
  length-sent_part o2 b2,
)
second_write-CountsSent (short k e) o2 b1 b2 s h1 h2 =
    omega (arith, length-append {0} (take k b1) [], length-take k b1)

module _ {E : Type 0} (o1 o2 : WriteOutcome E) where
  tcp_split-CountsSent : (s : ℕ) (hello : Bytes) → CountsSent (tcp_split o1 o2 s hello dialed)
  unfolding tcp_split
  tcp_split-CountsSent s hello = second_write-CountsSent o1 o2 _ _ s hello hello

  record_split-CountsSent :
      (n s : ℕ) (hello : Bytes) → CountsSent (record_split o1 o2 n s hello dialed)
  unfolding record_split
  record_split-CountsSent n s hello = second_write-CountsSent o1 o2 _ _ s _ _

  split_by-CountsSent :
      (r : Option ℕ) (s : ℕ) (hello : Bytes) → CountsSent (split_by r o1 o2 s hello dialed)
  unfolding split_by
  split_by-CountsSent none s hello = tcp_split-CountsSent s hello
  split_by-CountsSent (some n) s hello = elim (Bool-cases (leb s 5 || leb n (s - 5))) [
    | inl b ↦ rw b (tcp_split-CountsSent s hello)
    | inr b ↦ rw b (record_split-CountsSent n s hello)
  ]

  split_by-split_len :
      (r : Option ℕ) (s : ℕ) (hello : Bytes) → (split_by r o1 o2 s hello dialed).split_len ≡ s
  unfolding split_by tcp_split record_split
  split_by-split_len r s hello = ground arith

  -- The count that `splitHello` returns is the number of bytes that its writes handed to the
  -- connection, whatever the hello, the drawn position and the outcomes of the writes.
  pub n-split_hello :
      (draw : ℕ) (hello : Bytes)
      → (split_hello draw o1 o2 hello dialed).n
        ≡ length (flatten (split_hello draw o1 o2 hello dialed).conn.segments)
  unfolding split_hello
  n-split_hello draw hello = elim (Bool-cases (leb (length hello) 1)) [
    | inl b ↦
        rw b (omega (arith, length-append {0} (sent_part o1 hello) [], length-sent_part o1 hello))
    | inr b ↦ rw b (
        split_by-CountsSent (get_tls_client_hello_record_len hello) (choose_split draw hello) hello)
  ]

choose_split_bounds :
    (draw : ℕ) (hello : Bytes)
    → draw < 59
    → 2 ≤ length hello
    → (1 ≤ choose_split draw hello)
      × (choose_split draw hello ≤ 64)
      × (2 * choose_split draw hello ≤ length hello)
unfolding choose_split
choose_split_bounds draw hello hd hl = ground arith

-- For a drawn position in the range of `rand.Intn(59)` and a hello of two or more bytes, the split
-- leaves at least one byte in front of it, at most 64, and at most half of the hello.
pub split_len_bounds :
    {E : Type 0} (draw : ℕ) (o1 o2 : WriteOutcome E) (hello : Bytes)
    → draw < 59
    → 2 ≤ length hello
    → (1 ≤ (split_hello draw o1 o2 hello dialed).split_len)
      × ((split_hello draw o1 o2 hello dialed).split_len ≤ 64)
      × (2 * (split_hello draw o1 o2 hello dialed).split_len ≤ length hello)
unfolding split_hello
split_len_bounds draw o1 o2 hello hd hl =
    let long : leb (length hello) 1 ≡ false = ground arith in
    rw long (
      rw
        (split_by-split_len o1 o2 (get_tls_client_hello_record_len hello) (choose_split draw hello)
          hello)
        (choose_split_bounds draw hello hd hl))

-- A split on a fresh connection only sends.
abbrev IsUntouched : Conn → Type 0
IsUntouched c = (c.is_closed ≡ false) × (c.read_shut ≡ false) × (c.write_shut ≡ false)

module _ {E : Type 0} where
  second_write-IsUntouched :
      (o1 o2 : WriteOutcome E) (b1 b2 : Bytes) (s : ℕ) (h1 h2 : Bytes)
      → IsUntouched (second_write o1 o2 b1 b2 s h1 h2 dialed).conn
  second_write-IsUntouched full o2 b1 b2 s h1 h2 = (refl, refl, refl)
  second_write-IsUntouched (short k e) o2 b1 b2 s h1 h2 = (refl, refl, refl)

  split_by-IsUntouched :
      (r : Option ℕ) (o1 o2 : WriteOutcome E) (s : ℕ) (hello : Bytes)
      → IsUntouched (split_by r o1 o2 s hello dialed).conn
  unfolding split_by tcp_split record_split
  split_by-IsUntouched none o1 o2 s hello = second_write-IsUntouched o1 o2 _ _ s hello hello
  split_by-IsUntouched (some n) o1 o2 s hello = elim (Bool-cases (leb s 5 || leb n (s - 5))) [
    | inl b ↦ rw b (second_write-IsUntouched o1 o2 _ _ s hello hello)
    | inr b ↦ rw b (second_write-IsUntouched o1 o2 _ _ s _ _)
  ]

  pub split_hello-IsUntouched :
      (draw : ℕ) (o1 o2 : WriteOutcome E) (hello : Bytes)
      → ((split_hello draw o1 o2 hello dialed).conn.is_closed ≡ false)
        × ((split_hello draw o1 o2 hello dialed).conn.read_shut ≡ false)
        × ((split_hello draw o1 o2 hello dialed).conn.write_shut ≡ false)
  unfolding split_hello
  split_hello-IsUntouched draw o1 o2 hello = elim (Bool-cases (leb (length hello) 1)) [
    | inl b ↦ rw b (refl, refl, refl)
    | inr b ↦ rw b (
        split_by-IsUntouched (get_tls_client_hello_record_len hello) o1 o2 (choose_split draw hello)
          hello)
  ]
