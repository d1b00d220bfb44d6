-- ===== src/Split/Hello.antt =====
-- `splitHello` of transport/split/retrier.go. `draw` is what `rand.Intn(59)` returned, `o1` and `o2`
-- say how the first and the second `Write` end.
use Prim.Native.Nat.{min}
use localdns_go.Prelude.{
  ℕ, ◌+◌, ◌-◌, ◌/◌, ◌%◌, ◌^◌, ◌||◌, Option, none, some, ◌∷◌, ◌++◌, length, take, drop, leb, ltb,
  if◌then◌else◌,
}
use localdns_go.Prelude.Words.{Bytes, hi_byte, lo_byte}
use localdns_go.Split.Conn.{Conn, WriteOutcome, full, short, written, write_error, write}
use localdns_go.Split.Record.{get_tls_client_hello_record_len}

abbrev pub min_split : ℕ
min_split = 6

abbrev pub max_split : ℕ
max_split = 64

-- The results, the connection after the writes, and the slice `hello` as the caller has it then.
pub record SplitResult (E : Type 0) : Type 0 where
  pub n : ℕ
  pub split_len : ℕ
  pub error : Option E
  pub conn : Conn
  pub hello : Bytes

-- `splitLen`, cut to half of the hello
unfoldable pub choose_split : ℕ → Bytes → ℕ
choose_split draw hello =
    let split_len = min_split + draw in
    let limit = length hello / 2 in if ltb limit split_len then limit else split_len

-- `binary.BigEndian.PutUint16(pkt[3:5], v)` on a slice of at least five bytes
unfoldable pub put_record_len : ℕ → Bytes → Bytes
put_record_len v (t ∷ v1 ∷ v2 ∷ l1 ∷ l2 ∷ rest) = t ∷ v1 ∷ v2 ∷ hi_byte v ∷ lo_byte v ∷ rest
put_record_len v h = h

module _ {E : Type 0} where
  -- the second of two writes is made only if the first one succeeds
  abbrev pub second_write :
      WriteOutcome E → WriteOutcome E → Bytes → Bytes → ℕ → Bytes → Bytes → Conn → SplitResult E
  second_write full o2 b1 b2 s h1 h2 c = record {
    n = length b1 + written o2 b2;
    split_len = s;
    error = write_error o2;
    conn = write o2 b2 (write {E = E} full b1 c);
    hello = h2;
  }
  second_write (short k e) o2 b1 b2 s h1 h2 c = record {
    n = min k (length b1);
    split_len = s;
    error = some e;
    conn = write (short k e) b1 c;
    hello = h1;
  }

  unfoldable pub tcp_split : WriteOutcome E → WriteOutcome E → ℕ → Bytes → Conn → SplitResult E
  tcp_split o1 o2 s hello c = second_write o1 o2 (take s hello) (drop s hello) s hello hello c

  -- The packets are slices of `hello`, so both headers are written into it.
  unfoldable pub record_split :
      WriteOutcome E → WriteOutcome E → ℕ → ℕ → Bytes → Conn → SplitResult E
  record_split o1 o2 record_len s hello c =
      let record_split_len = s - 5 in
      let h1 = put_record_len (record_split_len % 2 ^ 16) hello in
      let copied = take record_split_len h1 ++ (take 5 h1 ++ drop s h1) in
      let rest_len = (record_len + 2 ^ 16 - record_split_len % 2 ^ 16) % 2 ^ 16 in
      let pkt = put_record_len rest_len (drop record_split_len copied) in
      second_write o1 o2 (take s h1) pkt s h1 (take record_split_len copied ++ pkt) c

  unfoldable pub split_by :
      Option ℕ → WriteOutcome E → WriteOutcome E → ℕ → Bytes → Conn → SplitResult E
  split_by none o1 o2 s hello c = tcp_split o1 o2 s hello c
  split_by (some record_len) o1 o2 s hello c =
      if leb s 5 || leb record_len (s - 5)
      then tcp_split o1 o2 s hello c
      else record_split o1 o2 record_len s hello c

  unfoldable pub split_hello : ℕ → WriteOutcome E → WriteOutcome E → Bytes → Conn → SplitResult E
  unfolding split_by choose_split
  split_hello draw o1 o2 hello c =
      if leb (length hello) 1
      then record {
        n = written o1 hello;
        split_len = 0;
        error = write_error o1;
        conn = write o1 hello c;
        hello = hello;
      }
      else split_by (get_tls_client_hello_record_len hello) o1 o2 (choose_split draw hello) hello c
