-- ===== src/Split/Splitter.antt =====
-- `splitter` of transport/split/conn.go, and `copyOnce` of transport/split/retrier.go.
pub mod Stream
pub mod Count
use localdns_go.Prelude.{
  ℕ, ◌+◌, Bool, false, true, Option, none, some, List, [], ◌∷◌, length, if◌then◌else◌,
}
use localdns_go.Prelude.Words.{Bytes}
use localdns_go.Split.Conn.{
  Conn, WriteOutcome, ReadOutcome, dialed, flatten, write, written, write_error, read_bytes,
  read_from,
}
use localdns_go.Split.Hello.{SplitResult, split_hello}

-- What a `Write` returns, with the state behind it and the caller's slice after the call.
pub record Written (E S : Type 0) : Type 0 where
  pub n : ℕ
  pub error : Option E
  pub state : S
  pub buffer : Bytes

pub record Splitter : Type 0 where
  pub conn : Conn
  pub used : Bool

-- DialWithSplit, when the dial succeeds
abbrev pub new_splitter : Splitter
new_splitter = record { conn = dialed; used = false }

module _ {E : Type 0} where
  -- the result of `splitHello` as that of `Write`
  abbrev pub from_split : SplitResult E → Written E Splitter
  from_split r = record {
    n = r.n;
    error = r.error;
    state = record { conn = r.conn; used = true };
    buffer = r.hello;
  }

  -- `o1` is the outcome of the only write where there is one.
  unfoldable pub splitter_write :
      ℕ → WriteOutcome E → WriteOutcome E → Bytes → Splitter → Written E Splitter
  splitter_write draw o1 o2 b s =
      if s.used
      then record {
        n = written o1 b;
        error = write_error o1;
        state = record s { conn = write o1 b s.conn };
        buffer = b;
      }
      else from_split (split_hello draw o1 o2 b s.conn)

-- `copyOnce(dst, src)` with `dst.Write` as an argument: bytes that come with an error are dropped.
module _ {E S : Type 0} where
  copy_after : Option E → Bytes → (Bytes → S → Written E S) → S → ℕ × Option E × S
  copy_after (some e) b put s = (0, some e, s)
  copy_after none b put s = let w = put b s in (w.n, w.error, w.state)

  unfoldable pub copy_once : (Bytes → S → Written E S) → ReadOutcome E → S → ℕ × Option E × S
  unfolding copy_after
  copy_once put o s = copy_after o.error (read_bytes 2048 o) put s

-- The rest of `ReadFrom` goes to the connection. `chunks` and `e` say what it took and how it ended.
module _ {E : Type 0} where
  abbrev pass_on : ℕ → List Bytes → Option E → Splitter → ℕ × Option E × Splitter
  pass_on bytes chunks e s =
      (bytes + length (flatten chunks), e, record s { conn = read_from chunks s.conn })

  after_first : ℕ × Option E × Splitter → List Bytes → Option E → ℕ × Option E × Splitter
  after_first (bytes, some e', s) chunks e = (bytes, some e', s)
  after_first (bytes, none, s) chunks e = pass_on bytes chunks e s

  unfoldable pub splitter_read_from :
      ℕ
      → WriteOutcome E
      → WriteOutcome E
      → ReadOutcome E
      → List Bytes
      → Option E
      → Splitter
      → ℕ × Option E × Splitter
  unfolding after_first
  splitter_read_from draw o1 o2 first chunks e s =
      if s.used
      then pass_on 0 chunks e s
      else after_first (copy_once (splitter_write draw o1 o2) first s) chunks e
