-- ===== src/Split/Conn.antt =====
-- What the package uses of `*net.TCPConn`: the segments handed to the kernel, the deadlines and
-- which sides are shut. How a `Write` or a `Read` ends is the environment's choice, an argument.
use Prim.Native.Nat.{min}
use localdns_go.Prelude.{
  ℕ, ◌≡◌, refl, sym, ap, ◌∙◌, append-nil, append_assoc, Bool, false, Option, none, some, List, [],
  ◌∷◌, ◌++◌, length, take,
}
use localdns_go.Prelude.Words.{Bytes}

-- All bytes are taken, or at most `n` of them and then an error.
pub data WriteOutcome (E : Type 0) : Type 0 where
  full : WriteOutcome E
  short : ℕ → E → WriteOutcome E

-- The bytes that arrive, and the error beside them, if any.
pub record ReadOutcome (E : Type 0) : Type 0 where
  pub got : Bytes
  pub error : Option E

pub record Conn : Type 0 where
  pub segments : List Bytes
  pub is_closed : Bool
  pub read_shut : Bool
  pub write_shut : Bool
  pub read_deadline : Option ℕ
  pub write_deadline : Option ℕ

-- A connection as `Dial` returns it.
abbrev pub dialed : Conn
dialed = record {
  segments = [];
  is_closed = false;
  read_shut = false;
  write_shut = false;
  read_deadline = none;
  write_deadline = none;
}

module _ {E : Type 0} where
  abbrev pub written : WriteOutcome E → Bytes → ℕ
  written full b = length b
  written (short n e) b = min n (length b)

  abbrev pub write_error : WriteOutcome E → Option E
  write_error full = none
  write_error (short n e) = some e

  abbrev pub sent_part : WriteOutcome E → Bytes → Bytes
  sent_part full b = b
  sent_part (short n e) b = take n b

  -- `c.Write(b)`; the count and the error are `written o b` and `write_error o`.
  abbrev pub write : WriteOutcome E → Bytes → Conn → Conn
  write o b c = record c { segments = c.segments ++ sent_part o b ∷ [] }

-- The stream that the peer sees.
abbrev pub flatten : List Bytes → Bytes
flatten [] = []
flatten (b ∷ bs) = b ++ flatten bs

-- `c.ReadFrom(reader)`: `chunks` are the pieces that the kernel took from the reader and sent.
abbrev pub read_from : List Bytes → Conn → Conn
read_from chunks c = record c { segments = c.segments ++ chunks }

-- `c.Read(buf)` with room for `room` bytes.
abbrev pub read_bytes : {E : Type 0} → ℕ → ReadOutcome E → Bytes
read_bytes room o = take room o.got

pub flatten-append : (xs ys : List Bytes) → flatten (xs ++ ys) ≡ flatten xs ++ flatten ys
flatten-append [] ys = refl
flatten-append (x ∷ xs) ys =
    ap (λ z. x ++ z) (flatten-append xs ys) ∙ sym (append_assoc x (flatten xs) (flatten ys))

pub flatten-concat : (xs : List Bytes) (b : Bytes) → flatten (xs ++ b ∷ []) ≡ flatten xs ++ b
flatten-concat xs b = flatten-append xs (b ∷ []) ∙ ap (λ z. flatten xs ++ z) (append-nil b)
