-- ===== src/Dot/Framing.antt =====
-- `dnsOverTCPWrite` and `dnsOverTCPRead` of proxy/dot/dot.go, over a stream as `io.ReadFull` reads it.
pub mod RoundTrip
use localdns_go.Prelude.{
  ℕ, ◌+◌, ◌-◌, ◌*◌, ◌/◌, ◌%◌, Bool, true, false, ◌||◌, Option, none, some, List, [], ◌∷◌, ◌++◌,
  length, take, drop, Result, ok, err, ltb, ◌==◌, if◌then◌else◌,
}
use localdns_go.Prelude.Words.{Bytes, hi_byte, lo_byte}

-- The package's own errors, those of `io.ReadFull`, and those of the callees.
pub data DotError (E : Type 0) : Type 0 where
  oversize_dns : DotError E
  invalid_length : ℕ → DotError E
  eof : DotError E
  unexpected_eof : DotError E
  callee_failed : E → DotError E

-- What a reader still delivers, and the error that it ends with: none for io.EOF.
pub record Source (E : Type 0) : Type 0 where
  pub pending : Bytes
  pub ending : Option E

short_read : {E : Type 0} → Bytes → Option E → DotError E
short_read b (some e) = callee_failed e
short_read [] none = eof
short_read (b ∷ bs) none = unexpected_eof

-- `io.ReadFull` into a slice of `n` bytes; where it fails it has consumed what was there.
unfoldable pub read_full : {E : Type 0} → ℕ → Source E → Result (DotError E) Bytes × Source E
unfolding short_read
read_full n r =
    if ltb (length r.pending) n
    then (err (short_read r.pending r.ending), record r { pending = [] })
    else (ok (take n r.pending), record r { pending = drop n r.pending })

abbrev pub max_uint16 : ℕ
max_uint16 = 65535

-- the length, and the message behind it
abbrev pub frame : Bytes → Bytes
frame msg = hi_byte (length msg) ∷ lo_byte (length msg) ∷ msg

-- The slice that `w.Write` gets, if it is called, and the error; `write` says how it ends.
unfoldable pub dns_over_tcp_write :
    {E : Type 0} → (Bytes → Option E) → Bytes → Option Bytes × Option (DotError E)
dns_over_tcp_write write msg = if ltb max_uint16 (length msg) then (none, some oversize_dns) else (
  some (frame msg),
  elim (write (frame msg)) [ none ↦ none | some e ↦ some (callee_failed e) ],
)

pub read_body : {E : Type 0} → ℕ → Source E → Result (DotError E) Bytes × Source E
read_body rlen r =
    if ltb rlen 2 || ltb max_uint16 rlen then (err (invalid_length rlen), r) else read_full rlen r

pub read_behind :
    {E : Type 0} → Result (DotError E) Bytes × Source E → Result (DotError E) Bytes × Source E
read_behind (ok (h ∷ l ∷ _), r) = read_body (h * 256 + l) r
read_behind (ok _, r) = (err unexpected_eof, r)
read_behind (err e, r) = (err e, r)

unfoldable pub dns_over_tcp_read : {E : Type 0} → Source E → Result (DotError E) Bytes × Source E
unfolding read_behind read_body read_full
dns_over_tcp_read r = read_behind (read_full 2 r)
