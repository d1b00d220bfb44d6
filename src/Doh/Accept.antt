-- ===== src/Doh/Accept.antt =====
-- `forwardQuery`, `forwardQueryAndCheck` and `Accept` of proxy/doh/doh.go.
pub mod Framed
use localdns_go.Prelude.{
  ℕ, ◌+◌, ◌*◌, Bool, true, false, ◌||◌, not, ◌⊎◌, inl, inr, Option, none, some, List, [], ◌∷◌, ◌++◌,
  length, take, ltb, ◌==◌, if◌then◌else◌,
}
use localdns_go.Prelude.Words.{Bytes}
use localdns_go.Dot.Framing.{frame, max_uint16}

pub data ForwardError (E : Type 0) : Type 0 where
  query_error : E → ForwardError E
  oversize_response : ℕ → ForwardError E
  write_error : E → ForwardError E
  incomplete_write : ℕ → ℕ → ForwardError E

-- how many bytes a `Write` reports, and its error
pub record WriteEnd (E : Type 0) : Type 0 where
  pub n : ℕ
  pub error : Option E

pub error_of : {E : Type 0} → Option E → Option (ForwardError E)
error_of (some e) = some (query_error e)
error_of none = none

pub after_write : {E : Type 0} → ℕ → Option E → WriteEnd E → Option (ForwardError E)
after_write len qerr w = elim w.error [
  | some e ↦ some (write_error e)
  | none ↦ if not (w.n == len) then some (incomplete_write w.n len) else error_of qerr
]

pub send_response :
    {E : Type 0} → (Bytes → WriteEnd E) → Bytes → Option E → Option Bytes × Option (ForwardError E)
send_response write resp qerr =
    if ltb max_uint16 (length resp)
    then (none, some (oversize_response (length resp)))
    else (some (frame resp), after_write (length resp + 2) qerr (write (frame resp)))

-- `forwardQuery`, for what `Query` returned: the slice that is written, if any, and the error. A nil
-- response without an error is sent as an empty one.
unfoldable pub forward_query :
    {E : Type 0}
    → (Bytes → WriteEnd E)
    → Option Bytes
    → Option E
    → Option Bytes × Option (ForwardError E)
unfolding send_response after_write error_of
forward_query write none (some e) = (none, some (query_error e))
forward_query write none none = send_response write [] none
forward_query write (some resp) qerr = send_response write resp qerr

pub is_failure : {E : Type 0} → Option (ForwardError E) → Bool
is_failure none = false
is_failure (some e) = true

-- `forwardQueryAndCheck`: what is written, and whether the socket is closed.
unfoldable pub forward_query_and_check :
    {E : Type 0} → (Bytes → WriteEnd E) → Option Bytes → Option E → Option Bytes × Bool
unfolding is_failure forward_query
forward_query_and_check write resp qerr =
    let (sent, error) = forward_query write resp qerr in (sent, is_failure error)

-- What one `c.Read` delivers into its slice, and its error.
pub record ReadEnd (E : Type 0) : Type 0 where
  pub chunk : Bytes
  pub error : Option E

-- Why the loop of `Accept` ends.
pub data Stop (E : Type 0) : Type 0 where
  clean_shutdown : Stop E
  length_failed : E → Stop E
  incomplete_length : Stop E
  query_failed : E → Stop E
  incomplete_query : ℕ → ℕ → Stop E
  blocked : Stop E

-- The queries that `Accept` has passed to `forwardQueryAndCheck`, in order, and how its loop ended.
pub record Accepted (E : Type 0) : Type 0 where
  pub queries : List Bytes
  pub stop : Stop E

stopped : {E : Type 0} → Stop E → Accepted E
stopped why = record { queries = []; stop = why }

pub length_of : {E : Type 0} → Bytes → ℕ ⊎ Stop E
length_of (h ∷ l ∷ _) = inl (h * 256 + l)
length_of _ = inr incomplete_length

-- The first read of a round: the length of the query, or why the loop ends.
pub read_length : {E : Type 0} → ReadEnd E → ℕ ⊎ Stop E
read_length r =
    if length r.chunk == 0
    then inr clean_shutdown
    else elim r.error [ some e ↦ inr (length_failed e) | none ↦ length_of r.chunk ]

-- The second one: nothing, or why the loop ends.
pub read_query : {E : Type 0} → ℕ → ReadEnd E → Option (Stop E)
read_query qlen r = elim r.error [
  | some e ↦ some (query_failed e)
  | none ↦
      if not (length r.chunk == qlen) then some (incomplete_query (length r.chunk) qlen) else none
]

pub pass_on : {E : Type 0} → Bytes → Option (Stop E) → Accepted E → Accepted E
pass_on q (some why) later = stopped why
pass_on q none later = record later { queries = q ∷ later.queries }

pub round : {E : Type 0} → ℕ ⊎ Stop E → ReadEnd E → Accepted E → Accepted E
round (inl qlen) second later = pass_on second.chunk (read_query qlen second) later
round (inr why) second later = stopped why

pub last_round : {E : Type 0} → ℕ ⊎ Stop E → Accepted E
last_round (inl qlen) = stopped blocked
last_round (inr why) = stopped why

-- The loop of `Accept` on the ends of its reads; without a further one it is blocked in `Read`.
unfoldable pub accept : {E : Type 0} → List (ReadEnd E) → Accepted E
unfolding read_length length_of read_query pass_on round last_round stopped
accept [] = stopped blocked
accept (r ∷ []) = last_round (read_length r)
accept (r ∷ second ∷ rest) = round (read_length r) second (accept rest)
