-- ===== src/Split/Splitter/Count.antt =====
-- The count that the first `Write` of a splitter returns for a hello that is cut into two records.
use localdns_go.Prelude.{
  ℕ, ◌+◌, ◌-◌, ◌<◌, ◌≤◌, ◌≡◌, refl, false, ◌||◌, none, some, ◌∷◌, length, arith, leb, length-append,
  length-take, length-drop,
}
use localdns_go.Prelude.Words.{Bytes}
use localdns_go.Split.Conn.{Conn, full, dialed}
use localdns_go.Split.Record.{get_tls_client_hello_record_len}
use localdns_go.Split.Hello.{choose_split, split_by, record_split, split_hello, put_record_len}
use localdns_go.Split.Frames.Fragments.{choose_split-le-length}
use localdns_go.Split.Splitter.{new_splitter, splitter_write}

length-put_record_len : (v : ℕ) (b : Bytes) → length (put_record_len v b) ≡ length b
unfolding put_record_len
length-put_record_len v (t ∷ v1 ∷ v2 ∷ l1 ∷ l2 ∷ p) = refl
length-put_record_len v b = refl

n-record_split :
    (E : Type 0) (n s : ℕ) (b : Bytes) (c : Conn)
    → 5 ≤ s
    → s ≤ length b
    → (record_split {E = E} full full n s b c).n ≡ length b + 5
unfolding record_split
n-record_split E n s b c low high = omega (
  arith,
  length-take {0} {A = ℕ},
  length-drop {0} {A = ℕ},
  length-append {0} {A = ℕ},
  length-put_record_len,
)

-- If the first `Write` of a splitter cuts a TLS hello into two records and both writes of the
-- connection succeed, then it reports no error and five bytes more than it was given: the count
-- includes the second record's header, although `io.Writer` allows at most the slice's length.
pub splitter_write_overcounts :
    {E : Type 0} (draw : ℕ) (b : Bytes) (record_len : ℕ)
    → get_tls_client_hello_record_len b ≡ some record_len
    → 5 < choose_split draw b
    → choose_split draw b - 5 < record_len
    → ((splitter_write {E = E} draw full full b new_splitter).n ≡ length b + 5)
      × ((splitter_write {E = E} draw full full b new_splitter).error ≡ none)
unfolding splitter_write split_hello split_by
splitter_write_overcounts {E} draw b record_len valid low high =
    let inside = choose_split-le-length draw b in
    let long : leb (length b) 1 ≡ false = ground arith in
    let cut : (leb (choose_split draw b) 5 || leb record_len (choose_split draw b - 5)) ≡ false =
      ground arith in
    rw long (
      rw valid (
        rw cut (
          n-record_split E record_len (choose_split draw b) b dialed (omega arith) inside,
          unfold record_split in refl,
        )))
