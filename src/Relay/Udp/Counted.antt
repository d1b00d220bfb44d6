-- ===== src/Relay/Udp/Counted.antt =====
-- What the relay of a UDP flow passes on, and what it reports.
use localdns_go.Prelude.{
  ℕ, ◌+◌, ◌≡◌, refl, sym, ap, ◌∙◌, Bool, true, false, ◌||◌, some, List, [], ◌∷◌, ◌++◌, length,
  length-append, append_assoc, append-nil, arith, some_eq, Bool-cases, inl, inr, ◌==◌,
}
use localdns_go.Prelude.Words.{Bytes}
use localdns_go.Split.Conn.{flatten}
use localdns_go.Doh.Accept.{ReadEnd}
use localdns_go.Relay.Addr.{AddrPort, addr_port_from_tcpip}
use localdns_go.Relay.Udp.{
  Copier, new_copier, copy_round, Copies, Turn, goes_down, goes_up, take_turn, take_turns,
  UdpSummary, no_copies, relayed, summary, relay_udp,
}

flatten-concat :
    (bs : List Bytes) (b : Bytes) → length (flatten (bs ++ b ∷ [])) ≡ length (flatten bs) + length b
flatten-concat [] b = omega (arith, length-append b [])
flatten-concat (x ∷ bs) b = omega (
  arith,
  flatten-concat bs b,
  length-append x (flatten bs),
  length-append x (flatten (bs ++ b ∷ [])),
)

-- The datagrams that reads deliver, without the empty ones.
abbrev pub delivered : Bytes → List Bytes
delivered [] = []
delivered (b ∷ bs) = (b ∷ bs) ∷ []

module _ {E : Type 0} where
  abbrev pub downs : List (Turn E) → List Bytes
  downs [] = []
  downs (goes_down r w ∷ ts) = delivered r.chunk ++ downs ts
  downs (goes_up r w ∷ ts) = downs ts

  abbrev pub ups : List (Turn E) → List Bytes
  ups [] = []
  ups (goes_down r w ∷ ts) = ups ts
  ups (goes_up r w ∷ ts) = delivered r.chunk ++ ups ts

-- A copier with `seen` read so far: it counts what it has handed on, which is the front of `seen`, and
-- all of it while it runs.
record IsFaithful (seen : List Bytes) (c : Copier) : Type 0 where
  counted : c.counter ≡ length (flatten c.handed)
  left : List Bytes
  in_order : seen ≡ c.handed ++ left
  complete : c.finished ≡ false → left ≡ []

finished-IsFaithful :
    (seen more : List Bytes) (c : Copier)
    → c.finished ≡ true
    → IsFaithful seen c
    → IsFaithful (seen ++ more) c
finished-IsFaithful seen more c done f = record {
  counted = f.counted;
  left = f.left ++ more;
  in_order = ap (λ z. z ++ more) f.in_order ∙ append_assoc c.handed f.left more;
  complete = λ h. cc;
}

delivered_nothing : (b : Bytes) → (length b == 0) ≡ true → delivered b ≡ []
delivered_nothing [] h = refl
delivered_nothing (x ∷ b) h = absurd (ground arith)

delivered_something : (b : Bytes) → (length b == 0) ≡ false → delivered b ≡ b ∷ []
delivered_something [] h = cc
delivered_something (x ∷ b) h = refl

copy_round-IsFaithful :
    {E : Type 0} (r : ReadEnd E) (w : Bool) (seen : List Bytes) (c : Copier)
    → IsFaithful seen c
    → IsFaithful (seen ++ delivered r.chunk) (copy_round r w c)
unfolding copy_round
copy_round-IsFaithful r w seen c f = elim (Bool-cases c.finished) [
  | inl done ↦ simp done (finished-IsFaithful seen (delivered r.chunk) c done f)
  | inr running ↦
      let all : seen ≡ c.handed =
        f.in_order ∙ ap (λ z. c.handed ++ z) (f.complete running) ∙ append-nil c.handed in
      elim (Bool-cases (length r.chunk == 0)) [
        | inl nothing ↦
            simp (running, nothing)
              (record {
                counted = f.counted;
                left = [];
                in_order =
                    ap (λ z. seen ++ z) (delivered_nothing r.chunk nothing)
                    ∙ append-nil seen
                    ∙ all
                    ∙ sym (append-nil c.handed);
                complete = λ h. refl;
              })
        | inr something ↦
            simp (running, something)
              (record {
                counted = omega (arith, f.counted, flatten-concat c.handed r.chunk);
                left = [];
                in_order =
                    ap (λ z. seen ++ z) (delivered_something r.chunk something)
                    ∙ ap (λ z. z ++ r.chunk ∷ []) all
                    ∙ sym (append-nil (c.handed ++ r.chunk ∷ []));
                complete = λ h. refl;
              })
      ]
]

take_turns-IsFaithful :
    {E : Type 0} (ts : List (Turn E)) (d u : List Bytes) (c : Copies)
    → IsFaithful d c.down
    → IsFaithful u c.up
    → IsFaithful (d ++ downs ts) (take_turns ts c).down
      × IsFaithful (u ++ ups ts) (take_turns ts c).up
unfolding take_turns take_turn
take_turns-IsFaithful [] d u c fd fu = (rw append-nil fd, rw append-nil fu)
take_turns-IsFaithful (goes_down r w ∷ ts) d u c fd fu =
    let (down, up) =
      take_turns-IsFaithful ts (d ++ delivered r.chunk) u
        (record c { down = copy_round r w c.down }) (copy_round-IsFaithful r w d c.down fd) fu in
    (rw (← append_assoc) down, up)
take_turns-IsFaithful (goes_up r w ∷ ts) d u c fd fu =
    let (down, up) =
      take_turns-IsFaithful ts d (u ++ delivered r.chunk) (record c { up = copy_round r w c.up }) fd
        (copy_round-IsFaithful r w u c.up fu) in
    (down, rw (← append_assoc) up)

new_copier-IsFaithful : IsFaithful [] new_copier
new_copier-IsFaithful = record { counted = refl; left = []; in_order = refl; complete = λ h. refl }

-- A relayed UDP flow, in any order of the rounds of its two loops, each of which reads, counts and writes
-- in one step: the datagrams that it has handed on in each
-- direction are the front of those that were read, whole and in order, and the summary that it reports
-- counts exactly their bytes.
pub relay_udp_counts :
    {E : Type 0} (local : Bytes) (port start now : ℕ) (dest : AddrPort) (ts : List (Turn E))
    (u : UdpSummary)
    → addr_port_from_tcpip local port ≡ some dest
    → relay_udp local port true true start now ts ≡ some u
    → let c = take_turns ts no_copies in
      (left_down : List Bytes) × (left_up : List Bytes) × (downs ts ≡ c.down.handed ++ left_down)
      × (ups ts ≡ c.up.handed ++ left_up)
      × (u.download_bytes ≡ length (flatten c.down.handed))
      × (u.upload_bytes ≡ length (flatten c.up.handed))
unfolding relay_udp
relay_udp_counts local port start now dest ts u valid run =
    let c = take_turns ts no_copies in
    let (down, up) =
      take_turns-IsFaithful ts [] [] no_copies new_copier-IsFaithful new_copier-IsFaithful in
    elim (Bool-cases (c.down.finished || c.up.finished)) [
      | inr runs ↦ cc (rw (valid, relay_udp, relayed, runs) at run)
      | inl ends ↦
          let same : summary start now c ≡ u =
            some_eq (rw (valid, relay_udp, relayed, ends) at run) in
          (
            down.left,
            up.left,
            down.in_order,
            up.in_order,
            ap (λ (z : UdpSummary). z.download_bytes) (sym same) ∙ down.counted,
            ap (λ (z : UdpSummary). z.upload_bytes) (sym same) ∙ up.counted,
          )
    ]
