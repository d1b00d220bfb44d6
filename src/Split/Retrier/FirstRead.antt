-- ===== src/Split/Retrier/FirstRead.antt =====
-- What the first `Read` that is not idle leaves behind, and what later ones do.
use localdns_go.Prelude.{
  ℕ, ◌≡◌, ◌||◌, Bool, false, true, Option, none, some, arith, Result, ok, err,
}
use localdns_go.Split.Conn.{read_bytes}
use localdns_go.Split.Counts.{split_hello-IsUntouched}
use localdns_go.Split.Retrier.{
  Retrier, ReadEnv, ReadResult, read, is_idle, after_replay, after_redial,
}

-- The connection after a replay that went through.
abbrev CarriesOver : {E : Type 0} → Retrier → ReadResult E → Type 0
CarriesOver r x =
    (x.state.conn.is_closed ≡ false)
    × (x.state.conn.read_shut ≡ r.read_closed)
    × (x.state.conn.write_shut ≡ r.write_closed)
    × (x.state.conn.write_deadline ≡ r.write_deadline)

after_redial-CarriesOver :
    {E : Type 0} (room : ℕ) (v : ReadEnv E) (r : Retrier) (d : Result E Unit)
    → (after_redial room v r d).error ≡ none
    → CarriesOver r (after_redial room v r d)
unfolding after_redial after_replay
after_redial-CarriesOver room v r (err e) h = cc
after_redial-CarriesOver room v r (ok x) h =
    ground (arith, split_hello-IsUntouched v.draw v.o1 v.o2 r.hello)

module _ {E : Type 0} (net_timeout : E → Option Bool) (room : ℕ) (v : ReadEnv E) (r : Retrier) where
  -- Once the retry is complete a `Read` is a read of the connection in use, and changes nothing.
  read_when_complete :
      r.retry_complete ≡ true
      → ((read net_timeout room v r).state ≡ r)
        × ((read net_timeout room v r).got ≡ read_bytes room v.first)
        × ((read net_timeout room v r).error ≡ v.first.error)
  unfolding read
  read_when_complete done = ground arith

  -- The first `Read` that is not idle completes the retry and clears the read deadline of the
  -- connection, also where the caller has set one, which the retrier still holds.
  read_drops_deadline :
      r.retry_complete ≡ false
      → is_idle room v.first ≡ false
      → ((read net_timeout room v r).state.retry_complete ≡ true)
        × ((read net_timeout room v r).state.conn.read_deadline ≡ none)
        × ((read net_timeout room v r).state.read_deadline ≡ r.read_deadline)
  unfolding read
  read_drops_deadline fresh busy = ground arith

  -- If the first `Read` fails and the retry reports no error, the connection in use is a new one, with
  -- the sides shut that the caller has shut, and with the write deadline that the caller has set.
  pub retry_carries_over :
      (e : E)
      → r.retry_complete ≡ false
      → v.first.error ≡ some e
      → (read net_timeout room v r).error ≡ none
      → ((read net_timeout room v r).state.conn.is_closed ≡ false)
        × ((read net_timeout room v r).state.conn.read_shut ≡ r.read_closed)
        × ((read net_timeout room v r).state.conn.write_shut ≡ r.write_closed)
        × ((read net_timeout room v r).state.conn.write_deadline ≡ r.write_deadline)
  unfolding read
  retry_carries_over e fresh failed h =
      let busy : (is_idle room v.first || r.retry_complete) ≡ false = ground arith in
      rw busy
        (simp failed (after_redial-CarriesOver room v _ v.redial (simp failed at (rw busy at h))))
