-- ===== src/Relay/Tcp.antt =====
-- transport/tcp.go: the connection that counts bytes and reports its close once. Its calls on the
-- wrapped connection are arguments, as the byte counts that they return; `int64` sums do not overflow
-- here, `int16` and `int32` are words of two's complement.
pub mod Once
pub mod Bytes
use localdns_go.Prelude.{
  ℕ, zero, suc, ◌+◌, ◌-◌, ◌%◌, ◌^◌, Bool, true, false, not, ◌&&◌, ◌||◌, Option, none, some, List,
  [], ◌∷◌, ◌++◌, ◌==◌, if◌then◌else◌,
}

-- TCPSocketSummary; `retry` and `synack` are written before the connection is wrapped.
pub record TcpSummary : Type 0 where
  pub download_bytes : ℕ
  pub upload_bytes : ℕ
  pub duration : ℕ
  pub server_port : ℕ

-- -1 as an `int16`
abbrev pub other_port : ℕ
other_port = 2 ^ 16 - 1

-- makeTCPSocketSummary
unfoldable pub server_port_of : ℕ → ℕ
server_port_of port =
    let p = port % 2 ^ 16 in if p == 0 || p == 80 || p == 443 then p else other_port

-- tcpWrapConn; `pending` is the counter of the wait group, `settled` says that the goroutine is over,
-- `reports` are the summaries that the listener got.
pub record Flow : Type 0 where
  pub pending : ℕ
  pub r_done : Bool
  pub w_done : Bool
  pub begin_time : ℕ
  pub stats : TcpSummary
  pub has_listener : Bool
  pub settled : Bool
  pub reports : List TcpSummary

-- makeTCPWrapConn
unfoldable pub new_flow : ℕ → Bool → ℕ → Flow
unfolding server_port_of
new_flow port has_listener now = record {
  pending = 2;
  r_done = false;
  w_done = false;
  begin_time = now;
  stats = record {
    download_bytes = 0;
    upload_bytes = 0;
    duration = 0;
    server_port = server_port_of port;
  };
  has_listener = has_listener;
  settled = false;
  reports = [];
}

-- `wg.Done()`: Go panics on a counter of zero, which is `none`.
pub wait_done : ℕ → Flow → Option Flow
wait_done zero f = none
wait_done (suc n) f = some (record f { pending = n })

-- `conn.close(&conn.rDone)` and `conn.close(&conn.wDone)`
unfoldable pub finish_read : Flow → Option Flow
unfolding wait_done
finish_read f = if f.r_done then some f else wait_done f.pending (record f { r_done = true })

unfoldable pub finish_write : Flow → Option Flow
unfolding wait_done
finish_write f = if f.w_done then some f else wait_done f.pending (record f { w_done = true })

-- `Close`, whose deferred calls run in the opposite order
unfoldable pub close_flow : Flow → Option Flow
close_flow f = elim (finish_read f) [ none ↦ none | some f' ↦ finish_write f' ]

-- `Read` and `WriteTo`; `Write` and `ReadFrom`
unfoldable pub count_download : ℕ → Flow → Flow
count_download n f = record f {
  stats = record f.stats { download_bytes = f.stats.download_bytes + n };
}

unfoldable pub count_upload : ℕ → Flow → Flow
count_upload n f = record f { stats = record f.stats { upload_bytes = f.stats.upload_bytes + n } }

pub settle : ℕ → Flow → Flow
settle now f =
    let s = record f.stats { duration = (now - f.begin_time) % 2 ^ 32 } in
    record f {
      stats = s;
      settled = true;
      reports = if f.has_listener then f.reports ++ s ∷ [] else f.reports;
    }

-- The goroutine behind `wg.Wait()`, which goes on once the counter is zero, and once only.
unfoldable pub wait_and_report : ℕ → Flow → Flow
unfolding settle
wait_and_report now f = if f.pending == 0 && not f.settled then settle now f else f

-- What the callers and the goroutine do.
pub data FlowEvent : Type 0 where
  flow_closes : FlowEvent
  flow_closes_read : FlowEvent
  flow_closes_write : FlowEvent
  downloads : ℕ → FlowEvent
  uploads : ℕ → FlowEvent
  waits : ℕ → FlowEvent

unfoldable pub flow_step : FlowEvent → Flow → Option Flow
flow_step flow_closes f = close_flow f
flow_step flow_closes_read f = finish_read f
flow_step flow_closes_write f = finish_write f
flow_step (downloads n) f = some (count_download n f)
flow_step (uploads n) f = some (count_upload n f)
flow_step (waits now) f = some (wait_and_report now f)

pub flow_then : Option Flow → (Flow → Option Flow) → Option Flow
flow_then none k = none
flow_then (some f) k = k f

unfoldable pub run_flow : List FlowEvent → Flow → Option Flow
unfolding flow_then
run_flow [] f = some f
run_flow (e ∷ es) f = flow_then (flow_step e f) (run_flow es)
