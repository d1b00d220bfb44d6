-- ===== src/Tests/Relay.antt =====
-- Runs of transport/tcp.go.
use localdns_go.Prelude.{
  ◌≤◌, ◌≡◌, ◌⊎◌, refl, true, false, Option, none, some, List, [], ◌∷◌, length,
}
use localdns_go.Relay.Tcp.{
  Flow, new_flow, finish_read, finish_write, close_flow, count_download, wait_and_report, FlowEvent,
  flow_closes, flow_closes_read, flow_closes_write, downloads, waits, flow_step, run_flow,
}
use localdns_go.Relay.Tcp.Once.{one_report}

-- The sides are closed twice, and the goroutine runs early and late.
abbrev closes_twice : List FlowEvent
closes_twice =
    waits 3
    ∷ downloads 7
    ∷ flow_closes_read
    ∷ waits 4
    ∷ flow_closes
    ∷ waits 5
    ∷ flow_closes_write
    ∷ waits 6
    ∷ []

abbrev flow_of : Option Flow → Flow
flow_of (some f) = f
flow_of none = new_flow 0 false 0

one_report_example :
    (length (flow_of (run_flow closes_twice (new_flow 443 true 1))).reports ≤ 1)
    × ((length (flow_of (run_flow closes_twice (new_flow 443 true 1))).reports ≡ 0)
        ⊎ (((flow_of (run_flow closes_twice (new_flow 443 true 1))).r_done ≡ true)
            × ((flow_of (run_flow closes_twice (new_flow 443 true 1))).w_done ≡ true)))
unfolding run_flow flow_step new_flow finish_read finish_write close_flow count_download
    wait_and_report
one_report_example =
    one_report closes_twice 443 true 1 (flow_of (run_flow closes_twice (new_flow 443 true 1))) refl
