-- ===== src/Tests/IpMap.antt =====
-- Runs of proxy/doh/ipmap, and of `net.IP.Equal`.
use localdns_go.Prelude.{◌≡◌, refl, List, [], ◌∷◌}
use localdns_go.Net.Ip.{Ip, ip_equal}
use localdns_go.IpMap.{IpSet, new_set, has_ip, add_all, add_ip, confirm, disconfirm}
use localdns_go.IpMap.Valid.{
  Op, adds, confirms, disconfirms, run, IsValid, run-IsValid, new_set-IsValid,
}
use localdns_go.IpMap.View.{view, run_view, view-run}
use localdns_go.IpMap.Store.{new_store, commit}
use localdns_go.IpMap.Store.Stable.{Event, commits, updates, commit_agrees}
use localdns_go.IpMap.Store.Stable.{run as run_events}

abbrev v4 : Ip
v4 = 8 ∷ 8 ∷ 8 ∷ 8 ∷ []

abbrev v6 : Ip
v6 = 0 ∷ 0 ∷ 0 ∷ 0 ∷ 0 ∷ 0 ∷ 0 ∷ 0 ∷ 0 ∷ 0 ∷ 255 ∷ 255 ∷ 8 ∷ 8 ∷ 8 ∷ 8 ∷ []

abbrev other : Ip
other = 9 ∷ 9 ∷ 9 ∷ 9 ∷ []

abbrev ops : List Op
ops = adds (v4 ∷ v6 ∷ other ∷ []) ∷ confirms v6 ∷ disconfirms v4 ∷ confirms other ∷ []

run-ops : run ops new_set ≡ record { ips = v4 ∷ other ∷ []; confirmed = other }
unfolding run confirm ip_equal disconfirm add_all add_ip has_ip
run-ops = refl

run-IsValid_example : IsValid (run ops new_set)
run-IsValid_example = run-IsValid ops new_set-IsValid

abbrev two : IpSet
two = record { ips = v4 ∷ other ∷ []; confirmed = v4 }

abbrev later_events : List Event
later_events = commits "b" (v4 ∷ []) ∷ updates (confirms other) 0 ∷ commits "a" [] ∷ []

commit_agrees_example :
    (commit "a" two (run_events later_events (commit "a" new_set new_store).1)).0
    ≡ (commit "a" new_set new_store).0
commit_agrees_example = commit_agrees "a" new_set two new_store later_events

view-run_example : view (run ops two) ≡ run_view ops (view two)
unfolding has_ip ip_equal
view-run_example =
    view-run ops two (tt, (refl, (tt, (refl, tt))))
      (record { distinct = ((refl, tt), (tt, tt)); confirmed_known = λ h. refl })
