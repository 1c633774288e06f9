-- ===== src/Grace/Tests.antt =====
-- A server with a hook, and the signals it gets.
use j7f.Base.{◌≡◌, ◌≤◌, ◌+◌, refl, true, false, [], ◌∷◌, ◌++◌, none, some, codes, List}
use j7f.Base.Int.{pos}
use j7f.Grace.{
  Process, Server, Step, received, timer_fires, step, steps, sighup, sigint, sigterm, launched,
  signalled_parent, signal_map, pre_signal, listen_and_serve, is_hookable, hookable_signals,
}
use j7f.Grace.Stops.{
  tally, is_stop, is_deregistration, is_launch, stops_left, deregistrations_left, launches_left,
  steps-Spends,
}
use j7f.Grace.Stops.Ending.{ending_signal}
use j7f.Grace.Stops.Registered.{etcd_calls, stop_closes_both}
use j7f.ServiceRegister.{registrations, RegisterOpts, new_etcd}
use j7f.ServiceRegister.Closing.{some_call, closes_leaser, closes_watcher}
use j7f.ServiceRegister.Tests.{a_service, all_well, twice, two_made}
use j7f.Grace.Restart.{fresh, handover}

abbrev a_process : Process
a_process = record {
  path = codes "serve";
  args = codes "-v" ∷ [];
  running_servers = [];
  running_servers_forked = false;
  default_timeout = pos 60000000000;
  handling = true;
  timers = 0;
  server = record { is_child = false; runing = true; has_register_data = true; signal_hooks = [] };
}

abbrev two_hups : List Step
two_hups = received none sighup ∷ received none sighup ∷ []

steps-Spends_example :
    let r = steps (received none sigterm ∷ timer_fires ∷ two_hups) a_process in
    (tally is_stop r.1 + stops_left r.0 ≤ stops_left a_process)
    × (tally is_deregistration r.1 + deregistrations_left r.0 ≤ deregistrations_left a_process)
    × (tally is_launch r.1 + launches_left r.0 ≡ launches_left a_process)
steps-Spends_example = steps-Spends (received none sigterm ∷ timer_fires ∷ two_hups) a_process

ending_signal_example :
    tally is_stop
      (steps
        (two_hups ++ received none sigint ∷ timer_fires ∷ [])
        (listen_and_serve none none a_process).0).1
    ≡ 1
ending_signal_example =
    ending_signal two_hups none sigint none none a_process (refl, (refl, tt)) refl refl

abbrev hooked : Server
hooked = record {
  is_child = false;
  runing = true;
  has_register_data = false;
  signal_hooks = (pre_signal, []) ∷ [];
}

hookable_hup : is_hookable sighup hookable_signals ≡ true
unfolding is_hookable
hookable_hup = refl

no_hook_yet : signal_map pre_signal hooked.signal_hooks ≡ some []
unfolding signal_map
no_hook_yet = refl

-- Two servers, one of which has no file, and a flag from before.
abbrev restarted : Process
restarted = record a_process {
  args = codes "-v" ∷ codes "--graceful" ∷ [];
  running_servers = some 3 ∷ none ∷ [];
}

handover_example :
    let args = codes "-v" ∷ codes "--graceful" ∷ [] in
    let forks = step (received none sighup) restarted in
    let child = listen_and_serve none none (fresh (λ args. true) (codes "serve") args) in
    let ends = step (received none sigterm) forks.0 in
    (forks.1 ≡ launched (codes "serve") args (none ∷ none ∷ some 3 ∷ []) ∷ [])
    × ((step (received (some []) sighup) forks.0).1 ≡ [])
    × (child.1 ≡ signalled_parent sigterm ∷ [])
    × ((step (received none sighup) child.0).1 ≡ launched (codes "serve") args [] ∷ [])
    × (ends.0.server.runing ≡ false)
    × (ends.0.handling ≡ false)
handover_example = handover (λ args. true) restarted (some []) refl refl refl refl refl

stop_closes_both_example :
    let done =
      steps
        (two_hups ++ received none sigterm ∷ timer_fires ∷ [])
        (listen_and_serve none none a_process).0 in
    let rr : RegisterOpts = record {
      register_data = a_service;
      register_func = (registrations twice new_etcd).0;
    } in
    let all = (registrations twice new_etcd).1 ++ etcd_calls all_well rr done.1 in
    (some_call (closes_leaser 0) all ≡ true) × (some_call (closes_watcher 1) all ≡ true)
stop_closes_both_example =
    stop_closes_both twice all_well a_service two_hups none sigterm none none a_process 0 1
      (refl, (refl, tt)) refl refl two_made.0 two_made.1
