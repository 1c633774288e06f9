-- ===== src/Grace/Stops/Registered.antt =====
-- A server that is registered in etcd: its deregistration when it stops is that of
-- components/service_register.
use j7f.Base.{
  ℕ, ◌≤◌, ◌<◌, ◌≡◌, ap, sym, Bool, true, List, [], ◌∷◌, ◌++◌, Option, Text, arith, All, Bool-cases,
  subst, inl, inr,
}
use j7f.Grace.{
  Process, Effect, ran_hook, deregistered, stopped, launched, signalled_parent, Step, received,
  timer_fires, steps, listen_and_serve,
}
use j7f.Grace.Stops.{tally, is_deregistration, is_served}
use j7f.Grace.Stops.Ending.{is_ending, deregistered_once}
use j7f.ServiceRegister.{
  Registration, registrations, EtcdCall, Answers, Service, new_etcd, RegisterOpts, deregister,
  deregister_opts,
}
use j7f.ServiceRegister.Closing.{some_call, some_call-append, closes_leaser, closes_watcher}
use j7f.ServiceRegister.Closing.Sequences.{deregister_lem, deregister_opts_lem}

-- The calls of etcd that the effects come to, where `Rr` of the server is given.
pub etcd_calls : Answers → RegisterOpts → List Effect → List EtcdCall
etcd_calls a rr [] = []
etcd_calls a rr (deregistered ∷ es) = (deregister_opts a rr).made ++ etcd_calls a rr es
etcd_calls a rr (stopped ∷ es) = etcd_calls a rr es
etcd_calls a rr (ran_hook f ∷ es) = etcd_calls a rr es
etcd_calls a rr (launched path args fs ∷ es) = etcd_calls a rr es
etcd_calls a rr (signalled_parent sig ∷ es) = etcd_calls a rr es

some_call-etcd_calls :
    (is : EtcdCall → Bool) (a : Answers) (rr : RegisterOpts) (es : List Effect)
    → 1 ≤ tally is_deregistration es
    → some_call is (deregister_opts a rr).made ≡ true
    → some_call is (etcd_calls a rr es) ≡ true
unfolding etcd_calls tally
some_call-etcd_calls is a rr [] l h = absurd (omega (arith, l))
some_call-etcd_calls is a rr (deregistered ∷ es) l h =
    ground (arith, some_call-append is (deregister_opts a rr).made (etcd_calls a rr es))
some_call-etcd_calls is a rr (stopped ∷ es) l h =
    some_call-etcd_calls is a rr es (omega (arith, l)) h
some_call-etcd_calls is a rr (ran_hook f ∷ es) l h =
    some_call-etcd_calls is a rr es (omega (arith, l)) h
some_call-etcd_calls is a rr (launched path args fs ∷ es) l h =
    some_call-etcd_calls is a rr es (omega (arith, l)) h
some_call-etcd_calls is a rr (signalled_parent sig ∷ es) l h =
    some_call-etcd_calls is a rr es (omega (arith, l)) h

-- What `DeRegister` closes behind some calls, the effects of a server that stops close too.
closed_by_effects :
    (is : EtcdCall → Bool) (a : Answers) (rr : RegisterOpts) (cs : List EtcdCall) (es : List Effect)
    → 1 ≤ tally is_deregistration es
    → some_call is (cs ++ (deregister_opts a rr).made) ≡ true
    → some_call is (cs ++ etcd_calls a rr es) ≡ true
closed_by_effects is a rr cs es l h =
    let made = (deregister_opts a rr).made in
    elim (Bool-cases (some_call is made)) [
      | inl e ↦
          ground (
            arith,
            some_call-append is cs (etcd_calls a rr es),
            some_call-etcd_calls is a rr es l e,
          )
      | inr e ↦
          ground (arith, some_call-append is cs made, some_call-append is cs (etcd_calls a rr es))
    ]

-- A server with data for the registry, registered any number of times with whatever answers of
-- etcd, that calls `ListenAndServe`, gets any signals and timers while `StartServ` does not
-- return, and then SIGINT, SIGTERM or SIGKILL: behind the calls of the registrations and those
-- of the deregistration that the stop makes, any leaser and any watcher that was ever made has
-- been closed.
pub stop_closes_both :
    (rs : List Registration) (a : Answers) (s : Service) (ss : List Step) (start : Option Text)
    (sig : ℕ) (found signalled : Option Text) (p : Process) (k j : ℕ)
    → All (λ t. is_served t ≡ true) ss
    → is_ending sig ≡ true
    → p.server.has_register_data ≡ true
    → k < (registrations rs new_etcd).0.leasers_made
    → j < (registrations rs new_etcd).0.watchers_made
    → let done =
        steps
          (ss ++ received start sig ∷ timer_fires ∷ [])
          (listen_and_serve found signalled p).0 in
      let rr : RegisterOpts = record {
        register_data = s;
        register_func = (registrations rs new_etcd).0;
      } in
      let all = (registrations rs new_etcd).1 ++ etcd_calls a rr done.1 in
      (some_call (closes_leaser k) all ≡ true) × (some_call (closes_watcher j) all ≡ true)
stop_closes_both rs a s ss start sig found signalled p k j hs h t m n =
    let (e, cs) = registrations rs new_etcd in
    let done =
      steps (ss ++ received start sig ∷ timer_fires ∷ []) (listen_and_serve found signalled p).0 in
    let rr : RegisterOpts = record { register_data = s; register_func = e } in
    let once = deregistered_once ss start sig found signalled p hs h t in
    let (l, w) = deregister_lem rs a s in
    let same = ap (λ o. o.made) (sym (deregister_opts_lem a rr)) in
    let closed : (is : EtcdCall → Bool)
        → some_call is (cs ++ (deregister a s e).made) ≡ true
        → some_call is (cs ++ etcd_calls a rr done.1) ≡ true =
      λ is c.
        closed_by_effects is a rr cs done.1 (omega (arith, once))
          (subst (λ made. some_call is (cs ++ made) ≡ true) same c) in
    (closed (closes_leaser k) (l k m), closed (closes_watcher j) (w j n))
