-- ===== src/Grace/Stops/Ending.antt =====
-- The end of a server by a signal, and its deregistration.
use j7f.Base.{
  ℕ, ◌≡◌, refl, ap, sym, ◌∙◌, Bool, true, false, List, [], ◌∷◌, ◌++◌, Option, none, some, Text,
  arith, if◌then◌else◌, ◌==◌, All, ◌||◌, append_assoc,
}
use j7f.Base.Int.{pos}
use j7f.Grace.{
  Process, shutdown, act, handle_signal, Step, received, timer_fires, serve_returns, step, steps,
  listen_and_serve, sigint, sigterm, sigkill,
}
use j7f.Grace.Stops.{
  tally, tally-append, is_stop, is_deregistration, stops_left, is_served, step-Spends, step-Keeps,
  steps-Spends, steps-Keeps,
}

-- The loop of the signals waits for one exactly while the server runs.
abbrev Waits : Process → Type 0
Waits p = p.handling ≡ p.server.runing

step-Waits : (s : Step) (p : Process) → is_served s ≡ true → Waits p → Waits (step s p).0
unfolding step handle_signal
step-Waits (received start sig) p h w = ground arith
step-Waits timer_fires p h w = ground arith
step-Waits serve_returns p h w = cc

steps-Waits :
    (ss : List Step) (p : Process)
    → All (λ s. is_served s ≡ true) ss
    → Waits p
    → Waits (steps ss p).0
unfolding steps
steps-Waits [] p hs w = w
steps-Waits (s ∷ ss) p (h, hs) w = steps-Waits ss (step s p).0 hs (step-Waits s p h w)

-- The signals that shut a server down.
abbrev pub is_ending : ℕ → Bool
is_ending sig = (sig == sigint) || (sig == sigterm) || (sig == sigkill)

shutdown_runs_no_more : (p : Process) → (shutdown p).0.server.runing ≡ false
unfolding shutdown
shutdown_runs_no_more p = ground arith

act_ends :
    (start : Option Text) (sig : ℕ) (p : Process)
    → is_ending sig ≡ true
    → (act start sig p).0.server.runing ≡ false
unfolding act
act_ends start sig p h =
    ground
      (arith, shutdown_runs_no_more p, shutdown_runs_no_more (record p { default_timeout = pos 0 }))

signal_ends :
    (start : Option Text) (sig : ℕ) (p : Process)
    → is_ending sig ≡ true
    → Waits p
    → (step (received start sig) p).0.server.runing ≡ false
unfolding step handle_signal
signal_ends start sig p h w = ground (arith, act_ends start sig p h)

steps-append :
    (ss ts : List Step) (p : Process)
    → steps (ss ++ ts) p
      ≡ ((steps ts (steps ss p).0).0, (steps ss p).1 ++ (steps ts (steps ss p).0).1)
unfolding steps
steps-append [] ts p = refl
steps-append (s ∷ ss) ts p =
    let q = step s p in
    let rest = steps-append ss ts q.0 in
    let last = steps ts (steps ss q.0).0 in
    ap (λ r. (r.0, q.1 ++ r.1)) rest
    ∙ ap (λ es. (last.0, es)) (sym (append_assoc q.1 (steps ss q.0).1 last.1))

started :
    (found signalled : Option Text) (p : Process)
    → let q = (listen_and_serve found signalled p).0 in
      (q.timers ≡ p.timers) × (q.server.runing ≡ true) × (q.handling ≡ true)
unfolding listen_and_serve
started none signalled p = ground arith
started (some err) signalled p = ground arith

started_data :
    (found signalled : Option Text) (p : Process)
    → (listen_and_serve found signalled p).0.server.has_register_data ≡ p.server.has_register_data
unfolding listen_and_serve
started_data none signalled p = ground arith
started_data (some err) signalled p = ground arith

last_stops :
    (start : Option Text) (sig : ℕ) (p : Process)
    → is_ending sig ≡ true
    → Waits p
    → tally is_stop (steps (received start sig ∷ timer_fires ∷ []) p).1 ≡ (
        if stops_left p == 0
        then 0
        else if stops_left p == 1
        then 1
        else tally is_stop (steps (received start sig ∷ timer_fires ∷ []) p).1)
unfolding steps tally
last_stops start sig p h w =
    let q = step (received start sig) p in
    let t = step timer_fires q.0 in
    let fired : tally is_stop t.1 ≡ (if q.0.timers == 0 then 0 else 1) =
      unfold step tally in ground arith in
    let ended = signal_ends start sig p h w in
    ground (
      arith,
      fired,
      ended,
      step-Spends (received start sig) p,
      step-Keeps (received start sig) p refl,
      tally-append is_stop q.1 (t.1 ++ []),
      tally-append is_stop t.1 [],
    )

-- A process with no timer that calls `ListenAndServe`, and gets any signals and timers while
-- `StartServ` does not return, then one of SIGINT, SIGTERM and SIGKILL, and then has its timer
-- fire, has called `GracefulStop` exactly once.
pub ending_signal :
    (ss : List Step) (start : Option Text) (sig : ℕ) (found signalled : Option Text) (p : Process)
    → All (λ s. is_served s ≡ true) ss
    → is_ending sig ≡ true
    → p.timers ≡ 0
    → tally is_stop
        (steps
          (ss ++ received start sig ∷ timer_fires ∷ [])
          (listen_and_serve found signalled p).0).1
      ≡ 1
ending_signal ss start sig found signalled p hs h t =
    let q = (listen_and_serve found signalled p).0 in
    let (timers, runs, waits) = started found signalled p in
    let ts = received start sig ∷ timer_fires ∷ [] in
    let before = steps ss q in
    let w : Waits before.0 = steps-Waits ss q hs (waits ∙ sym runs) in
    let split = ap (λ r. tally is_stop r.1) (steps-append ss ts q) in
    ground (
      arith,
      split,
      timers,
      runs,
      steps-Spends ss q,
      steps-Keeps ss q hs,
      last_stops start sig before.0 h w,
      tally-append is_stop before.1 (steps ts before.0).1,
    )

-- After the two last steps the server runs no more.
runs_no_more :
    (start : Option Text) (sig : ℕ) (p : Process)
    → is_ending sig ≡ true
    → Waits p
    → (steps (received start sig ∷ timer_fires ∷ []) p).0.server.runing ≡ false
unfolding steps
runs_no_more start sig p h w =
    let q = (step (received start sig) p).0 in
    let same : (step timer_fires q).0.server.runing ≡ q.server.runing =
      unfold step in ground arith in
    same ∙ signal_ends start sig p h w

-- A server with data for the registry that a signal ends while it serves has deregistered once.
pub deregistered_once :
    (ss : List Step) (start : Option Text) (sig : ℕ) (found signalled : Option Text) (p : Process)
    → All (λ s. is_served s ≡ true) ss
    → is_ending sig ≡ true
    → p.server.has_register_data ≡ true
    → tally is_deregistration
        (steps
          (ss ++ received start sig ∷ timer_fires ∷ [])
          (listen_and_serve found signalled p).0).1
      ≡ 1
deregistered_once ss start sig found signalled p hs h t =
    let q = (listen_and_serve found signalled p).0 in
    let (timers, runs, waits) = started found signalled p in
    let ts = received start sig ∷ timer_fires ∷ [] in
    let before = steps ss q in
    let w : Waits before.0 = steps-Waits ss q hs (waits ∙ sym runs) in
    ground (
      arith,
      ap (λ r. tally is_deregistration r.1) (steps-append ss ts q),
      runs,
      started_data found signalled p,
      steps-Spends ss q,
      steps-Keeps ss q hs,
      steps-Spends ts before.0,
      steps-Keeps ts before.0 (refl, (refl, tt)),
      runs_no_more start sig before.0 h w,
      tally-append is_deregistration before.1 (steps ts before.0).1,
    )
