-- ===== src/Grace/Stops.antt =====
-- How often a server stops, deregisters and forks, for every order of the signals and timers.
pub mod Ending
pub mod Registered
use j7f.Base.{
  ℕ, ◌+◌, ◌≤◌, ◌≡◌, refl, ap, sym, ◌∙◌, Bool, true, false, not, List, [], ◌∷◌, ◌++◌, Option, none,
  some, Text, arith, if◌then◌else◌, ◌==◌, Bool-cases, Option-cases, inl, inr, subst, All, ◌||◌,
  append_assoc,
}
use j7f.Base.Int.{ℤ, pos, ltb_ℤ}
use j7f.Grace.{
  Process, HookMap, Effect, ran_hook, deregistered, stopped, launched, signalled_parent, run_all,
  signal_hooks, signal_map, hooks_of, shutdown, fork, act, handle_signal, Step, received,
  timer_fires, serve_returns, step, steps, listen_and_serve, sighup, sigint, sigterm, sigkill,
  pre_signal, suf_signal,
}

abbrev pub one : Bool → ℕ
one true = 1
one false = 0

-- Whether an effect is of a kind, and how many in a list are.
abbrev pub is_stop : Effect → Bool
is_stop stopped = true
is_stop deregistered = false
is_stop (ran_hook f) = false
is_stop (launched path args fs) = false
is_stop (signalled_parent sig) = false

abbrev pub is_deregistration : Effect → Bool
is_deregistration deregistered = true
is_deregistration stopped = false
is_deregistration (ran_hook f) = false
is_deregistration (launched path args fs) = false
is_deregistration (signalled_parent sig) = false

abbrev pub is_launch : Effect → Bool
is_launch (launched path args fs) = true
is_launch deregistered = false
is_launch stopped = false
is_launch (ran_hook f) = false
is_launch (signalled_parent sig) = false

pub tally : (Effect → Bool) → List Effect → ℕ
tally is [] = 0
tally is (e ∷ es) = one (is e) + tally is es

pub tally-append :
    (is : Effect → Bool) (es fs : List Effect) → tally is (es ++ fs) ≡ tally is es + tally is fs
unfolding tally
tally-append is [] fs = ground arith
tally-append is (e ∷ es) fs = ground (arith, tally-append is es fs)

-- What is left to a process: a stop for each timer and for a server that runs, a deregistration for
-- a server that runs, and a fork where there was none.
abbrev pub stops_left : Process → ℕ
stops_left p = p.timers + one p.server.runing

abbrev pub deregistrations_left : Process → ℕ
deregistrations_left p = one p.server.runing

abbrev pub launches_left : Process → ℕ
launches_left p = one (not p.running_servers_forked)

-- Hooks do none of the three.
abbrev IsQuiet : List Effect → Type 0
IsQuiet es = (tally is_stop es ≡ 0) × (tally is_deregistration es ≡ 0) × (tally is_launch es ≡ 0)

run_all-IsQuiet : (fs : List ℕ) → IsQuiet (run_all fs)
unfolding run_all tally
run_all-IsQuiet [] = (refl, refl, refl)
run_all-IsQuiet (f ∷ fs) = ground (arith, run_all-IsQuiet fs)

none-IsQuiet : {es : List Effect} → es ≡ [] → IsQuiet es
unfolding tally
none-IsQuiet e = ground arith

signal_hooks-IsQuiet :
    (flag : ℤ) (sig : ℕ) (hooks : HookMap) → IsQuiet (signal_hooks flag sig hooks)
signal_hooks-IsQuiet flag sig hooks = elim (Option-cases (signal_map flag hooks)) [
  | inl e ↦ none-IsQuiet (unfold signal_hooks in ground arith)
  | inr (m, e) ↦ elim (Option-cases (hooks_of sig m)) [
    | inl f ↦ none-IsQuiet (unfold signal_hooks in ground arith)
    | inr (fs, f) ↦
        let runs : signal_hooks flag sig hooks ≡ run_all fs = unfold signal_hooks in ground arith in
        subst IsQuiet (sym runs) (run_all-IsQuiet fs)
  ]
]

-- A process and what is done, against the process from before.
abbrev pub Spends : Process → Process × List Effect → Type 0
Spends p r =
    (tally is_stop r.1 + stops_left r.0 ≤ stops_left p)
    × (tally is_deregistration r.1 + deregistrations_left r.0 ≤ deregistrations_left p)
    × (tally is_launch r.1 + launches_left r.0 ≡ launches_left p)

-- No stop is lost either, nor a deregistration of a server with data.
abbrev pub Keeps : Process → Process × List Effect → Type 0
Keeps p r =
    (stops_left p ≤ tally is_stop r.1 + stops_left r.0)
    × (p.server.has_register_data ≡ true
        → deregistrations_left p ≤ tally is_deregistration r.1 + deregistrations_left r.0)
    × (r.0.server.has_register_data ≡ p.server.has_register_data)

abbrev Handles : Process → Process × List Effect → Type 0
Handles p r = Spends p r × Keeps p r

shutdown-Handles : (p : Process) → Handles p (shutdown p)
unfolding shutdown tally
shutdown-Handles p = elim (Bool-cases p.server.runing) [
  | inl e ↦ elim (Bool-cases (ltb_ℤ (pos 0) p.default_timeout)) [
    | inl f ↦ ground arith
    | inr f ↦ ground arith
  ]
  | inr e ↦ ground arith
]

fork-Handles : (start : Option Text) (p : Process) → Handles p ((fork start p).0, (fork start p).1)
unfolding fork tally
fork-Handles start p = ground arith

act-Handles : (start : Option Text) (sig : ℕ) (p : Process) → Handles p (act start sig p)
unfolding act tally
act-Handles start sig p =
    let now = shutdown-Handles (record p { default_timeout = pos 0 }) in
    elim (Bool-cases (sig == sighup)) [
      | inl e ↦ ground (arith, fork-Handles start p)
      | inr e ↦ elim (Bool-cases (sig == sigint)) [
        | inl f ↦ ground (arith, now)
        | inr f ↦ ground (arith, now, shutdown-Handles p)
      ]
    ]

quiet_around :
    (is : Effect → Bool) (pre done suf : List Effect)
    → tally is pre ≡ 0
    → tally is suf ≡ 0
    → tally is (pre ++ done ++ suf) ≡ tally is done
quiet_around is pre done suf a b =
    ground (arith, tally-append is (pre ++ done) suf, tally-append is pre done)

handle_signal-Handles :
    (start : Option Text) (sig : ℕ) (p : Process) → Handles p (handle_signal start sig p)
unfolding handle_signal
handle_signal-Handles start sig p =
    let done = (act start sig p).1 in
    let pre = signal_hooks pre_signal sig p.server.signal_hooks in
    let suf = signal_hooks suf_signal sig p.server.signal_hooks in
    let (a, b, c) = signal_hooks-IsQuiet pre_signal sig p.server.signal_hooks in
    let (a', b', c') = signal_hooks-IsQuiet suf_signal sig p.server.signal_hooks in
    let stops = quiet_around is_stop pre done suf a a' in
    let deregs = quiet_around is_deregistration pre done suf b b' in
    let launches = quiet_around is_launch pre done suf c c' in
    ground (arith, stops, deregs, launches, act-Handles start sig p)

abbrev pub is_served : Step → Bool
is_served (received start sig) = true
is_served timer_fires = true
is_served serve_returns = false

pub step-Spends : (s : Step) (p : Process) → Spends p (step s p)
unfolding step tally
step-Spends (received start sig) p = ground (arith, handle_signal-Handles start sig p)
step-Spends timer_fires p = ground arith
step-Spends serve_returns p = ground arith

pub step-Keeps : (s : Step) (p : Process) → is_served s ≡ true → Keeps p (step s p)
unfolding step tally
step-Keeps (received start sig) p h = ground (arith, handle_signal-Handles start sig p)
step-Keeps timer_fires p h = ground arith
step-Keeps serve_returns p h = cc

-- For every sequence of signals, timers and ends of serving: the graceful stops that happen and
-- those still left (one for each timer, one for a server that runs) are together at most those
-- left before, the deregistrations likewise with one for a server that runs, and the forks,
-- failed ones included, with exactly one left where there was none.
pub steps-Spends : (ss : List Step) (p : Process) → Spends p (steps ss p)
unfolding steps tally
steps-Spends [] p = ground arith
steps-Spends (s ∷ ss) p =
    let q = step s p in
    let r = steps ss q.0 in
    ground (
      arith,
      step-Spends s p,
      steps-Spends ss q.0,
      tally-append is_stop q.1 r.1,
      tally-append is_deregistration q.1 r.1,
      tally-append is_launch q.1 r.1,
    )

pub steps-Keeps :
    (ss : List Step) (p : Process) → All (λ s. is_served s ≡ true) ss → Keeps p (steps ss p)
unfolding steps tally
steps-Keeps [] p hs = ground arith
steps-Keeps (s ∷ ss) p (h, hs) =
    let q = step s p in
    let r = steps ss q.0 in
    ground (
      arith,
      step-Keeps s p h,
      steps-Keeps ss q.0 hs,
      tally-append is_stop q.1 r.1,
      tally-append is_deregistration q.1 r.1,
    )
