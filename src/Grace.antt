-- ===== src/Grace.antt =====
-- components/grace/grace.go and server.go: a server that restarts and stops by signals. A signal is its
-- number, a hook its own, and what the code does outside is an `Effect`. The server and the package's
-- variables are the fields of `Process`, with the loop of `handleSignals` (`handling`: it waits for a
-- signal) and the timers of `shutdown`.
pub mod Stops
pub mod Hooks
pub mod Restart
pub mod Tests
use j7f.Base.{
  ℕ, ◌+◌, ◌-◌, Bool, true, false, ◌||◌, ◌&&◌, not, List, [], ◌∷◌, ◌++◌, Option, none, some, Text,
  same_text, codes, if◌then◌else◌, ◌==◌, length, replicate,
}
use j7f.Base.Int.{ℤ, pos, ltb_ℤ, eqb_ℤ}

-- The hooks of a flag for the signals, and all hooks; a nil map has no entries.
abbrev pub SignalMap : Type 0
SignalMap = List (ℕ × List ℕ)

abbrev pub HookMap : Type 0
HookMap = List (ℤ × SignalMap)

pub record Server : Type 0 where
  pub is_child : Bool
  pub runing : Bool
  pub has_register_data : Bool
  pub signal_hooks : HookMap

-- `running_servers` has for each server what `GetListener().File()` answers, none for an error.
pub record Process : Type 0 where
  pub path : Text
  pub args : List Text
  pub running_servers : List (Option ℕ)
  pub running_servers_forked : Bool
  pub default_timeout : ℤ
  pub handling : Bool
  pub timers : ℕ
  pub server : Server

pub data Effect : Type 0 where
  ran_hook : ℕ → Effect
  deregistered stopped : Effect
  launched : Text → List Text → List (Option ℕ) → Effect
  signalled_parent : ℕ → Effect

abbrev pub pre_signal : ℤ
pre_signal = pos 0

abbrev pub suf_signal : ℤ
suf_signal = pos 1

abbrev pub sighup : ℕ
sighup = 1

abbrev pub sigint : ℕ
sigint = 2

abbrev pub sigkill : ℕ
sigkill = 9

abbrev pub sigterm : ℕ
sigterm = 15

abbrev pub hookable_signals : List ℕ
hookable_signals = sighup ∷ sigint ∷ sigterm ∷ sigkill ∷ []

-- `NewServer`; the map of running servers that it fills is its own variable.
abbrev pub new_server : Bool → Server
new_server is_child = record {
  is_child = is_child;
  runing = false;
  has_register_data = false;
  signal_hooks = [];
}

pub signal_map : ℤ → HookMap → Option SignalMap
signal_map flag [] = none
signal_map flag ((f, m) ∷ hooks) =
    let rest = signal_map flag hooks in if eqb_ℤ f flag then some m else rest

pub hooks_of : ℕ → SignalMap → Option (List ℕ)
hooks_of sig [] = none
hooks_of sig ((s, fs) ∷ m) = let rest = hooks_of sig m in if s == sig then some fs else rest

pub run_all : List ℕ → List Effect
run_all [] = []
run_all (f ∷ fs) = ran_hook f ∷ run_all fs

pub signal_hooks : ℤ → ℕ → HookMap → List Effect
unfolding signal_map hooks_of run_all
signal_hooks flag sig hooks = elim (signal_map flag hooks) [
  | none ↦ []
  | some m ↦ elim (hooks_of sig m) [ none ↦ [] | some fs ↦ run_all fs ]
]

pub put_hooks : ℕ → List ℕ → SignalMap → SignalMap
put_hooks sig fs [] = (sig, fs) ∷ []
put_hooks sig fs ((s, gs) ∷ m) =
    let rest = put_hooks sig fs m in if s == sig then (sig, fs) ∷ m else (s, gs) ∷ rest

pub put_map : ℤ → SignalMap → HookMap → HookMap
put_map flag m [] = (flag, m) ∷ []
put_map flag m ((f, n) ∷ hooks) =
    let rest = put_map flag m hooks in if eqb_ℤ f flag then (flag, m) ∷ hooks else (f, n) ∷ rest

pub data HookError : Type 0 where
  invalid_flag : HookError
  not_supported : ℕ → HookError

pub is_hookable : ℕ → List ℕ → Bool
is_hookable sig [] = false
is_hookable sig (s ∷ ss) = (s == sig) || is_hookable sig ss

abbrev pub or_nil : Option (List ℕ) → List ℕ
or_nil none = []
or_nil (some fs) = fs

-- `RegisterSignalHook`: none for a panic, which the assignment to an entry of a nil map is.
pub register_signal_hook : ℤ → ℕ → ℕ → Server → Option (Server × Option HookError)
unfolding signal_map hooks_of put_hooks put_map is_hookable
register_signal_hook flag sig f srv =
    if not (eqb_ℤ flag pre_signal) && not (eqb_ℤ flag suf_signal)
    then some (srv, some invalid_flag)
    else if is_hookable sig hookable_signals
    then elim (signal_map flag srv.signal_hooks) [
      | none ↦ none
      | some m ↦
          let fs = or_nil (hooks_of sig m) ++ f ∷ [] in
          some
            (record srv { signal_hooks = put_map flag (put_hooks sig fs m) srv.signal_hooks }, none)
    ]
    else some (srv, some (not_supported sig))

-- What a recovered panic of `GracefulStop` is, and the error that `Close` panics with.
pub data PanicValue : Type 0 where
  panic_text panic_error : Text → PanicValue
  panic_other : PanicValue

abbrev pub close_error : PanicValue → Text
close_error (panic_text x) = x
close_error (panic_error x) = x
close_error panic_other = codes "unknown panic"

-- `Close`: a nil error, or a panic with an error.
pub close : Option PanicValue → Option Text
close none = none
close (some r) = some (close_error r)

pub shutdown : Process → Process × List Effect
shutdown p =
    let left = record p { server = record p.server { runing = false } } in
    let dereg = if p.server.has_register_data then deregistered ∷ [] else [] in
    if not p.server.runing
    then (p, [])
    else if ltb_ℤ (pos 0) p.default_timeout
    then (record left { timers = p.timers + 1 }, dereg)
    else (left, dereg ++ stopped ∷ [])

abbrev pub graceful : Text
graceful = codes "--graceful"

pub without_graceful : List Text → List Text
without_graceful [] = []
without_graceful (arg ∷ args) =
    let rest = without_graceful args in if same_text arg graceful then rest else arg ∷ rest

pub fork_args : List Text → List Text
unfolding without_graceful
fork_args args = without_graceful args ++ graceful ∷ []

pub opened : List (Option ℕ) → List (Option ℕ)
opened [] = []
opened (none ∷ servers) = opened servers
opened (some fl ∷ servers) = some fl ∷ opened servers

-- The files begin with a nil for each server, which `make` puts there.
pub files : List (Option ℕ) → List (Option ℕ)
unfolding opened
files servers = replicate (length servers) none ++ opened servers

-- `start` is the error of `cmd.Start`.
pub fork : Option Text → Process → Process × List Effect × Option Text
unfolding fork_args files
fork start p = if p.running_servers_forked then (p, [], none) else (
  record p { running_servers_forked = true },
  launched p.path (fork_args p.args) (files p.running_servers) ∷ [],
  start,
)

-- The `switch` of `handleSignals`.
pub act : Option Text → ℕ → Process → Process × List Effect
unfolding shutdown fork
act start sig p =
    let r = fork start p in
    if sig == sighup
    then (r.0, r.1)
    else if sig == sigint
    then shutdown (record p { default_timeout = pos 0 })
    else if sig == sigterm
    then shutdown p
    else if sig == sigkill
    then shutdown (record p { default_timeout = pos 0 })
    else (p, [])

-- A round of `handleSignals`; the loop ends where the server runs no more. A signal for which no
-- receiver waits is dropped.
pub handle_signal : Option Text → ℕ → Process → Process × List Effect
unfolding act signal_hooks
handle_signal start sig p =
    let (q, done) = act start sig p in
    (
      record q { handling = q.server.runing },
      signal_hooks pre_signal sig p.server.signal_hooks
          ++ done
          ++ signal_hooks suf_signal sig p.server.signal_hooks,
    )

pub data Step : Type 0 where
  received : Option Text → ℕ → Step
  timer_fires serve_returns : Step

pub step : Step → Process → Process × List Effect
unfolding handle_signal
step (received start sig) p = if p.handling then handle_signal start sig p else (p, [])
step timer_fires p =
    if p.timers == 0 then (p, []) else (record p { timers = p.timers - 1 }, stopped ∷ [])
step serve_returns p = (record p { server = record p.server { runing = false } }, [])

pub steps : List Step → Process → Process × List Effect
unfolding step
steps [] p = (p, [])
steps (s ∷ ss) p = let (q, es) = step s p in let (r, fs) = steps ss q in (r, es ++ fs)

-- `ListenAndServe` up to the call of `StartServ`: the errors of finding and of signalling the parent are
-- given.
pub listen_and_serve : Option Text → Option Text → Process → Process × List Effect × Option Text
listen_and_serve found signalled p =
    let on = record p { handling = true; server = record p.server { runing = true } } in
    if p.server.is_child
    then elim found [
      | some err ↦ (on, [], some err)
      | none ↦ (on, signalled_parent sigterm ∷ [], signalled)
    ]
    else (on, [], none)
