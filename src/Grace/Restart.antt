-- ===== src/Grace/Restart.antt =====
-- The fork on SIGHUP, and how the child takes over.
use j7f.Base.{
  ℕ, ◌+◌, ◌≡◌, refl, ap, sym, ◌∙◌, Option, some, length, replicate, codes, Bool, true, false, List,
  [], ◌∷◌, ◌++◌, none, Text, same_text, append-nil, arith, if◌then◌else◌, Bool-cases, inl, inr,
}
use j7f.Base.Int.{ℤ, pos}
use j7f.Grace.{
  Process, HookMap, pre_signal, suf_signal, launched, signalled_parent, signal_hooks, signal_map,
  fork, act, handle_signal, fork_args, without_graceful, graceful, files, opened, received, step,
  shutdown, sighup, sigterm, new_server, listen_and_serve,
}

-- How often a text is among the arguments.
abbrev pub occurrences : Text → List Text → ℕ
occurrences t [] = 0
occurrences t (arg ∷ args) = (if same_text arg t then 1 else 0) + occurrences t args

without_graceful-append :
    (xs ys : List Text) → without_graceful (xs ++ ys) ≡ without_graceful xs ++ without_graceful ys
unfolding without_graceful
without_graceful-append [] ys = refl
without_graceful-append (x ∷ xs) ys = ground (arith, without_graceful-append xs ys)

without_graceful_again :
    (xs : List Text) → without_graceful (without_graceful xs) ≡ without_graceful xs
unfolding without_graceful
without_graceful_again [] = refl
without_graceful_again (x ∷ xs) = elim (Bool-cases (same_text x graceful)) [
  | inl e ↦ ground (arith, without_graceful_again xs)
  | inr e ↦ ground (arith, without_graceful_again xs)
]

occurrences-without :
    (xs : List Text) → occurrences graceful (without_graceful xs ++ graceful ∷ []) ≡ 1
unfolding without_graceful
occurrences-without [] = refl
occurrences-without (x ∷ xs) = ground (arith, occurrences-without xs)

-- The child's own fork has the same arguments as its parent's, and `--graceful` is among them
-- exactly once.
fork_args_lem :
    (args : List Text)
    → (fork_args (fork_args args) ≡ fork_args args) × (occurrences graceful (fork_args args) ≡ 1)
unfolding fork_args
fork_args_lem args =
    let kept =
      without_graceful-append (without_graceful args) (graceful ∷ [])
      ∙ (unfold without_graceful in append-nil (without_graceful (without_graceful args)))
      ∙ without_graceful_again args in
    (ap (λ xs. xs ++ graceful ∷ []) kept, occurrences-without args)

no_hooks : (flag : ℤ) (sig : ℕ) (hooks : HookMap) → hooks ≡ [] → signal_hooks flag sig hooks ≡ []
no_hooks flag sig hooks e = ap (signal_hooks flag sig) e ∙ unfold signal_hooks signal_map in refl

-- The arguments but for the flag, and the files of the listeners that give one.
abbrev pub others : List Text → List Text
others [] = []
others (arg ∷ args) = if same_text arg (codes "--graceful") then others args else arg ∷ others args

abbrev pub given_files : List (Option ℕ) → List (Option ℕ)
given_files [] = []
given_files (none ∷ servers) = given_files servers
given_files (some fl ∷ servers) = some fl ∷ given_files servers

abbrev pub next_args : List Text → List Text
next_args args = others args ++ codes "--graceful" ∷ []

without_graceful-others : (args : List Text) → without_graceful args ≡ others args
unfolding without_graceful
without_graceful-others [] = refl
without_graceful-others (arg ∷ args) = ground (arith, without_graceful-others args)

fork_args-next : (args : List Text) → fork_args args ≡ next_args args
unfolding fork_args
fork_args-next args = ap (λ xs. xs ++ graceful ∷ []) (without_graceful-others args)

opened-given_files : (servers : List (Option ℕ)) → opened servers ≡ given_files servers
unfolding opened
opened-given_files [] = refl
opened-given_files (none ∷ servers) = opened-given_files servers
opened-given_files (some fl ∷ servers) = ap (λ fs. some fl ∷ fs) (opened-given_files servers)

abbrev pub next_files : List (Option ℕ) → List (Option ℕ)
next_files servers = replicate (length servers) none ++ given_files servers

files-next : (servers : List (Option ℕ)) → files servers ≡ next_files servers
unfolding files
files-next servers = ap (λ fs. replicate (length servers) none ++ fs) (opened-given_files servers)

forks_once :
    (p : Process)
    → p.handling ≡ true
    → p.server.runing ≡ true
    → p.server.signal_hooks ≡ []
    → p.running_servers_forked ≡ false
    → step (received none sighup) p ≡ (
      record p { running_servers_forked = true; handling = true },
      launched p.path (next_args p.args) (next_files p.running_servers) ∷ [],
    )
unfolding step handle_signal act fork
forks_once p h a b c = ground (
  arith,
  fork_args-next p.args,
  files-next p.running_servers,
  no_hooks pre_signal sighup p.server.signal_hooks b,
  no_hooks suf_signal sighup p.server.signal_hooks b,
)

forks_no_more :
    (start : Option Text) (p : Process)
    → p.server.signal_hooks ≡ []
    → p.running_servers_forked ≡ true
    → (step (received start sighup) p).1 ≡ []
unfolding step handle_signal act fork
forks_no_more start p b c = ground (
  arith,
  no_hooks pre_signal sighup p.server.signal_hooks b,
  no_hooks suf_signal sighup p.server.signal_hooks b,
)

-- A process that is launched: the package's variables are as they begin.
abbrev pub fresh : (List Text → Bool) → Text → List Text → Process
fresh parse_graceful path args = record {
  path = path;
  args = args;
  running_servers = [];
  running_servers_forked = false;
  default_timeout = pos 60000000000;
  handling = false;
  timers = 0;
  server = new_server (parse_graceful args);
}

child_serves :
    (p : Process)
    → p.server.is_child ≡ true
    → listen_and_serve none none p ≡ (
      record p { handling = true; server = record p.server { runing = true } },
      signalled_parent sigterm ∷ [],
      none,
    )
unfolding listen_and_serve
child_serves p h = ground arith

ends_serving :
    (p : Process)
    → p.handling ≡ true
    → let q = (step (received none sigterm) p).0 in (q.server.runing ≡ false) × (q.handling ≡ false)
unfolding step handle_signal act shutdown
ends_serving p h = ground arith

others-next : (args : List Text) → next_args (next_args args) ≡ next_args args
others-next args =
    sym (ap next_args (fork_args-next args))
    ∙ (sym (fork_args-next (fork_args args)) ∙ ((fork_args_lem args).0 ∙ fork_args-next args))

-- Where a server that runs, with no hooks and no earlier fork, gets SIGHUP: it launches its own
-- path once, with its other arguments in their order and one `--graceful` behind them, and with
-- a nil for each server before the files of the listeners that give one; a further SIGHUP
-- launches nothing. The process that is launched, where it reads the flag from its arguments,
-- sends SIGTERM to its parent, and on a SIGHUP of its own launches the same path and arguments,
-- without files. After the SIGTERM the parent runs no more and handles no more signals.
pub handover :
    (parse_graceful : List Text → Bool) (p : Process) (start : Option Text)
    → parse_graceful (next_args p.args) ≡ true
    → p.handling ≡ true
    → p.server.runing ≡ true
    → p.server.signal_hooks ≡ []
    → p.running_servers_forked ≡ false
    → let args = next_args p.args in
      let forks = step (received none sighup) p in
      let child = listen_and_serve none none (fresh parse_graceful p.path args) in
      let ends = step (received none sigterm) forks.0 in
      (forks.1 ≡ launched p.path args (next_files p.running_servers) ∷ [])
      × ((step (received start sighup) forks.0).1 ≡ [])
      × (child.1 ≡ signalled_parent sigterm ∷ [])
      × ((step (received none sighup) child.0).1 ≡ launched p.path args [] ∷ [])
      × (ends.0.server.runing ≡ false)
      × (ends.0.handling ≡ false)
handover parse_graceful p start h a b c d =
    let args = next_args p.args in
    let forks = forks_once p a b c d in
    let after = record p { running_servers_forked = true; handling = true } in
    let again : (step (received start sighup) after).1 ≡ [] = forks_no_more start after c refl in
    let ends = ends_serving after refl in
    let same = ap (λ r. r.0) forks in
    let made = fresh parse_graceful p.path args in
    let child = child_serves made h in
    let serving = record made { handling = true; server = record made.server { runing = true } } in
    let next = forks_once serving refl refl refl refl in
    (
      ap (λ r. r.1) forks,
      ap (λ q. (step (received start sighup) q).1) same ∙ again,
      ap (λ r. r.1) child,
      ap (λ r. (step (received none sighup) r.0).1) child
          ∙ (ap (λ r. r.1) next ∙ ap (λ xs. launched p.path xs [] ∷ []) (others-next p.args)),
      ap (λ q. (step (received none sigterm) q).0.server.runing) same ∙ ends.0,
      ap (λ q. (step (received none sigterm) q).0.handling) same ∙ ends.1,
    )
