-- ===== src/Grace/Hooks.antt =====
-- `RegisterSignalHook`: the hooks that run afterwards, and where it panics.
use j7f.Base.{
  ℕ, ◌≡◌, refl, ap, Bool, true, ◌&&◌, ◌||◌, List, [], ◌∷◌, ◌++◌, Option, none, some, arith,
  if◌then◌else◌, ◌==◌, Bool-cases, Option-cases, inl, inr,
}
use j7f.Base.Int.{ℤ, eqb_ℤ}
use j7f.Grace.{
  SignalMap, HookMap, Server, Effect, ran_hook, pre_signal, suf_signal, hookable_signals,
  signal_map, hooks_of, run_all, signal_hooks, put_hooks, put_map, is_hookable, or_nil,
  register_signal_hook, new_server,
}

hooks_of-put_hooks :
    (sig s : ℕ) (fs : List ℕ) (m : SignalMap)
    → hooks_of s (put_hooks sig fs m) ≡ (if sig == s then some fs else hooks_of s m)
unfolding hooks_of put_hooks
hooks_of-put_hooks sig s fs [] = ground arith
hooks_of-put_hooks sig s fs ((t, gs) ∷ m) = ground (arith, hooks_of-put_hooks sig s fs m)

signal_map-put_map :
    (flag f : ℤ) (m : SignalMap) (hooks : HookMap)
    → signal_map f (put_map flag m hooks) ≡ (if eqb_ℤ flag f then some m else signal_map f hooks)
unfolding signal_map put_map
signal_map-put_map flag f m [] = ground arith
signal_map-put_map flag f m ((g, n) ∷ hooks) = ground (arith, signal_map-put_map flag f m hooks)

run_all-append : (fs : List ℕ) (f : ℕ) → run_all (fs ++ f ∷ []) ≡ run_all fs ++ ran_hook f ∷ []
unfolding run_all
run_all-append [] f = refl
run_all-append (g ∷ fs) f = ap (λ es. ran_hook g ∷ es) (run_all-append fs f)

abbrev pub is_flag : ℤ → Bool
is_flag flag = eqb_ℤ flag pre_signal || eqb_ℤ flag suf_signal

same_map :
    (flag f : ℤ) (hooks : HookMap)
    → eqb_ℤ flag f ≡ true
    → signal_map f hooks ≡ signal_map flag hooks
unfolding signal_map
same_map flag f [] h = refl
same_map flag f ((g, n) ∷ hooks) h = ground (arith, same_map flag f hooks h)

same_hooks : (sig s : ℕ) (m : SignalMap) → (sig == s) ≡ true → hooks_of s m ≡ hooks_of sig m
unfolding hooks_of
same_hooks sig s [] h = refl
same_hooks sig s ((t, fs) ∷ m) h = ground (arith, same_hooks sig s m h)

-- The hooks of a flag's map, as they run.
run_hooks : ℕ → Option SignalMap → List Effect
run_hooks s none = []
run_hooks s (some m) = run_all (or_nil (hooks_of s m))

signal_hooks-run :
    (flag : ℤ) (s : ℕ) (hooks : HookMap)
    → signal_hooks flag s hooks ≡ run_hooks s (signal_map flag hooks)
unfolding signal_hooks run_hooks
signal_hooks-run flag s hooks = elim (Option-cases (signal_map flag hooks)) [
  | inl e ↦ ground arith
  | inr (m, e) ↦ elim (Option-cases (hooks_of s m)) [
    | inl f ↦ unfold run_all in ground arith
    | inr (fs, f) ↦ ground arith
  ]
]

added_runs :
    (flag : ℤ) (sig f : ℕ) (m : SignalMap) (hooks : HookMap)
    → signal_map flag hooks ≡ some m
    → (g : ℤ) (s : ℕ)
    → run_hooks s
        (signal_map g (put_map flag (put_hooks sig (or_nil (hooks_of sig m) ++ f ∷ []) m) hooks))
      ≡ (if eqb_ℤ flag g && (sig == s)
          then run_hooks sig (signal_map flag hooks) ++ ran_hook f ∷ []
          else run_hooks s (signal_map g hooks))
unfolding run_hooks
added_runs flag sig f m hooks e g s =
    let fs = or_nil (hooks_of sig m) in
    let n = put_hooks sig (fs ++ f ∷ []) m in
    let found = signal_map-put_map flag g n hooks in
    let there = hooks_of-put_hooks sig s (fs ++ f ∷ []) m in
    elim (Bool-cases (eqb_ℤ flag g)) [
      | inl h ↦ elim (Bool-cases (sig == s)) [
        | inl k ↦ ground (arith, found, there, run_all-append fs f)
        | inr k ↦ ground (arith, found, there, same_map flag g hooks h)
      ]
      | inr h ↦ ground (arith, found)
    ]

-- Where the flag is one of the two, the signal can be hooked and the flag has a map:
-- `RegisterSignalHook` gives no error, the hook runs last for this flag and signal, and all
-- other flags and signals run what they ran.
register_signal_hook_lem :
    (flag : ℤ) (sig f : ℕ) (srv : Server) (m : SignalMap)
    → is_flag flag ≡ true
    → is_hookable sig hookable_signals ≡ true
    → signal_map flag srv.signal_hooks ≡ some m
    → (after : Server) × (register_signal_hook flag sig f srv ≡ some (after, none))
      × ((g : ℤ) (s : ℕ)
          → signal_hooks g s after.signal_hooks ≡ (
              if eqb_ℤ flag g && (sig == s)
              then signal_hooks flag sig srv.signal_hooks ++ ran_hook f ∷ []
              else signal_hooks g s srv.signal_hooks))
register_signal_hook_lem flag sig f srv m h k e =
    let fs = or_nil (hooks_of sig m) in
    let n = put_hooks sig (fs ++ f ∷ []) m in
    let hooks = put_map flag n srv.signal_hooks in
    let after = record srv { signal_hooks = hooks } in
    let done : register_signal_hook flag sig f srv ≡ some (after, none) =
      unfold register_signal_hook in ground arith in
    let runs = added_runs flag sig f m srv.signal_hooks e in
    (
      after,
      done,
      λ g s. ground (
        arith,
        runs g s,
        signal_hooks-run g s hooks,
        signal_hooks-run g s srv.signal_hooks,
        signal_hooks-run flag sig srv.signal_hooks,
      ),
    )

-- For a valid flag and a signal that can be hooked, `RegisterSignalHook` of a server from
-- `NewServer` panics.
register_signal_hook_panics :
    (flag : ℤ) (sig f : ℕ) (is_child : Bool)
    → is_flag flag ≡ true
    → is_hookable sig hookable_signals ≡ true
    → register_signal_hook flag sig f (new_server is_child) ≡ none
unfolding register_signal_hook signal_map
register_signal_hook_panics flag sig f is_child h k = ground arith
