-- ===== src/ServiceRegister/Closing/Sequences.antt =====
-- Registrations one after the other, and the deregistration behind them.
use j7f.Base.{
  refl, ℕ, ◌<◌, ◌≡◌, ap, sym, ◌∙◌, Bool, true, ◌||◌, List, [], ◌∷◌, ◌++◌, Option, some, arith,
  Bool-cases, ◌⊎◌, inl, inr, subst, ltb, append-nil, append_assoc,
}
use j7f.ServiceRegister.{
  Registration, registrations, EtcdCli, EtcdCall, Answers, Service, close_old_leaser,
  close_old_watcher, register, deregister, RegisterOpts, deregister_opts, new_etcd,
}
use j7f.ServiceRegister.Closing.{
  closes_leaser, closes_watcher, some_call, some_call-append, Moves, grown, register-Moves,
  closes_old_watcher, closes_old_leaser,
}

-- All that were made are closed, but the one that is kept.
abbrev IsClosedBut : (ℕ → EtcdCall → Bool) → Option ℕ → ℕ → List EtcdCall → Type 0
IsClosedBut closes kept made cs =
    (k : ℕ) → k < made → (some_call (closes k) cs ≡ true) ⊎ (kept ≡ some k)

moved-IsClosedBut :
    (closes : ℕ → EtcdCall → Bool) (old : Option ℕ) (before : ℕ) (new : Option ℕ) (after : ℕ)
    (cs ds : List EtcdCall)
    → Moves closes old before new after ds
    → IsClosedBut closes old before cs
    → IsClosedBut closes new after (cs ++ ds)
moved-IsClosedBut closes old before new after cs ds (inl (n, a)) c k l = elim (c k (ground arith)) [
  | inl h ↦ inl (grown (closes k) cs ds h)
  | inr h ↦ inr (n ∙ h)
]
moved-IsClosedBut closes old before new after cs ds (inr (n, a, d)) c k l =
    elim (Bool-cases (ltb k before)) [
      | inr f ↦ inr (n ∙ ap some (ground arith))
      | inl f ↦
          let all = some_call-append (closes k) cs ds in
          elim (c k (ground arith)) [
            | inl h ↦ inl (ground (arith, all))
            | inr h ↦ inl (ground (arith, all, d k h))
          ]
    ]

abbrev IsClean : EtcdCli → List EtcdCall → Type 0
IsClean e cs =
    IsClosedBut closes_leaser e.leaser e.leasers_made cs
    × IsClosedBut closes_watcher e.watcher e.watchers_made cs

registrations-IsClean :
    (rs : List Registration) (e : EtcdCli) (cs : List EtcdCall)
    → IsClean e cs
    → IsClean (registrations rs e).0 (cs ++ (registrations rs e).1)
unfolding registrations
registrations-IsClean [] e cs h = subst (IsClean e) (sym (append-nil cs)) h
registrations-IsClean ((a, ctx, s) ∷ rs) e cs (l, w) =
    let out = register a ctx s e in
    let (lm, wm) = register-Moves a ctx s e in
    let next : IsClean out.cli (cs ++ out.made) = (
      moved-IsClosedBut closes_leaser e.leaser e.leasers_made _ _ cs out.made lm l,
      moved-IsClosedBut closes_watcher e.watcher e.watchers_made _ _ cs out.made wm w,
    ) in
    subst (IsClean (registrations rs out.cli).0)
      (append_assoc cs out.made (registrations rs out.cli).1)
      (registrations-IsClean rs out.cli (cs ++ out.made) next)

deregister-closes :
    (a : Answers) (s : Service) (e : EtcdCli) (is : EtcdCall → Bool)
    → (some_call is (close_old_leaser e) || some_call is (close_old_watcher e)) ≡ true
    → some_call is (deregister a s e).made ≡ true
unfolding deregister some_call
deregister-closes a s e is h =
    ground (arith, some_call-append is (close_old_leaser e) (close_old_watcher e))

-- After any registrations one after the other from a new client, with whatever answers of etcd,
-- and a `DeRegister`: every leaser and every watcher that was ever made has been closed.
pub deregister_lem :
    (rs : List Registration) (a : Answers) (s : Service)
    → let (e, cs) = registrations rs new_etcd in
      let all = cs ++ (deregister a s e).made in
      ((k : ℕ) → k < e.leasers_made → some_call (closes_leaser k) all ≡ true)
      × ((k : ℕ) → k < e.watchers_made → some_call (closes_watcher k) all ≡ true)
deregister_lem rs a s =
    let (e, cs) = registrations rs new_etcd in
    let (l, w) =
      registrations-IsClean rs new_etcd []
        ((λ k h. absurd (omega arith)), (λ k h. absurd (omega arith))) in
    let out = deregister a s e in
    let kept : (closes : ℕ → EtcdCall → Bool) (old : Option ℕ) (k : ℕ)
        → (old ≡ some k → some_call (closes k) out.made ≡ true)
        → (some_call (closes k) cs ≡ true) ⊎ (old ≡ some k)
        → some_call (closes k) (cs ++ out.made) ≡ true =
      λ closes old k f c.
        let all = some_call-append (closes k) cs out.made in
        elim c [ inl h ↦ ground (arith, all) | inr h ↦ ground (arith, all, f h) ] in
    (
      λ k h.
          kept closes_leaser e.leaser k
            (λ g.
              deregister-closes a s e (closes_leaser k) (ground (arith, closes_old_leaser e k g)))
            (l k h),
      λ k h.
          kept closes_watcher e.watcher k
            (λ g.
              deregister-closes a s e (closes_watcher k) (ground (arith, closes_old_watcher e k g)))
            (w k h),
    )

pub deregister_opts_lem :
    (a : Answers) (r : RegisterOpts)
    → deregister_opts a r ≡ deregister a r.register_data r.register_func
unfolding deregister_opts
deregister_opts_lem a r = refl
