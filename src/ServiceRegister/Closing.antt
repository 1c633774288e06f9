-- ===== src/ServiceRegister/Closing.antt =====
-- Which leasers and watchers of the client are closed.
pub mod Sequences
use j7f.Base.{
  ℕ, ◌+◌, ◌<◌, ◌≡◌, ap, sym, ◌∙◌, Bool, true, false, ◌||◌, List, [], ◌∷◌, ◌++◌, Option, some, arith,
  ◌==◌, Bool-cases, Option-cases, ◌⊎◌, inl, inr, subst, ltb, append-nil, append_assoc,
}
use j7f.ServiceRegister.{
  EtcdCli, EtcdCall, new_leaser, close_leaser, new_watcher, close_watcher, grant, put_key,
  keep_alive, delete_key, Answers, Outcome, Service, asked, close_old_leaser, close_old_watcher,
  register_lease, register_watcher, register, deregister, RegisterOpts, deregister_opts,
  whole_seconds, ttl_of, new_etcd,
}

-- What a call closes.
abbrev pub closes_leaser : ℕ → EtcdCall → Bool
closes_leaser n (close_leaser m) = m == n
closes_leaser n (new_leaser m) = false
closes_leaser n (new_watcher m) = false
closes_leaser n (close_watcher m) = false
closes_leaser n (grant m c s) = false
closes_leaser n (put_key c k v i) = false
closes_leaser n (keep_alive m c i) = false
closes_leaser n (delete_key c k) = false

abbrev pub closes_watcher : ℕ → EtcdCall → Bool
closes_watcher n (close_watcher m) = m == n
closes_watcher n (new_leaser m) = false
closes_watcher n (new_watcher m) = false
closes_watcher n (close_leaser m) = false
closes_watcher n (grant m c s) = false
closes_watcher n (put_key c k v i) = false
closes_watcher n (keep_alive m c i) = false
closes_watcher n (delete_key c k) = false

pub some_call : (EtcdCall → Bool) → List EtcdCall → Bool
some_call is [] = false
some_call is (c ∷ cs) = is c || some_call is cs

pub some_call-append :
    (is : EtcdCall → Bool) (cs ds : List EtcdCall)
    → some_call is (cs ++ ds) ≡ (some_call is cs || some_call is ds)
unfolding some_call
some_call-append is [] ds = ground arith
some_call-append is (c ∷ cs) ds = ground (arith, some_call-append is cs ds)

-- A thing that the client keeps, by the number of those made: it stays, or a new one is made and the
-- calls close the old one.
abbrev pub Moves : (ℕ → EtcdCall → Bool) → Option ℕ → ℕ → Option ℕ → ℕ → List EtcdCall → Type 0
Moves closes old before new after cs =
    ((new ≡ old) × (after ≡ before))
    ⊎ ((new ≡ some before)
        × (after ≡ before + 1)
        × ((k : ℕ) → old ≡ some k → some_call (closes k) cs ≡ true))

abbrev pub LeaserMoves : EtcdCli → Outcome → Type 0
LeaserMoves e out =
    Moves closes_leaser e.leaser e.leasers_made out.cli.leaser out.cli.leasers_made out.made

abbrev pub WatcherMoves : EtcdCli → Outcome → Type 0
WatcherMoves e out =
    Moves closes_watcher e.watcher e.watchers_made out.cli.watcher out.cli.watchers_made out.made

pub grown :
    (is : EtcdCall → Bool) (cs ds : List EtcdCall)
    → some_call is cs ≡ true
    → some_call is (cs ++ ds) ≡ true
grown is cs ds h = ground (arith, some_call-append is cs ds)

-- The last stage adds to the calls and keeps what it is given.
abbrev Keeps : EtcdCli → List EtcdCall → Outcome → Type 0
Keeps e made out =
    ((out.cli.leaser ≡ e.leaser) × (out.cli.leasers_made ≡ e.leasers_made))
    × ((out.cli.watcher ≡ e.watcher) × (out.cli.watchers_made ≡ e.watchers_made))
    × ((is : EtcdCall → Bool) → some_call is made ≡ true → some_call is out.made ≡ true)

register_lease-Keeps :
    (a : Answers) (ctx : ℕ) (s : Service) (e : EtcdCli) (n : ℕ) (made : List EtcdCall)
    → Keeps e made (register_lease a ctx s e n made)
register_lease-Keeps a ctx s e n made =
    let granting = grant n (some ctx) (whole_seconds (ttl_of s).ttl) ∷ [] in
    let putting = put_key (some ctx) s.key s.value a.granted ∷ [] in
    let keeping = keep_alive n (some ctx) a.granted ∷ [] in
    elim (Option-cases a.grant_error) [
      | inr (err, g) ↦
          unfold register_lease in
          (
            (ground arith, ground arith),
            (ground arith, ground arith),
            λ is h. ground (arith, grown is made granting h),
          )
      | inl g ↦ elim (Option-cases a.put_error) [
        | inr (err, p) ↦
            unfold register_lease in
            (
              (ground arith, ground arith),
              (ground arith, ground arith),
              λ is h. ground (arith, grown is _ putting (grown is made granting h)),
            )
        | inl p ↦
            unfold register_lease in
            (
              (ground arith, ground arith),
              (ground arith, ground arith),
              λ is h.
                  ground
                    (arith, grown is _ keeping (grown is _ putting (grown is made granting h))),
            )
      ]
    ]

pub closes_old_watcher :
    (e : EtcdCli) (k : ℕ)
    → e.watcher ≡ some k
    → some_call (closes_watcher k) (close_old_watcher e) ≡ true
unfolding some_call
closes_old_watcher e k h = ground arith

pub closes_old_leaser :
    (e : EtcdCli) (k : ℕ)
    → e.leaser ≡ some k
    → some_call (closes_leaser k) (close_old_leaser e) ≡ true
unfolding some_call
closes_old_leaser e k h = ground arith

-- From the new watcher on, the leaser stays and the old watcher is closed.
register_watcher-Moves :
    (a : Answers) (ctx : ℕ) (s : Service) (e : EtcdCli) (n : ℕ) (made : List EtcdCall)
    → let out = register_watcher a ctx s e n made in
      WatcherMoves e out
      × ((out.cli.leaser ≡ e.leaser) × (out.cli.leasers_made ≡ e.leasers_made))
      × ((is : EtcdCall → Bool) → some_call is made ≡ true → some_call is out.made ≡ true)
register_watcher-Moves a ctx s e n made =
    let w = e.watchers_made in
    let closing = made ++ close_old_watcher e in
    let on = record e { watcher = some w; watchers_made = w + 1 } in
    let all = closing ++ new_watcher w ∷ [] in
    let (l, m, k) = register_lease-Keeps a ctx s on n all in
    elim (Option-cases (asked e.watcher a.watcher_close)) [
      | inr (err, g) ↦
          unfold register_watcher in
          (
            inl (ground arith, ground arith),
            (ground arith, ground arith),
            λ is h. ground (arith, grown is made (close_old_watcher e) h),
          )
      | inl g ↦
          let next : register_watcher a ctx s e n made ≡ register_lease a ctx s on n all =
            unfold register_watcher in ground arith in
          let closes : (j : ℕ) → e.watcher ≡ some j → some_call (closes_watcher j) all ≡ true =
            λ j h. ground (
              arith,
              closes_old_watcher e j h,
              some_call-append (closes_watcher j) closing (new_watcher w ∷ []),
              some_call-append (closes_watcher j) made (close_old_watcher e),
            ) in
          (
            inr (
              ap (λ o. o.cli.watcher) next ∙ m.0,
              ap (λ o. o.cli.watchers_made) next ∙ m.1,
              λ j h.
                  ap (λ o. some_call (closes_watcher j) o.made) next
                  ∙ k (closes_watcher j) (closes j h),
            ),
            (ap (λ o. o.cli.leaser) next ∙ l.0, ap (λ o. o.cli.leasers_made) next ∙ l.1),
            λ is h.
                ap (λ o. some_call is o.made) next
                ∙ k is
                    (grown is closing (new_watcher w ∷ []) (grown is made (close_old_watcher e) h)),
          )
    ]

pub register-Moves :
    (a : Answers) (ctx : ℕ) (s : Service) (e : EtcdCli)
    → LeaserMoves e (register a ctx s e) × WatcherMoves e (register a ctx s e)
register-Moves a ctx s e =
    let n = e.leasers_made in
    let on = record e { leaser = some n; leasers_made = n + 1 } in
    let all = close_old_leaser e ++ new_leaser n ∷ [] in
    let (w, l, k) = register_watcher-Moves a ctx s on n all in
    elim (Option-cases (asked e.leaser a.leaser_close)) [
      | inr (err, g) ↦
          unfold register in (inl (ground arith, ground arith), inl (ground arith, ground arith))
      | inl g ↦
          let next : register a ctx s e ≡ register_watcher a ctx s on n all =
            unfold register in ground arith in
          let closes : (j : ℕ) → e.leaser ≡ some j → some_call (closes_leaser j) all ≡ true = λ j h.
            grown (closes_leaser j) (close_old_leaser e) (new_leaser n ∷ [])
              (closes_old_leaser e j h) in
          (
            inr (
              ap (λ o. o.cli.leaser) next ∙ l.0,
              ap (λ o. o.cli.leasers_made) next ∙ l.1,
              λ j h.
                  ap (λ o. some_call (closes_leaser j) o.made) next
                  ∙ k (closes_leaser j) (closes j h),
            ),
            subst (WatcherMoves e) (sym next) w,
          )
    ]
