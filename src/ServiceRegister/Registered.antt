-- ===== src/ServiceRegister/Registered.antt =====
-- What a registration asks of etcd, up to its first error, and what the client keeps of it.
use j7f.Base.{
  ℕ, ◌+◌, ◌≡◌, refl, sym, ap, ◌∙◌, List, [], ◌∷◌, ◌++◌, Option, none, some, Text, arith,
  append_assoc, append-nil, Option-cases, inl, inr, subst,
}
use j7f.Base.Int.{ℤ, pos}
use j7f.ServiceRegister.{
  EtcdCli, EtcdCall, new_leaser, close_leaser, new_watcher, close_watcher, grant, put_key,
  keep_alive, delete_key, Answers, Outcome, Service, whole_seconds, ttl_of, with_ttl, default_ttl,
  register_lease, register_watcher, register,
}

abbrev pub Attempt : Type 0
Attempt = EtcdCall × Option Text

-- A service without times lives for ten seconds.
abbrev pub lives : Service → ℤ
lives s = elim s.ttl [ none ↦ pos 10 | some t ↦ whole_seconds t.ttl ]

abbrev pub timed : Service → Service
timed s = elim s.ttl [
  | none ↦ record s { ttl = some (record { heartbeat = pos 3000000000; ttl = pos 10000000000 }) }
  | some t ↦ s
]

abbrev pub lease_attempts : Answers → ℕ → Service → ℕ → List Attempt
lease_attempts a ctx s n =
    (grant n (some ctx) (lives s), a.grant_error)
    ∷ (put_key (some ctx) s.key s.value a.granted, a.put_error)
    ∷ (keep_alive n (some ctx) a.granted, a.keep_alive_error)
    ∷ []

abbrev pub watcher_attempts : Answers → ℕ → Service → Option ℕ → ℕ → ℕ → List Attempt
watcher_attempts a ctx s none w n = (new_watcher w, none) ∷ lease_attempts a ctx s n
watcher_attempts a ctx s (some old) w n =
    (close_watcher old, a.watcher_close) ∷ (new_watcher w, none) ∷ lease_attempts a ctx s n

-- The calls that are to be made, each with the error that etcd answers; a call that makes something
-- has none.
abbrev pub attempts : Answers → ℕ → Service → Option ℕ → Option ℕ → ℕ → ℕ → List Attempt
attempts a ctx s none watcher w n = (new_leaser n, none) ∷ watcher_attempts a ctx s watcher w n
attempts a ctx s (some old) watcher w n =
    (close_leaser old, a.leaser_close) ∷ (new_leaser n, none) ∷ watcher_attempts a ctx s watcher w n

-- The calls up to the first that fails, and its error.
abbrev pub up_to_error : List Attempt → List EtcdCall × Option Text
up_to_error [] = ([], none)
up_to_error ((c, none) ∷ rest) = (c ∷ (up_to_error rest).0, (up_to_error rest).1)
up_to_error ((c, some err) ∷ rest) = (c ∷ [], some err)

-- What the client keeps of a call that is made: the lease when the key is put, whose grant has not
-- failed, and the channel of a failed `KeepAlive` too.
abbrev pub kept : Answers → EtcdCall → EtcdCli → EtcdCli
kept a (new_leaser n) e = record e { leaser = some n; leasers_made = n + 1 }
kept a (close_leaser n) e = e
kept a (new_watcher n) e = record e { watcher = some n; watchers_made = n + 1 }
kept a (close_watcher n) e = e
kept a (grant n ctx seconds) e = record e { ctx = ctx }
kept a (put_key ctx key value lease) e = record e { lease_id = lease }
kept a (keep_alive n ctx lease) e = record e { hbch = a.channel }
kept a (delete_key ctx key) e = e

abbrev pub kept_all : Answers → List EtcdCall → EtcdCli → EtcdCli
kept_all a [] e = e
kept_all a (c ∷ cs) e = kept_all a cs (kept a c e)

-- The service gets its times before the grant.
abbrev pub service_after : List EtcdCall → Service → Service
service_after [] s = s
service_after (grant n ctx seconds ∷ cs) s = timed s
service_after (new_leaser n ∷ cs) s = service_after cs s
service_after (close_leaser n ∷ cs) s = service_after cs s
service_after (new_watcher n ∷ cs) s = service_after cs s
service_after (close_watcher n ∷ cs) s = service_after cs s
service_after (put_key ctx key value lease ∷ cs) s = service_after cs s
service_after (keep_alive n ctx lease ∷ cs) s = service_after cs s
service_after (delete_key ctx key ∷ cs) s = service_after cs s

-- The rest of a registration, behind the calls `made`.
abbrev Follows : Answers → Service → List EtcdCall → List Attempt → EtcdCli → Outcome → Type 0
Follows a s made rest e out =
    let (cs, err) = up_to_error rest in
    (out.made ≡ made ++ cs)
    × (out.error ≡ err)
    × (out.cli ≡ kept_all a cs e)
    × (out.service ≡ service_after cs s)

lives_lem : (s : Service) → whole_seconds (ttl_of s).ttl ≡ lives s
unfolding default_ttl
lives_lem s = elim (Option-cases s.ttl) [ inl e ↦ rw e refl | inr (t, e) ↦ rw e refl ]

timed_lem : (s : Service) → with_ttl s ≡ timed s
unfolding default_ttl
timed_lem s = elim (Option-cases s.ttl) [ inl e ↦ rw e refl | inr (t, e) ↦ rw e refl ]

two_more : (cs : List EtcdCall) (x y : EtcdCall) → (cs ++ x ∷ []) ++ y ∷ [] ≡ cs ++ x ∷ y ∷ []
two_more cs x y = append_assoc cs (x ∷ []) (y ∷ [])

three_more :
    (cs : List EtcdCall) (x y z : EtcdCall)
    → ((cs ++ x ∷ []) ++ y ∷ []) ++ z ∷ [] ≡ cs ++ x ∷ y ∷ z ∷ []
three_more cs x y z =
    ap (λ ds. ds ++ z ∷ []) (two_more cs x y) ∙ append_assoc cs (x ∷ y ∷ []) (z ∷ [])

-- A call whose answer is no error, with the rest behind it.
Follows-cons :
    (a : Answers) (s : Service) (made : List EtcdCall) (c : EtcdCall) (answer : Option Text)
    (rest : List Attempt) (e : EtcdCli) (out : Outcome)
    → answer ≡ none
    → ((cs : List EtcdCall) → service_after (c ∷ cs) s ≡ service_after cs s)
    → Follows a s (made ++ c ∷ []) rest (kept a c e) out
    → Follows a s made ((c, answer) ∷ rest) e out
Follows-cons a s made c (some err) rest e out f same follows = absurd cc
Follows-cons a s made c none rest e out f same (calls, error, cli, service) = (
  calls ∙ append_assoc made (c ∷ []) (up_to_error rest).0,
  error,
  cli,
  service ∙ sym (same (up_to_error rest).0),
)

module _ (a : Answers) (ctx : ℕ) (s : Service) where
  lease-Follows :
      (e : EtcdCli) (n : ℕ) (made : List EtcdCall)
      → Follows a s made (lease_attempts a ctx s n) e (register_lease a ctx s e n made)
  lease-Follows e n made =
      let granting = grant n (some ctx) (whole_seconds (ttl_of s).ttl) in
      let putting = put_key (some ctx) s.key s.value a.granted in
      let keeping = keep_alive n (some ctx) a.granted in
      let lives_for = lives_lem s in
      let times = timed_lem s in
      elim (Option-cases a.grant_error) [
        | inr (err, g) ↦
            unfold register_lease in (ground arith, ground arith, ground arith, ground arith)
        | inl g ↦ elim (Option-cases a.put_error) [
          | inr (err, p) ↦
              unfold register_lease in
              (
                ground (arith, two_more made granting putting),
                ground arith,
                ground arith,
                ground arith,
              )
          | inl p ↦ elim (Option-cases a.keep_alive_error) [
            | inr (err, k) ↦
                unfold register_lease in
                (
                  ground (arith, three_more made granting putting keeping),
                  ground arith,
                  ground arith,
                  ground arith,
                )
            | inl k ↦
                unfold register_lease in
                (
                  ground (arith, three_more made granting putting keeping),
                  ground arith,
                  ground arith,
                  ground arith,
                )
          ]
        ]
      ]

  watcher-Follows :
      (o : Option ℕ) (e : EtcdCli) (n : ℕ) (made : List EtcdCall)
      → e.watcher ≡ o
      → Follows a s made
          (watcher_attempts a ctx s o e.watchers_made n)
          e
          (register_watcher a ctx s e n made)
  watcher-Follows none e n made h =
      let on = record e { watcher = some e.watchers_made; watchers_made = e.watchers_made + 1 } in
      let c = new_watcher e.watchers_made in
      let is : register_watcher a ctx s e n made ≡ register_lease a ctx s on n (made ++ c ∷ []) =
        unfold register_watcher in ground (arith, append-nil made) in
      subst (Follows a s made ((c, none) ∷ lease_attempts a ctx s n) e) (sym is) (
        Follows-cons a s made c none (lease_attempts a ctx s n) e _ refl (λ cs. refl)
          (lease-Follows on n (made ++ c ∷ [])))
  watcher-Follows (some w) e n made h = elim (Option-cases a.watcher_close) [
    | inr (err, f) ↦
        let is : register_watcher a ctx s e n made ≡ record {
          cli = e;
          service = s;
          made = made ++ close_watcher w ∷ [];
          error = some err;
        } =
          unfold register_watcher in ground arith in
        subst (Follows a s made (watcher_attempts a ctx s (some w) e.watchers_made n) e) (sym is)
          (rw f (refl, refl, refl, refl))
    | inl f ↦
        let on = record e { watcher = some e.watchers_made; watchers_made = e.watchers_made + 1 } in
        let c = new_watcher e.watchers_made in
        let closing = made ++ close_watcher w ∷ [] in
        let rest = lease_attempts a ctx s n in
        let is : register_watcher a ctx s e n made
            ≡ register_lease a ctx s on n (closing ++ c ∷ []) =
          unfold register_watcher in ground arith in
        subst (Follows a s made (watcher_attempts a ctx s (some w) e.watchers_made n) e) (sym is) (
          Follows-cons a s made (close_watcher w) a.watcher_close ((c, none) ∷ rest) e _ f
            (λ cs. refl)
            (Follows-cons a s closing c none rest e _ refl (λ cs. refl)
              (lease-Follows on n (closing ++ c ∷ []))))
  ]

  leaser-Follows :
      (o : Option ℕ) (e : EtcdCli)
      → e.leaser ≡ o
      → Follows a s []
          (attempts a ctx s o e.watcher e.watchers_made e.leasers_made)
          e
          (register a ctx s e)
  leaser-Follows none e h =
      let on = record e { leaser = some e.leasers_made; leasers_made = e.leasers_made + 1 } in
      let n = e.leasers_made in
      let rest = watcher_attempts a ctx s e.watcher e.watchers_made n in
      let is : register a ctx s e ≡ register_watcher a ctx s on n (new_leaser n ∷ []) =
        unfold register in ground arith in
      subst (Follows a s [] ((new_leaser n, none) ∷ rest) e) (sym is) (
        Follows-cons a s [] (new_leaser n) none rest e _ refl (λ cs. refl)
          (watcher-Follows e.watcher on n (new_leaser n ∷ []) refl))
  leaser-Follows (some l) e h = elim (Option-cases a.leaser_close) [
    | inr (err, f) ↦
        let is : register a ctx s e
            ≡ record { cli = e; service = s; made = close_leaser l ∷ []; error = some err } =
          unfold register in ground arith in
        subst
          (Follows a s [] (attempts a ctx s (some l) e.watcher e.watchers_made e.leasers_made) e)
          (sym is) (rw f (refl, refl, refl, refl))
    | inl f ↦
        let on = record e { leaser = some e.leasers_made; leasers_made = e.leasers_made + 1 } in
        let n = e.leasers_made in
        let closing = close_leaser l ∷ [] in
        let rest = watcher_attempts a ctx s e.watcher e.watchers_made n in
        let is : register a ctx s e ≡ register_watcher a ctx s on n (closing ++ new_leaser n ∷ []) =
          unfold register in ground arith in
        subst
          (Follows a s [] (attempts a ctx s (some l) e.watcher e.watchers_made e.leasers_made) e)
          (sym is)
          (Follows-cons a s [] (close_leaser l) a.leaser_close ((new_leaser n, none) ∷ rest) e _ f
            (λ cs. refl)
            (Follows-cons a s closing (new_leaser n) none rest e _ refl (λ cs. refl)
              (watcher-Follows e.watcher on n (closing ++ new_leaser n ∷ []) refl)))
  ]

-- `Register` makes these calls in this order and no other: it closes the old leaser, where
-- there is one, makes a new one, closes the old watcher, where there is one, makes a new one,
-- grants the lease, puts the key and keeps the lease alive, up to the first call that fails,
-- whose error it returns. Of the calls made the client keeps the leaser, the watcher, the
-- context, the lease and the channel, and the service has its times if the lease was asked for.
pub register_lem :
    (a : Answers) (ctx : ℕ) (s : Service) (e : EtcdCli)
    → let out = register a ctx s e in
      let (cs, err) =
        up_to_error (attempts a ctx s e.leaser e.watcher e.watchers_made e.leasers_made) in
      (out.made ≡ cs)
      × (out.error ≡ err)
      × (out.cli ≡ kept_all a cs e)
      × (out.service ≡ service_after cs s)
register_lem a ctx s e = leaser-Follows a ctx s e.leaser e refl
