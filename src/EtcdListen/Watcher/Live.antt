-- ===== src/EtcdListen/Watcher/Live.antt =====
-- The goroutines of `watch` that are not cancelled, for every order of the calls.
use j7f.Base.{
  ℕ, ◌≡◌, ◌≤◌, refl, ap, sym, ◌∙◌, Bool, true, false, ◌&&◌, ◌||◌, not, List, [], ◌∷◌, ◌++◌, Option,
  none, some, Text, same_text, arith, if◌then◌else◌, ◌==◌, length, Bool-cases, Option-cases, ◌⊎◌,
  inl, inr, subst, same_text_refl, ◌≢◌, ◌+◌,
}
use j7f.Base.Maps.{Map, find, put, remove, find-put, find-remove, find_same}
use j7f.EtcdListen.Watcher.{
  EtcdWatcher, new_etcd_watcher, add_watch, remove_watch, cancels, clear_watch, close, without,
  watch_returns, Call, add_key, remove_key, clear_all, close_all, returned, call, calls,
}

abbrev pub is_in : ℕ → List ℕ → Bool
is_in c [] = false
is_in c (x ∷ xs) = (x == c) || is_in c xs

-- The contexts of the goroutines of a key that are not cancelled.
pub live : Text → List ℕ → List (Text × ℕ) → List ℕ
live key cancelled [] = []
live key cancelled ((k, c) ∷ watches) =
    let rest = live key cancelled watches in
    if same_text k key && not (is_in c cancelled) then c ∷ rest else rest

except : ℕ → List ℕ → List ℕ
except c [] = []
except c (x ∷ xs) = let rest = except c xs in if x == c then rest else x ∷ rest

live-cancel :
    (key : Text) (c : ℕ) (cs : List ℕ) (ws : List (Text × ℕ))
    → live key (c ∷ cs) ws ≡ except c (live key cs ws)
unfolding live except
live-cancel key c cs [] = refl
live-cancel key c cs ((k, d) ∷ ws) = ground (arith, live-cancel key c cs ws)

live-without :
    (key : Text) (c : ℕ) (cs : List ℕ) (ws : List (Text × ℕ))
    → live key cs (without c ws) ≡ except c (live key cs ws)
unfolding live except without
live-without key c cs [] = refl
live-without key c cs ((k, d) ∷ ws) = ground (arith, live-without key c cs ws)

live-append :
    (key k : Text) (c : ℕ) (cs : List ℕ) (ws : List (Text × ℕ))
    → live key cs (ws ++ (k, c) ∷ [])
      ≡ live key cs ws ++ (if same_text k key && not (is_in c cs) then c ∷ [] else [])
unfolding live
live-append key k c cs [] = ground arith
live-append key k c cs ((j, d) ∷ ws) = ground (arith, live-append key k c cs ws)

-- Nothing is live, or the context of the key's handler alone.
abbrev pub IsOne : Option ℕ → List ℕ → Type 0
IsOne h xs = (xs ≡ []) ⊎ ((c : ℕ) × (h ≡ some c) × (xs ≡ c ∷ []))

abbrev pub IsGuarded : EtcdWatcher → Type 0
IsGuarded mgr =
    (key : Text) → IsOne (find key mgr.close_handler) (live key mgr.cancelled mgr.watches)

except-IsOne : (h : Option ℕ) (c : ℕ) (xs : List ℕ) → IsOne h xs → IsOne h (except c xs)
unfolding except
except-IsOne h c xs (inl e) = inl (ap (except c) e)
except-IsOne h c xs (inr (d, f, e)) = elim (Bool-cases (d == c)) [
  | inl g ↦ inl (ground (arith, ap (except c) e))
  | inr g ↦ inr (d, f, ground (arith, ap (except c) e))
]

-- A watcher with a new goroutine, and one with an ended context.
abbrev added : Text → EtcdWatcher → EtcdWatcher
added k mgr = record mgr {
  close_handler = put k mgr.contexts mgr.close_handler;
  contexts = mgr.contexts + 1;
  watches = mgr.watches ++ (k, mgr.contexts) ∷ [];
}

abbrev ended : Text → ℕ → EtcdWatcher → EtcdWatcher
ended k c mgr = record mgr {
  close_handler = remove k mgr.close_handler;
  cancelled = c ∷ mgr.cancelled;
}

added-IsGuarded :
    (k : Text) (mgr : EtcdWatcher)
    → find k mgr.close_handler ≡ none
    → IsGuarded mgr
    → IsGuarded (added k mgr)
added-IsGuarded k mgr e g key =
    let ctx = mgr.contexts in
    let found = find-put key k ctx mgr.close_handler in
    let lives = live-append key k ctx mgr.cancelled mgr.watches in
    elim (Bool-cases (same_text k key)) [
      | inr s ↦ elim (g key) [
        | inl z ↦ inl (ground (arith, lives))
        | inr (c, f, z) ↦ inr (c, ground (arith, found), ground (arith, lives))
      ]
      | inl s ↦
          let none_live : live key mgr.cancelled mgr.watches ≡ [] = elim (g key) [
            | inl z ↦ z
            | inr (c, f, z) ↦ ground (arith, find_same key k mgr.close_handler s)
          ] in
          elim (Bool-cases (is_in ctx mgr.cancelled)) [
            | inl b ↦ inl (ground (arith, lives))
            | inr b ↦ inr (ctx, ground (arith, found), ground (arith, lives))
          ]
    ]

ended-IsGuarded :
    (k : Text) (c : ℕ) (mgr : EtcdWatcher)
    → find k mgr.close_handler ≡ some c
    → IsGuarded mgr
    → IsGuarded (ended k c mgr)
ended-IsGuarded k c mgr e g key =
    let found = find-remove key k mgr.close_handler in
    let lives = live-cancel key c mgr.cancelled mgr.watches in
    elim (Bool-cases (same_text k key)) [
      | inr s ↦
          subst (λ h. IsOne h (live key (c ∷ mgr.cancelled) mgr.watches))
            (sym (ground (arith, found))) (subst (IsOne _) (sym lives) (except-IsOne _ c _ (g key)))
      | inl s ↦ elim (g key) [
        | inl z ↦ inl (lives ∙ unfold except in ap (except c) z)
        | inr (d, f, z) ↦
            let same : d ≡ c = ground (arith, find_same key k mgr.close_handler s) in
            inl (lives ∙ (ap (except c) z ∙ unfold except in ground arith))
      ]
    ]

pub add-IsGuarded : (k : Text) (mgr : EtcdWatcher) → IsGuarded mgr → IsGuarded (add_watch k mgr).0
add-IsGuarded k mgr g = elim (Option-cases (find k mgr.close_handler)) [
  | inl e ↦
      let is_new : (add_watch k mgr).0 ≡ added k mgr = unfold add_watch in ground arith in
      subst IsGuarded (sym is_new) (added-IsGuarded k mgr e g)
  | inr (c, e) ↦
      let is_old : (add_watch k mgr).0 ≡ mgr = unfold add_watch in ground arith in
      subst IsGuarded (sym is_old) g
]

pub remove-IsGuarded :
    (k : Text) (mgr : EtcdWatcher) → IsGuarded mgr → IsGuarded (remove_watch k mgr).0
remove-IsGuarded k mgr g = elim (Option-cases (find k mgr.close_handler)) [
  | inl e ↦
      let is_old : (remove_watch k mgr).0 ≡ mgr = unfold remove_watch in ground arith in
      subst IsGuarded (sym is_old) g
  | inr (c, e) ↦
      let is_new : (remove_watch k mgr).0 ≡ ended k c mgr = unfold remove_watch in ground arith in
      subst IsGuarded (sym is_new) (ended-IsGuarded k c mgr e g)
]

pub returns-IsGuarded :
    (c : ℕ) (mgr : EtcdWatcher) → IsGuarded mgr → IsGuarded (watch_returns c mgr)
unfolding watch_returns
returns-IsGuarded c mgr g key =
    subst (IsOne (find key mgr.close_handler)) (sym (live-without key c mgr.cancelled mgr.watches))
      (except-IsOne _ c _ (g key))

-- The context of a handler is among the ones that end with all of them.
cancels_lem :
    (key : Text) (c : ℕ) (hs : Map ℕ) (cs : List ℕ)
    → find key hs ≡ some c
    → is_in c (cancels hs ++ cs) ≡ true
unfolding cancels find
cancels_lem key c [] cs f = cc
cancels_lem key c ((k, d) ∷ hs) cs f = elim (Bool-cases (same_text k key)) [
  | inl s ↦ ground arith
  | inr s ↦ ground (arith, cancels_lem key c hs cs)
]

is_in-append : (c : ℕ) (ds cs : List ℕ) → is_in c cs ≡ true → is_in c (ds ++ cs) ≡ true
is_in-append c [] cs h = h
is_in-append c (d ∷ ds) cs h = ground (arith, is_in-append c ds cs h)

-- What more contexts that end leave.
live-cancels :
    (key : Text) (ds cs : List ℕ) (ws : List (Text × ℕ)) (h : Option ℕ)
    → IsOne h (live key cs ws)
    → IsOne h (live key (ds ++ cs) ws)
live-cancels key [] cs ws h g = g
live-cancels key (d ∷ ds) cs ws h g =
    subst (IsOne h) (sym (live-cancel key d (ds ++ cs) ws))
      (except-IsOne h d _ (live-cancels key ds cs ws h g))

not_live :
    (key : Text) (c : ℕ) (cs : List ℕ) (ws : List (Text × ℕ))
    → is_in c cs ≡ true
    → live key cs ws ≢ c ∷ []
unfolding live
not_live key c cs [] h e = cc
not_live key c cs ((k, d) ∷ ws) h e = elim (Bool-cases (same_text k key && not (is_in d cs))) [
  | inl b ↦ ground arith
  | inr b ↦ not_live key c cs ws h (ground arith)
]

clear_watch-live :
    (mgr : EtcdWatcher) (key : Text)
    → IsGuarded mgr
    → live key (clear_watch mgr).cancelled (clear_watch mgr).watches ≡ []
unfolding clear_watch
clear_watch-live mgr key g = elim (live-cancels key (cancels mgr.close_handler) _ _ _ (g key)) [
  | inl z ↦ z
  | inr (c, f, z) ↦
      absurd (not_live key c _ _ (cancels_lem key c mgr.close_handler mgr.cancelled f) z)
]

call-IsGuarded : (c : Call) (mgr : EtcdWatcher) → IsGuarded mgr → IsGuarded (call c mgr)
unfolding call close
call-IsGuarded (add_key key) mgr g = add-IsGuarded key mgr g
call-IsGuarded (remove_key key) mgr g = remove-IsGuarded key mgr g
call-IsGuarded clear_all mgr g = λ key. inl (clear_watch-live mgr key g)
call-IsGuarded (close_all true) mgr g = λ key. inl (unfold live in refl)
call-IsGuarded (close_all false) mgr g = λ key. inl (clear_watch-live mgr key g)
call-IsGuarded (returned ctx) mgr g = returns-IsGuarded ctx mgr g

pub new_etcd_watcher-IsGuarded : IsGuarded new_etcd_watcher
unfolding live
new_etcd_watcher-IsGuarded key = inl refl

calls-IsGuarded : (cs : List Call) (mgr : EtcdWatcher) → IsGuarded mgr → IsGuarded (calls cs mgr)
unfolding calls
calls-IsGuarded [] mgr g = g
calls-IsGuarded (c ∷ cs) mgr g = calls-IsGuarded cs (call c mgr) (call-IsGuarded c mgr g)

-- For every order of the calls of the watcher and the ends of its goroutines: of a key at most
-- one goroutine is not cancelled, and none after `ClearWatch`.
pub at_most_one :
    (cs : List Call) (key : Text)
    → (length (live key (calls cs new_etcd_watcher).cancelled (calls cs new_etcd_watcher).watches)
        ≤ 1)
      × (live key
            (clear_watch (calls cs new_etcd_watcher)).cancelled
            (clear_watch (calls cs new_etcd_watcher)).watches
          ≡ [])
at_most_one cs key =
    let g = calls-IsGuarded cs new_etcd_watcher new_etcd_watcher-IsGuarded in
    let mgr = calls cs new_etcd_watcher in
    let one : length (live key mgr.cancelled mgr.watches) ≤ 1 = elim (g key) [
      | inl z ↦ ground (arith, ap length z)
      | inr (c, f, z) ↦ ground (arith, ap length z)
    ] in
    (one, clear_watch-live mgr key g)

-- Where the watch under a key's handler returns, after any calls: no goroutine of the key is
-- live, `AddWatch` for the key is refused and changes nothing, and after `RemoveWatch` it is
-- accepted.
pub failed_watch :
    (key : Text) (ctx : ℕ) (cs : List Call)
    → find key (calls cs new_etcd_watcher).close_handler ≡ some ctx
    → let after = watch_returns ctx (calls cs new_etcd_watcher) in
      (live key after.cancelled after.watches ≡ [])
      × (add_watch key after ≡ (after, false))
      × ((add_watch key (remove_watch key after).0).1 ≡ true)
failed_watch key ctx cs f =
    let mgr = calls cs new_etcd_watcher in
    let after = watch_returns ctx mgr in
    let g = calls-IsGuarded cs new_etcd_watcher new_etcd_watcher-IsGuarded in
    let kept : find key after.close_handler ≡ some ctx = unfold watch_returns in f in
    let lives : live key after.cancelled after.watches
        ≡ except ctx (live key mgr.cancelled mgr.watches) =
      unfold watch_returns in live-without key ctx mgr.cancelled mgr.watches in
    let none_live : live key after.cancelled after.watches ≡ [] = elim (g key) [
      | inl z ↦ lives ∙ unfold except in ap (except ctx) z
      | inr (c, e, z) ↦ lives ∙ (ap (except ctx) z ∙ unfold except in ground arith)
    ] in
    let refused : add_watch key after ≡ (after, false) = unfold add_watch in ground arith in
    let removed : (remove_watch key after).0 ≡ ended key ctx after =
      unfold remove_watch in ground arith in
    let gone = find-remove key key after.close_handler in
    let anew : (add_watch key (ended key ctx after)).1 ≡ true =
      unfold add_watch in ground (arith, gone, same_text_refl key) in
    (none_live, refused, ap (λ w. (add_watch key w).1) removed ∙ anew)
