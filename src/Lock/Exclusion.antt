-- ===== src/Lock/Exclusion.antt =====
-- The goroutines between `sl.Lock` and `sl.Unlock`, for every order of their moves.
use j7f.Base.{
  ℕ, zero, suc, ◌+◌, ◌≤◌, ◌≡◌, refl, ap, sym, Bool, true, false, List, [], ◌∷◌, ◌++◌, All, Option,
  none, some, arith, get_elem?, set, Bool-cases, Option-cases, inl, inr, subst,
}
use j7f.Lock.{
  RedisLock, Pc, outside, waiting, entered, selecting, failing, clearing, holding, unlocking,
  storing, releasing, Move, go, redis_ok, redis_err, time_out, go_at, is_selecting, select_at,
  move_at, move, moves, new_lock,
}

abbrev pub one : Bool → ℕ
one true = 1
one false = 0

-- Whether a goroutine is between the two calls.
abbrev pub is_inside : Pc → Bool
is_inside entered = true
is_inside selecting = true
is_inside failing = true
is_inside holding = true
is_inside unlocking = true
is_inside outside = false
is_inside waiting = false
is_inside clearing = false
is_inside storing = false
is_inside releasing = false

abbrev inside_of : Option Pc → ℕ
inside_of none = 0
inside_of (some pc) = one (is_inside pc)

pub inside : List Pc → ℕ
inside [] = 0
inside (pc ∷ pcs) = one (is_inside pc) + inside pcs

inside-set :
    (pcs : List Pc) (i : ℕ) (pc next : Pc)
    → get_elem? pcs i ≡ some pc
    → inside (set pcs i next) + one (is_inside pc) ≡ inside pcs + one (is_inside next)
unfolding inside
inside-set [] i pc next h = cc
inside-set (p ∷ pcs) zero pc next h = ground (arith, ap inside_of h)
inside-set (p ∷ pcs) (suc i) pc next h = ground (arith, inside-set pcs i pc next h)

-- The mutex is locked for one goroutine inside, or for a lock that nobody will unlock.
abbrev IsOwned : RedisLock → Type 0
IsOwned r = inside r.pcs + r.unheld ≡ one r.locked

go_at-IsOwned :
    (i : ℕ) (pc : Pc) (r : RedisLock)
    → get_elem? r.pcs i ≡ some pc
    → IsOwned r
    → IsOwned (go_at i pc r)
unfolding go_at
go_at-IsOwned i outside r h o = ground (arith, inside-set r.pcs i outside waiting h)
go_at-IsOwned i waiting r h o = ground (arith, inside-set r.pcs i waiting entered h)
go_at-IsOwned i entered r h o = ground (arith, inside-set r.pcs i entered selecting h)
go_at-IsOwned i selecting r h o = o
go_at-IsOwned i failing r h o = ground (arith, inside-set r.pcs i failing clearing h)
go_at-IsOwned i clearing r h o = ground (arith, inside-set r.pcs i clearing outside h)
go_at-IsOwned i holding r h o =
    ground (arith, inside-set r.pcs i holding unlocking h, inside-set r.pcs i holding outside h)
go_at-IsOwned i unlocking r h o = ground (arith, inside-set r.pcs i unlocking storing h)
go_at-IsOwned i storing r h o = ground (arith, inside-set r.pcs i storing releasing h)
go_at-IsOwned i releasing r h o = ground (arith, inside-set r.pcs i releasing outside h)

is_selecting_lem : (pc : Pc) → is_selecting pc ≡ true → is_inside pc ≡ true
is_selecting_lem selecting h = refl
is_selecting_lem outside h = cc
is_selecting_lem waiting h = cc
is_selecting_lem entered h = cc
is_selecting_lem failing h = cc
is_selecting_lem clearing h = cc
is_selecting_lem holding h = cc
is_selecting_lem unlocking h = cc
is_selecting_lem storing h = cc
is_selecting_lem releasing h = cc

select_at-IsOwned :
    (next : Pc) (i : ℕ) (pc : Pc) (r : RedisLock)
    → is_inside next ≡ true
    → get_elem? r.pcs i ≡ some pc
    → IsOwned r
    → IsOwned (select_at next i pc r)
unfolding select_at
select_at-IsOwned next i pc r n h o = elim (Bool-cases (is_selecting pc)) [
  | inl s ↦ ground (arith, inside-set r.pcs i pc next h, is_selecting_lem pc s)
  | inr s ↦ ground arith
]

move_at-IsOwned :
    (m : Move) (i : ℕ) (pc : Pc) (r : RedisLock)
    → get_elem? r.pcs i ≡ some pc
    → IsOwned r
    → IsOwned (move_at m i pc r)
unfolding move_at
move_at-IsOwned go i pc r e o = go_at-IsOwned i pc r e o
move_at-IsOwned redis_ok i pc r e o = select_at-IsOwned holding i pc r refl e o
move_at-IsOwned redis_err i pc r e o = select_at-IsOwned failing i pc r refl e o
move_at-IsOwned time_out i pc r e o = select_at-IsOwned failing i pc r refl e o

go_at-unheld : (i : ℕ) (pc : Pc) (r : RedisLock) → r.unheld ≤ (go_at i pc r).unheld
unfolding go_at
go_at-unheld i outside r = omega arith
go_at-unheld i waiting r = ground arith
go_at-unheld i entered r = omega arith
go_at-unheld i selecting r = omega arith
go_at-unheld i failing r = omega arith
go_at-unheld i clearing r = omega arith
go_at-unheld i holding r = ground arith
go_at-unheld i unlocking r = omega arith
go_at-unheld i storing r = omega arith
go_at-unheld i releasing r = omega arith

move_at-unheld : (m : Move) (i : ℕ) (pc : Pc) (r : RedisLock) → r.unheld ≤ (move_at m i pc r).unheld
unfolding move_at select_at
move_at-unheld go i pc r = go_at-unheld i pc r
move_at-unheld redis_ok i pc r = ground arith
move_at-unheld redis_err i pc r = ground arith
move_at-unheld time_out i pc r = ground arith

move-IsOwned :
    (m : Move) (i : ℕ) (r : RedisLock)
    → IsOwned r
    → IsOwned (move m i r) × (r.unheld ≤ (move m i r).unheld)
move-IsOwned m i r o = elim (Option-cases (get_elem? r.pcs i)) [
  | inl e ↦
      let same : move m i r ≡ r = unfold move in ground arith in
      (subst IsOwned (sym same) o, ground (arith, same))
  | inr (pc, e) ↦
      let next : move m i r ≡ move_at m i pc r = unfold move in ground arith in
      (
        subst IsOwned (sym next) (move_at-IsOwned m i pc r e o),
        ground (arith, next, move_at-unheld m i pc r),
      )
]

moves-IsOwned :
    (ms : List (Move × ℕ)) (r : RedisLock)
    → IsOwned r
    → IsOwned (moves ms r) × (r.unheld ≤ (moves ms r).unheld)
unfolding moves
moves-IsOwned [] r o = (o, ground arith)
moves-IsOwned ((m, i) ∷ ms) r o =
    let (p, l) = move-IsOwned m i r o in
    let (q, k) = moves-IsOwned ms (move m i r) p in (q, omega (arith, l, k))

new_lock-IsOwned : (pcs : List Pc) → All (λ pc. pc ≡ outside) pcs → IsOwned (new_lock pcs)
unfolding new_lock inside
new_lock-IsOwned [] h = refl
new_lock-IsOwned (pc ∷ pcs) (h, hs) =
    ground (arith, ap (λ q. one (is_inside q)) h, new_lock-IsOwned pcs hs)

-- For any number of goroutines and every order of their moves: those between `sl.Lock` and
-- `sl.Unlock` are at most one, none where the mutex is free, and together with the calls of
-- `Unlock` that left it locked exactly one where it is locked.
pub mutual_exclusion :
    (pcs : List Pc) (ms : List (Move × ℕ))
    → All (λ pc. pc ≡ outside) pcs
    → let r = moves ms (new_lock pcs) in
      (inside r.pcs ≤ one r.locked) × (inside r.pcs + r.unheld ≡ one r.locked)
mutual_exclusion pcs ms h =
    let (o, l) = moves-IsOwned ms (new_lock pcs) (new_lock-IsOwned pcs h) in (omega (arith, o), o)

-- Once a call of `Unlock` has left the mutex locked, since it found `isLock` overwritten, no
-- goroutine gets between `sl.Lock` and `sl.Unlock` any more, whatever moves follow.
pub lost_for_ever :
    (pcs : List Pc) (ms ns : List (Move × ℕ))
    → All (λ pc. pc ≡ outside) pcs
    → 1 ≤ (moves ms (new_lock pcs)).unheld
    → inside (moves ns (moves ms (new_lock pcs))).pcs ≡ 0
lost_for_ever pcs ms ns h k =
    let r = moves ms (new_lock pcs) in
    let (o, l) = moves-IsOwned ms (new_lock pcs) (new_lock-IsOwned pcs h) in
    let (p, m) = moves-IsOwned ns r o in ground (arith, p, m)

abbrev pub locks : Move → List (Move × ℕ)
locks m = (go, 0) ∷ (go, 0) ∷ (go, 0) ∷ (m, 0) ∷ []

abbrev pub returns : List (Move × ℕ)
returns = (go, 0) ∷ (go, 0) ∷ []

-- A goroutine that is alone in calling `Lock` and then `Unlock` leaves the lock as it was, and
-- so does a `Lock` that ends with an error of redis or by the time.
undisturbed :
    (pcs : List Pc)
    → let r = new_lock (outside ∷ pcs) in
      (moves (locks redis_ok ++ returns ++ returns) r ≡ r)
      × (moves (locks redis_err ++ returns) r ≡ r)
      × (moves (locks time_out ++ returns) r ≡ r)
unfolding moves move move_at go_at select_at new_lock
undisturbed pcs = (refl, refl, refl)
