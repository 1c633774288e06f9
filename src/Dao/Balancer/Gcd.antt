-- ===== src/Dao/Balancer/Gcd.antt =====
-- `Gcd` is the greatest common divisor of positive weights.
use j7f.Base.{
  ℕ, zero, suc, ◌%◌, ◌≤◌, ◌<◌, ◌≡◌, refl, subst, true, false, List, [], ◌∷◌, some, arith, ltb, ◌==◌,
  if◌then◌else◌, All, get_elem?, ◌⊎◌, Bool-cases, inl, inr,
}
use j7f.Dao.{returned, panicked}
use j7f.Dao.Balancer.{least, is_common, gcd_loop, gcd}

abbrev pub IsCommon : ℕ → List ℕ → Type 0
IsCommon d = All (λ x. x % d ≡ 0)

abbrev pub AllPositive : List ℕ → Type 0
AllPositive = All (λ x. 0 < x)

least_pos : (m : ℕ) (xs : List ℕ) → 0 < m → AllPositive xs → 0 < least m xs
unfolding least
least_pos m [] h k = h
least_pos m (x ∷ xs) h k = least_pos (if ltb x m then x else m) xs (ground arith) k.1

le-least : (d m : ℕ) (xs : List ℕ) → d ≤ m → All (λ x. d ≤ x) xs → d ≤ least m xs
unfolding least
le-least d m [] h k = h
le-least d m (x ∷ xs) h k = le-least d (if ltb x m then x else m) xs (ground arith) k.1

divisor_le : (d x : ℕ) → 0 < x → x % d ≡ 0 → d ≤ x
divisor_le d x h e = grind arith

divisors_le : (d : ℕ) (xs : List ℕ) → AllPositive xs → IsCommon d xs → All (λ x. d ≤ x) xs
divisors_le d [] h k = tt
divisors_le d (x ∷ xs) h k = (divisor_le d x h.0 k.0, divisors_le d xs h.1 k.1)

is_common→IsCommon : (d : ℕ) (xs : List ℕ) → is_common d xs ≡ true → IsCommon d xs
unfolding is_common
is_common→IsCommon d [] h = tt
is_common→IsCommon d (x ∷ xs) h = (ground arith, is_common→IsCommon d xs (ground arith))

IsCommon→is_common : (d : ℕ) (xs : List ℕ) → IsCommon d xs → is_common d xs ≡ true
unfolding is_common
IsCommon→is_common d [] h = refl
IsCommon→is_common d (x ∷ xs) h = ground (arith, IsCommon→is_common d xs h.1)

is_common_one : (xs : List ℕ) → is_common 1 xs ≡ true
unfolding is_common
is_common_one [] = refl
is_common_one (x ∷ xs) = let e : x % 1 ≡ 0 = omega arith in ground (arith, is_common_one xs, e)

-- The loop finds the greatest common divisor up to where it starts.
abbrev IsGreatest : ℕ → List ℕ → ℕ → Type 0
IsGreatest m xs g = (0 < g) × IsCommon g xs × ((d : ℕ) → d ≤ m → IsCommon d xs → d ≤ g)

not_common :
    (m d : ℕ) (xs : List ℕ) → is_common (suc m) xs ≡ false → d ≤ suc m → IsCommon d xs → d ≤ m
not_common m d xs q h c = elim (Bool-cases (d == suc m)) [
  | inl e ↦
      let p : d ≡ suc m = ground arith in
      cc (q, IsCommon→is_common (suc m) xs (subst (λ k. IsCommon k xs) p c))
  | inr e ↦ ground arith
]

gcd_loop-IsGreatest : (xs : List ℕ) (m : ℕ) → 0 < m → IsGreatest m xs (gcd_loop xs m)
unfolding gcd_loop
gcd_loop-IsGreatest xs zero h = absurd (omega arith)
gcd_loop-IsGreatest xs (suc zero) h =
    rw (is_common_one xs, gcd_loop)
      (omega arith, is_common→IsCommon 1 xs (is_common_one xs), λ d k c. k)
gcd_loop-IsGreatest xs (suc (suc m)) h = elim (Bool-cases (is_common (suc (suc m)) xs)) [
  | inl q ↦ rw (q, gcd_loop) (omega arith, is_common→IsCommon (suc (suc m)) xs q, λ d k c. k)
  | inr q ↦
      let (a, b, greatest) = gcd_loop-IsGreatest xs (suc m) (omega arith) in
      rw (q, gcd_loop) (a, b, λ d k c. greatest d (not_common (suc m) d xs q k c) c)
]

-- `Gcd` of positive weights, one at least, returns a positive number that divides all of them,
-- and no other common divisor is greater.
pub gcd_greatest :
    (x : ℕ) (xs : List ℕ)
    → AllPositive (x ∷ xs)
    → (g : ℕ) × (gcd (x ∷ xs) ≡ returned g)
      × (0 < g)
      × IsCommon g (x ∷ xs)
      × ((d : ℕ) → IsCommon d (x ∷ xs) → d ≤ g)
unfolding gcd
gcd_greatest x xs h =
    let m = least x (x ∷ xs) in
    let p = least_pos x (x ∷ xs) h.0 h in
    let (a, b, greatest) = gcd_loop-IsGreatest (x ∷ xs) m p in
    (
      gcd_loop (x ∷ xs) m,
      ground arith,
      a,
      b,
      λ d c.
          let below = divisors_le d (x ∷ xs) h c in
          greatest d (le-least d x (x ∷ xs) below.0 below) c,
    )

least_zero : (m : ℕ) (xs : List ℕ) → m ≡ 0 → least m xs ≡ 0
unfolding least
least_zero m [] h = h
least_zero m (x ∷ xs) h = least_zero (if ltb x m then x else m) xs (ground arith)

least_of_zero : (m k : ℕ) (xs : List ℕ) → get_elem? xs k ≡ some 0 → least m xs ≡ 0
unfolding least
least_of_zero m k [] h = cc
least_of_zero m zero (x ∷ xs) h = least_zero (if ltb x m then x else m) xs (ground arith)
least_of_zero m (suc k) (x ∷ xs) h = least_of_zero (if ltb x m then x else m) k xs h

-- Without a weight, or with a weight of zero among them, `Gcd` panics.
pub gcd_panics : (xs : List ℕ) (k : ℕ) → (xs ≡ []) ⊎ (get_elem? xs k ≡ some 0) → gcd xs ≡ panicked
unfolding gcd
gcd_panics [] k h = refl
gcd_panics (x ∷ xs) k (inl e) = cc
gcd_panics (x ∷ xs) k (inr e) = ground (arith, least_of_zero x k (x ∷ xs))
