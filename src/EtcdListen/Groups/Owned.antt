-- ===== src/EtcdListen/Groups/Owned.antt =====
-- What `EmptyGroupWatchs` leaves of the keys of a name, where these are distinct and the group's own.
use j7f.Base.{
  same_text_sym, ℕ, zero, suc, ◌≡◌, sym, subst, true, false, List, [], ◌∷◌, some, Text, same_text,
  same_text_iff, arith, All, drop, get_elem?,
}
use j7f.Base.Int.{ℤ, pos, negsuc}
use j7f.Util.{contains}
use j7f.Util.Search.{IsFound, absent, first, contains-IsFound}
use j7f.EtcdListen.Exports.{has_key}
use j7f.EtcdListen.Groups.{forget_key}

abbrev pub Distinct : List Text → Type 0
Distinct [] = Unit
Distinct (x ∷ xs) = (has_key x xs ≡ false) × Distinct xs

abbrev pub Within : List Text → List Text → Type 0
Within allowed = All (λ x. has_key x allowed ≡ true)

-- A key that no key of the list is like is not needed among those allowed.
drop_allowed :
    (s : Text) (allowed xs : List Text)
    → All (λ x. same_text x s ≡ false) xs
    → Within (s ∷ allowed) xs
    → Within allowed xs
drop_allowed s allowed [] a w = tt
drop_allowed s allowed (x ∷ xs) a w =
    (ground (arith, a.0, w.0, same_text_sym s x), drop_allowed s allowed xs a.1 w.1)

not_like :
    (s y : Text) (xs : List Text)
    → same_text y s ≡ true
    → has_key y xs ≡ false
    → All (λ x. same_text x s ≡ false) xs
not_like s y [] e h = tt
not_like s y (x ∷ xs) e h =
    let same : y ≡ s = (same_text_iff y s).0 e in
    (subst (λ t. same_text x t ≡ false) same (ground arith), not_like s y xs e (ground arith))

abbrev pub IsOwn : List Text → List Text → Type 0
IsOwn allowed keys = Distinct keys × Within allowed keys

module _ (s : Text) (allowed : List Text) where
  behind_first :
      (k : ℕ) (x : Text) (keys : List Text)
      → get_elem? keys k ≡ some x
      → same_text x s ≡ true
      → Distinct keys
      → Within (s ∷ allowed) keys
      → IsOwn allowed (drop (suc k) keys)
  behind_first k x [] e q d w = cc
  behind_first zero x (y ∷ ys) e q d w =
      let like : same_text y s ≡ true = ground arith in
      (d.1, drop_allowed s allowed ys (not_like s y ys like d.0) w.1)
  behind_first (suc k) x (y ∷ ys) e q d w = behind_first k x ys e q d.1 w.1

  forgotten :
      (keys : List Text) (r : ℤ)
      → IsFound keys s r
      → Distinct keys
      → Within (s ∷ allowed) keys
      → IsOwn allowed (elim r [ negsuc n ↦ keys | pos i ↦ drop (suc i) keys ])
  forgotten keys _ (absent a) d w = (d, drop_allowed s allowed keys a w)
  forgotten keys _ (first k x e q a) d w = behind_first k x keys e q d w

  pub forget_key-IsOwn :
      (keys : List Text)
      → Distinct keys
      → Within (s ∷ allowed) keys
      → IsOwn allowed (forget_key s keys)
  forget_key-IsOwn keys d w =
      let is : forget_key s keys
          ≡ elim (contains keys s) [ negsuc n ↦ keys | pos i ↦ drop (suc i) keys ] =
        unfold forget_key in ground arith in
      subst (IsOwn allowed) (sym is)
        (forgotten keys (contains keys s) (contains-IsFound keys s) d w)
