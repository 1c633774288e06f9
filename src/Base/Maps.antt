-- ===== src/Base/Maps.antt =====
-- Go's maps with texts as keys, as lists of entries.
use mathlib.Core.Path.{◌≡◌, refl, ap, sym}
use mathlib.Core.Logic.{inl, inr}
use mathlib.Core.Bool.{true, false}
use mathlib.Core.Option.{Option, none, some}
use mathlib.Core.List.{List, [], ◌∷◌}
use native.Mathlib.Omega.{arith}
use j7f.Base.Tests.{if◌then◌else◌, Bool-cases}
use j7f.Base.Texts.{Text, same_text, same_text_iff, same_text_sym}

abbrev pub Map {ℓ} : Type ℓ → Type ℓ
Map A = List (Text × A)

unfoldable pub find {ℓ} : {A : Type ℓ} → Text → Map A → Option A
find key [] = none
find key ((k, a) ∷ m) = let rest = find key m in if same_text k key then some a else rest

unfoldable pub put {ℓ} : {A : Type ℓ} → Text → A → Map A → Map A
put key a [] = (key, a) ∷ []
put key a ((k, b) ∷ m) =
    let rest = put key a m in if same_text k key then (k, a) ∷ m else (k, b) ∷ rest

unfoldable pub remove {ℓ} : {A : Type ℓ} → Text → Map A → Map A
remove key [] = []
remove key ((k, b) ∷ m) = let rest = remove key m in if same_text k key then rest else (k, b) ∷ rest

-- Keys that differ from one another are not the same third key.
apart : (j k key : Text) → same_text k j ≡ false → same_text k key ≡ true → same_text j key ≡ false
apart j k key e f = elim (Bool-cases (same_text j key)) [
  | inl g ↦
      let p : k ≡ key = (same_text_iff k key).0 f in
      let q : j ≡ key = (same_text_iff j key).0 g in cc (p, q, e)
  | inr g ↦ g
]

module _ {ℓ} {A : Type ℓ} (key j : Text) where
  pub find-put :
      (a : A) (m : Map A) → find key (put j a m) ≡ (if same_text j key then some a else find key m)
  unfolding find put
  find-put a [] = ground arith
  find-put a ((k, b) ∷ m) = elim (Bool-cases (same_text k j)) [
    | inl e ↦
        let like : same_text k key ≡ same_text j key =
          ap (λ t. same_text t key) ((same_text_iff k j).0 e) in
        ground (arith, like)
    | inr e ↦ elim (Bool-cases (same_text k key)) [
      | inl f ↦ ground (arith, find-put a m, apart j k key e f)
      | inr f ↦ ground (arith, find-put a m)
    ]
  ]

  pub find-remove :
      (m : Map A) → find key (remove j m) ≡ (if same_text j key then none else find key m)
  unfolding find remove
  find-remove [] = ground arith
  find-remove ((k, b) ∷ m) = elim (Bool-cases (same_text k j)) [
    | inl e ↦
        let like : same_text k key ≡ same_text j key =
          ap (λ t. same_text t key) ((same_text_iff k j).0 e) in
        ground (arith, find-remove m, like)
    | inr e ↦ elim (Bool-cases (same_text k key)) [
      | inl f ↦ ground (arith, find-remove m, apart j k key e f)
      | inr f ↦ ground (arith, find-remove m)
    ]
  ]

-- The entry under two keys of a map of maps.
abbrev pub entry_at {ℓ} : {A : Type ℓ} → Text → Text → Map (Map A) → Option A
entry_at w key m = elim (find w m) [ none ↦ none | some n ↦ find key n ]

pub entry_at-put {ℓ} :
    {A : Type ℓ} (w v j : Text) (n : Map A) (m : Map (Map A))
    → entry_at v j (put w n m) ≡ (if same_text w v then find j n else entry_at v j m)
entry_at-put w v j n m = ground (arith, find-put v w n m)

pub entry_at-remove {ℓ} :
    {A : Type ℓ} (w v j : Text) (m : Map (Map A))
    → entry_at v j (remove w m) ≡ (if same_text w v then none else entry_at v j m)
entry_at-remove w v j m = ground (arith, find-remove v w m)

-- The same key finds the same.
pub find_same {ℓ} :
    {A : Type ℓ} (key j : Text) (m : Map A) → same_text j key ≡ true → find key m ≡ find j m
find_same key j m h = ap (λ t. find t m) (sym ((same_text_iff j key).0 h))

-- No key is there twice.
abbrev pub HasDistinct {ℓ} : {A : Type ℓ} → Map A → Type ℓ
HasDistinct [] = Unit
HasDistinct ((key, a) ∷ m) = (find key m ≡ none) × HasDistinct m

module _ {ℓ} {A : Type ℓ} (key : Text) where
  pub put-HasDistinct : (a : A) (m : Map A) → HasDistinct m → HasDistinct (put key a m)
  unfolding put find
  put-HasDistinct a [] h = (refl, tt)
  put-HasDistinct a ((k, b) ∷ m) h = elim (Bool-cases (same_text k key)) [
    | inl s ↦ rw s h
    | inr s ↦
        rw s (ground (arith, find-put k key a m, same_text_sym k key), put-HasDistinct a m h.1)
  ]

  pub remove-HasDistinct : (m : Map A) → HasDistinct m → HasDistinct (remove key m)
  unfolding remove
  remove-HasDistinct [] h = tt
  remove-HasDistinct ((k, b) ∷ m) h = elim (Bool-cases (same_text k key)) [
    | inl s ↦ rw s (remove-HasDistinct m h.1)
    | inr s ↦ rw s (ground (arith, find-remove k key m), remove-HasDistinct m h.1)
  ]
