-- ===== src/Base/Texts.antt =====
-- Texts as lists of code points, compared.
use Prim.Native.Nat.{ℕ}
use mathlib.Core.Path.{◌≡◌, refl}
use mathlib.Core.Logic.{◌↔◌}
use mathlib.Core.Bool.{Bool, true, false, ◌&&◌}
use mathlib.Core.List.{List, [], ◌∷◌}
use native.Mathlib.Omega.{arith}
use j7f.Base.Tests.{◌==◌}

abbrev pub Text : Type 0
Text = List ℕ

abbrev pub same_text : Text → Text → Bool
same_text [] [] = true
same_text [] (d ∷ w) = false
same_text (c ∷ v) [] = false
same_text (c ∷ v) (d ∷ w) = c == d && same_text v w

pub same_text_iff : (v w : Text) → (same_text v w ≡ true) ↔ (v ≡ w)
same_text_iff [] [] = (λ h. refl, λ h. refl)
same_text_iff [] (d ∷ w) = (λ h. cc, λ h. cc)
same_text_iff (c ∷ v) [] = (λ h. cc, λ h. cc)
same_text_iff (c ∷ v) (d ∷ w) =
    (λ h. ground (arith, (same_text_iff v w).0), λ h. ground (arith, (same_text_iff v w).1))

pub same_text_refl : (v : Text) → same_text v v ≡ true
same_text_refl v = (same_text_iff v v).1 refl

pub same_text_sym : (v w : Text) → same_text v w ≡ same_text w v
same_text_sym [] [] = refl
same_text_sym [] (d ∷ w) = refl
same_text_sym (c ∷ v) [] = refl
same_text_sym (c ∷ v) (d ∷ w) = ground (arith, same_text_sym v w)
