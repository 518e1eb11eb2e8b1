-- ===== src/Common/Words.antt =====
-- Words as lists of runes, which can be the keys of a map.
use Prim.Native.Nat.{ℕ}
use mathlib.Core.Path.{◌≡◌, refl}
use mathlib.Core.Logic.{◌↔◌}
use mathlib.Core.Bool.{Bool, true, false, ◌&&◌}
use mathlib.Core.List.{List, [], ◌∷◌}
use native.Mathlib.Omega.{arith}
use distributed_systems_iiit.Common.Tests.{Key, nat_beq, nat_beq_iff}

abbrev pub Word : Type 0
Word = List ℕ

abbrev pub word_eq : Word → Word → Bool
word_eq [] [] = true
word_eq [] (_ ∷ _) = false
word_eq (_ ∷ _) [] = false
word_eq (c ∷ v) (d ∷ w) = nat_beq c d && word_eq v w

pub word_eq_iff : (v w : Word) → (word_eq v w ≡ true) ↔ (v ≡ w)
word_eq_iff [] [] = ((λ _. refl), λ _. refl)
word_eq_iff [] (d ∷ w) = ((λ h. absurd (cc h)), λ h. absurd (cc h))
word_eq_iff (c ∷ v) [] = ((λ h. absurd (cc h)), λ h. absurd (cc h))
word_eq_iff (c ∷ v) (d ∷ w) = ground (arith, word_eq_iff v w, nat_beq_iff c d)

instance abbrev pub word_key : Key Word
word_key = record { equal = word_eq; equal_iff = word_eq_iff }
