-- ===== src/Prelude/Texts.antt =====
-- Texts are lists of bytes; a literal of the source is written as one.
use Prim.Native.Char.{code}
use Prim.Native.String.{String}
use Prim.Native.Nat.{ℕ}
use mathlib.Core.Path.{◌≡◌}
use mathlib.Core.List.{[], ◌∷◌, ◌++◌}
use native.Mathlib.Omega.{arith}
use redbus.Prelude.Classes.{Text}

-- The bytes of a literal (all literals of the program that the model uses are ASCII).
abbrev pub text : String → Text
text String.[] = []
text (String.◌∷◌ c s) = code c ∷ text s

-- The byte does not occur in the text.
abbrev pub IsFree : ℕ → Text → Type 0
IsFree c [] = Unit
IsFree c (d ∷ s) = ¬ (d ≡ c) × IsFree c s

-- A separator that neither first part holds splits a text in one way.
pub split_unique :
    (c : ℕ) (a b s t : Text) → IsFree c a → IsFree c b → a ++ c ∷ s ≡ b ++ c ∷ t → (a ≡ b) × (s ≡ t)
split_unique c [] [] s t ha hb e = ground arith
split_unique c [] (y ∷ b) s t ha hb e = absurd (hb.0 (ground arith))
split_unique c (x ∷ a) [] s t ha hb e = absurd (ha.0 (ground arith))
split_unique c (x ∷ a) (y ∷ b) s t ha hb e = ground (arith, split_unique c a b s t ha.1 hb.1)
