-- ===== src/Base/Texts.antt =====
-- Go strings, as lists of bytes, for keys.
use Prim.Native.Nat.{ℕ}
use mathlib.Core.List.{List}
unfoldable use native.Mathlib.Decide.{ℕ_discrete}
use cups.Base.Maps.{DecEq}

abbrev pub Text : Type 0
Text = List ℕ

unfoldable pub Text-discrete : Discrete (List ℕ)
Text-discrete = hlevel ℕ_discrete

instance abbrev pub text_eq : DecEq (List ℕ)
text_eq = record { decide = Text-discrete }
