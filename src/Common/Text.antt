-- ===== src/Common/Text.antt =====
-- Texts: Go's strings as native strings, read by code point where the code walks them.
use Prim.Native.Nat.{ℕ}
use Prim.Native.Char.{code}
use Prim.Native.String.{String}
use mathlib.Core.Bool.{Bool, false, ◌||◌}
use mathlib.Core.Option.{Option, none, some}
use mathlib.Core.List.{List, [], ◌∷◌}
use text.Mathlib.Text.{◌==◌ as text_eq}
use foliot.Common.Tests.{if◌then◌else◌}

infix 50 ◌=s=◌
abbrev pub ◌=s=◌ : String → String → Bool
a =s= b = text_eq a b

-- The code points of a text: its bytes, if it is ASCII.
abbrev pub codes : String → List ℕ
codes String.[] = []
codes (String.◌∷◌ c s) = code c ∷ codes s

abbrev pub contains : String → List String → Bool
contains s [] = false
contains s (t ∷ ts) = t =s= s || contains s ts

-- A Go map with string keys that is only read.
abbrev pub lookup {ℓ} : {V : Type ℓ} → String → List (String × V) → Option V
lookup k [] = none
lookup k ((j, v) ∷ m) = if j =s= k then some v else lookup k m
