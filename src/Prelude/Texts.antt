-- ===== src/Prelude/Texts.antt =====
-- Equality of texts, as a test and as laws.
use mathlib.Core.Path.{◌≡◌, refl}
use mathlib.Core.Logic.{◌≢◌, ◌↔◌}
use mathlib.Core.Bool.{Bool, true, false}
use Prim.Native.String.{String}
use native.Mathlib.Omega.{arith}
use text.Mathlib.Text.{◌==◌ as str_eq}
use text.Mathlib.TextEquality.{eq_iff}

infix 50 ◌==ₛ◌
abbrev pub ◌==ₛ◌ : String → String → Bool
a ==ₛ b = str_eq a b

pub ==ₛ_iff : (a b : String) → ((a ==ₛ b) ≡ true) ↔ (a ≡ b)
==ₛ_iff a b = eq_iff a b

pub ==ₛ_refl : (a : String) → (a ==ₛ a) ≡ true
==ₛ_refl a = (eq_iff a a).1 refl

pub ==ₛ_of_ne : (a b : String) → a ≢ b → (a ==ₛ b) ≡ false
==ₛ_of_ne a b h = ground (arith, eq_iff a b)
