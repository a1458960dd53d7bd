-- ===== src/Prelude/Equality.antt =====
-- Equality tests as an interface, with the instances for numbers and for texts.
use Prim.Native.Char.{code}
use Prim.Native.Nat.{ℕ}
use Prim.Native.String.{String}
use mathlib.Core.Bool.{Bool, true, false, ◌&&◌}
use mathlib.Core.List.{List, [], ◌∷◌}
use mathlib.Core.Logic.{◌↔◌}
use mathlib.Core.Path.{◌≡◌, refl}
use native.Mathlib.Omega.{arith}
use web_hook_project.Prelude.Tests.{nat_beq, nat_beq_iff}

-- A Go string or byte slice: its bytes.
abbrev pub Text : Type 0
Text = List ℕ

-- The bytes of an ASCII literal.
abbrev pub codes : String → Text
codes String.[] = []
codes (String.◌∷◌ c s) = code c ∷ codes s

-- A test that decides the equality of a type.
pub record Eq {ℓ} (A : Type ℓ) : Type ℓ where
  pub equal : A → A → Bool
  pub decides : (x y : A) → (equal x y ≡ true) ↔ (x ≡ y)

module _ {ℓ} {A : Type ℓ} ⦃e : Eq A⦄ where
  infix 50 ◌==◌
  abbrev pub ◌==◌ : A → A → Bool
  ◌==◌ = e.equal

  pub beq_refl : (a : A) → (a == a) ≡ true
  beq_refl a = (e.decides a a).1 refl

unfoldable pub text_beq : Text → Text → Bool
text_beq [] [] = true
text_beq [] (b ∷ t) = false
text_beq (a ∷ s) [] = false
text_beq (a ∷ s) (b ∷ t) = nat_beq a b && text_beq s t

text_beq-eq : (s t : Text) → text_beq s t ≡ true → s ≡ t
unfolding text_beq
text_beq-eq [] [] h = refl
text_beq-eq [] (b ∷ t) h = cc
text_beq-eq (a ∷ s) [] h = cc
text_beq-eq (a ∷ s) (b ∷ t) h = ground (arith, text_beq-eq s t)

pub text_beq_refl : (s : Text) → text_beq s s ≡ true
unfolding text_beq
text_beq_refl [] = refl
text_beq_refl (a ∷ s) = ground (arith, text_beq_refl s)

pub text_beq_iff : (s t : Text) → (text_beq s t ≡ true) ↔ (s ≡ t)
text_beq_iff s t = (text_beq-eq s t, λ e. rw e (text_beq_refl t))

instance abbrev pub nat_eq : Eq ℕ
nat_eq = record { equal = nat_beq; decides = nat_beq_iff }

instance abbrev pub text_eq : Eq Text
text_eq = record { equal = text_beq; decides = text_beq_iff }
