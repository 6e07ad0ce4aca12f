-- ===== src/Prelude/Classes.antt =====
-- `Eq` of Rust, as an interface with its law, and the instances that the program derives.
use mathlib.Core.Path.{◌≡◌, refl}
use mathlib.Core.Logic.{◌↔◌}
use mathlib.Core.Bool.{Bool, true, false, ◌&&◌}
use mathlib.Core.List.{List, [], ◌∷◌}
use Prim.Native.Nat.{ℕ}
use native.Mathlib.Omega.{arith}
use prism_rust_vivek.Prelude.Tests.{nat_beq, nat_beq_iff, if◌then◌else◌}

pub record Eq {ℓ} (K : Type ℓ) : Type ℓ where
  pub beq : K → K → Bool
  pub beq_iff : (x y : K) → (beq x y ≡ true) ↔ (x ≡ y)

infix 50 ◌==◌
abbrev pub ◌==◌ {ℓ} : {K : Type ℓ} ⦃e : Eq K⦄ → K → K → Bool
◌==◌ ⦃e⦄ x y = e.beq x y

instance abbrev pub nat_eq : Eq ℕ
nat_eq = record { beq = nat_beq; beq_iff = nat_beq_iff }

-- Texts are lists of code units; `list_beq` compares them.
abbrev pub list_beq : List ℕ → List ℕ → Bool
list_beq [] [] = true
list_beq (x ∷ xs) (y ∷ ys) = if nat_beq x y then list_beq xs ys else false
list_beq _ _ = false

list_beq→eq : (a b : List ℕ) → list_beq a b ≡ true → a ≡ b
list_beq→eq [] [] h = refl
list_beq→eq (x ∷ xs) (y ∷ ys) h = ground (arith, list_beq→eq xs ys)
list_beq→eq [] (y ∷ ys) h = cc
list_beq→eq (x ∷ xs) [] h = cc

list_beq_refl : (a : List ℕ) → list_beq a a ≡ true
list_beq_refl [] = refl
list_beq_refl (x ∷ xs) = ground (arith, list_beq_refl xs)

pub list_beq_iff : (a b : List ℕ) → (list_beq a b ≡ true) ↔ (a ≡ b)
list_beq_iff a b = (list_beq→eq a b, λ e. rw e (list_beq_refl b))

instance abbrev pub text_eq : Eq (List ℕ)
text_eq = record { beq = list_beq; beq_iff = list_beq_iff }

module _ {ℓ κ} {A : Type ℓ} {B : Type κ} ⦃e : Eq A⦄ ⦃f : Eq B⦄ where
  abbrev pub pair_beq : A × B → A × B → Bool
  pair_beq (a, b) (c, d) = e.beq a c && f.beq b d

  pub pair_beq_iff : (p q : A × B) → (pair_beq p q ≡ true) ↔ (p ≡ q)
  pair_beq_iff (a, b) (c, d) = ground (arith, e.beq_iff a c, f.beq_iff b d)

  instance abbrev pub pair_eq : Eq (A × B)
  pair_eq = record { beq = pair_beq; beq_iff = pair_beq_iff }
