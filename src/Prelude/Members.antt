-- ===== src/Prelude/Members.antt =====
-- The items of lists that are joined or filtered.
use mathlib.Core.Path.{◌≡◌, refl, ap}
use mathlib.Core.Bool.{Bool, true, false}
use mathlib.Core.List.{List, [], ◌∷◌, ◌++◌}
use native.Mathlib.Omega.{arith}
use prism_rust_vivek.Prelude.Tests.{if◌then◌else◌}
use prism_rust_vivek.Prelude.Classes.{Eq}
use prism_rust_vivek.Prelude.Lists.{filter, all}
use prism_rust_vivek.Prelude.Tables.{elem, add, discard, elem-add, elem-discard}

module _ {ℓ} {K : Type ℓ} ⦃e : Eq K⦄ where
  pub elem-append : (d : K) (a b : List K) → elem d (a ++ b) ≡ (if elem d a then true else elem d b)
  unfolding elem
  elem-append d [] b = refl
  elem-append d (x ∷ a) b = ground (arith, elem-append d a b)

  pub elem-filter :
      (d : K) (p : K → Bool) (items : List K)
      → elem d (filter p items) ≡ (if p d then elem d items else false)
  unfolding elem
  elem-filter d p [] = ground arith
  elem-filter d p (x ∷ items) = ground (arith, e.beq_iff x d, elem-filter d p items, ap p)

  pub elem-later : (x y : K) (s : List K) → elem x s ≡ true → elem x (y ∷ s) ≡ true
  unfolding elem
  elem-later x y s h = ground (arith, h)

  -- A test that no item passes.
  pub filter-nil :
      (p : K → Bool) (items : List K)
      → ((x : K) → elem x items ≡ true → p x ≡ false)
      → filter p items ≡ []
  unfolding elem
  filter-nil p [] h = refl
  filter-nil p (x ∷ items) h =
      let here = h x (ground (arith, e.beq_iff x x)) in
      let later = filter-nil p items (λ y k. h y (elem-later y x items k)) in
      ground (arith, here, later)

  -- A test that every item passes.
  pub all-of-elem :
      (p : K → Bool) (items : List K)
      → ((x : K) → elem x items ≡ true → p x ≡ true)
      → all p items ≡ true
  unfolding elem
  all-of-elem p [] h = refl
  all-of-elem p (x ∷ items) h =
      let here = h x (ground (arith, e.beq_iff x x)) in
      let later = all-of-elem p items (λ y k. h y (elem-later y x items k)) in
      ground (arith, here, later)

  pub elem-of-all :
      (p : K → Bool) (x : K) (items : List K)
      → all p items ≡ true
      → elem x items ≡ true
      → p x ≡ true
  unfolding elem
  elem-of-all p x [] h k = absurd (cc k)
  elem-of-all p x (y ∷ items) h k = ground (arith, h, k, e.beq_iff y x, ap p, elem-of-all p x items)

  -- `for x in ..: set.insert(x)`
  unfoldable pub add_all : List K → List K → List K
  add_all [] s = s
  add_all (h ∷ items) s = add_all items (add h s)

  pub elem-add_all :
      (x : K) (items s : List K)
      → elem x (add_all items s) ≡ (if elem x items then true else elem x s)
  unfolding add_all elem
  elem-add_all x [] s = refl
  elem-add_all x (h ∷ items) s =
      ground (arith, e.beq_iff h x, elem-add_all x items (add h s), elem-add h x s)

  -- `for x in ..: set.remove(x)`
  unfoldable pub discard_all : List K → List K → List K
  discard_all [] s = s
  discard_all (h ∷ items) s = discard_all items (discard h s)

  pub elem-discard_all :
      (x : K) (items s : List K)
      → elem x (discard_all items s) ≡ (if elem x items then false else elem x s)
  unfolding discard_all elem
  elem-discard_all x [] s = refl
  elem-discard_all x (h ∷ items) s =
      ground (arith, e.beq_iff h x, elem-discard_all x items (discard h s), elem-discard h x s)
