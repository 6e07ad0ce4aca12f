-- ===== src/Crypto/Halvings.antt =====
-- The sizes of the layers of a Merkle tree of src/crypto/merkle.rs as numbers without a bound.
use prism_rust_vivek.Prelude.{
  ℕ, zero, suc, ◌+◌, ◌/◌, ◌%◌, ◌<◌, ◌≤◌, ◌≡◌, refl, ap, true, false, List, [], ◌∷◌, length, nat_beq,
  ◌==◌, if◌then◌else◌, nat_eq, arith, Bool-cases, inl, inr, ◌*◌,
}

abbrev pub tail : List ℕ → List ℕ
tail [] = []
tail (x ∷ xs) = xs

-- The number of halvings from a size to 1, each rounded up.
unfoldable pub height : ℕ → ℕ → ℕ
height zero size = 0
height (suc fuel) size =
    let rest = height fuel ((size + 1) / 2) in if size == 1 then 0 else suc rest

-- The sizes of the layers as numbers without a bound.
unfoldable pub halvings : ℕ → ℕ → List ℕ
halvings zero size = []
halvings (suc fuel) size =
    let even = if size % 2 == 1 then size + 1 else size in
    let rest = halvings fuel (even / 2) in if size == 1 then size ∷ [] else even ∷ rest

abbrev pub total : List ℕ → ℕ
total [] = 0
total (x ∷ xs) = x + total xs

-- Every size but the last is even, and the last is 1.
abbrev pub AreSizes : List ℕ → Type 0
AreSizes [] = Unit
AreSizes (x ∷ []) = x ≡ 1
AreSizes (x ∷ y ∷ xs) = (x % 2 ≡ 0) × AreSizes (y ∷ xs)

AreSizes-cons : (x : ℕ) (xs : List ℕ) → x % 2 ≡ 0 → 0 < length xs → AreSizes xs → AreSizes (x ∷ xs)
AreSizes-cons x [] e p h = elim p [ ]
AreSizes-cons x (y ∷ xs) e p h = (e, h)

pub length-halvings :
    (fuel size : ℕ) → 0 < size → size ≤ fuel → length (halvings fuel size) ≡ suc (height fuel size)
unfolding halvings height
length-halvings zero size p h = absurd (omega arith)
length-halvings (suc fuel) size p h = elim (Bool-cases (nat_beq size 1)) [
  | inl one ↦ ground arith
  | inr more ↦
      let ih = length-halvings fuel ((size + 1) / 2) (omega arith) (ground arith) in
      elim (Bool-cases (nat_beq (size % 2) 1)) [
        | inl odd ↦ ground (arith, ih)
        | inr even ↦
            let e : size / 2 ≡ (size + 1) / 2 = ground arith in rw (more, even, e) (ap suc ih)
      ]
]

halvings-odd :
    (fuel size : ℕ)
    → nat_beq size 1 ≡ false
    → nat_beq (size % 2) 1 ≡ true
    → halvings (suc fuel) size ≡ (size + 1) ∷ halvings fuel ((size + 1) / 2)
unfolding halvings
halvings-odd fuel size more odd = ground (arith, more, odd)

halvings-even :
    (fuel size : ℕ)
    → nat_beq size 1 ≡ false
    → nat_beq (size % 2) 1 ≡ false
    → halvings (suc fuel) size ≡ size ∷ halvings fuel (size / 2)
unfolding halvings
halvings-even fuel size more even = ground (arith, more, even)

halvings-one : (fuel : ℕ) (size : ℕ) → size ≡ 1 → halvings (suc fuel) size ≡ 1 ∷ []
unfolding halvings
halvings-one fuel size one = rw one refl

pub halvings-AreSizes : (fuel size : ℕ) → 0 < size → size ≤ fuel → AreSizes (halvings fuel size)
halvings-AreSizes zero size p h = absurd (omega arith)
halvings-AreSizes (suc fuel) size p h = elim (Bool-cases (nat_beq size 1)) [
  | inl one ↦ let e : size ≡ 1 = ground arith in rw (halvings-one fuel size e) refl
  | inr more ↦ elim (Bool-cases (nat_beq (size % 2) 1)) [
    | inl odd ↦
        let half : 0 < (size + 1) / 2 = ground arith in
        let fits : (size + 1) / 2 ≤ fuel = ground arith in
        let e : (size + 1) % 2 ≡ 0 = ground arith in
        rw (halvings-odd fuel size more odd) (
          AreSizes-cons (size + 1) (halvings fuel ((size + 1) / 2)) e
            (omega (arith, length-halvings fuel ((size + 1) / 2) half fits))
            (halvings-AreSizes fuel ((size + 1) / 2) half fits))
    | inr even ↦
        let half : 0 < size / 2 = ground arith in
        let fits : size / 2 ≤ fuel = ground arith in
        let e : size % 2 ≡ 0 = ground arith in
        rw (halvings-even fuel size more even) (
          AreSizes-cons size (halvings fuel (size / 2)) e
            (omega (arith, length-halvings fuel (size / 2) half fits))
            (halvings-AreSizes fuel (size / 2) half fits))
  ]
]

-- The layers above another one begin at an odd place, so an even index is a left child.
pub total-odd : (x : ℕ) (xs : List ℕ) → AreSizes (x ∷ xs) → total (x ∷ xs) % 2 ≡ 1
total-odd x [] h = omega arith
total-odd x (y ∷ xs) h = omega (arith, total-odd y xs h.1)

pub AreSizes-tail : (x : ℕ) (xs : List ℕ) → AreSizes (x ∷ xs) → AreSizes xs
AreSizes-tail x [] h = tt
AreSizes-tail x (y ∷ xs) h = h.1

pub tail-AreSizes : (xs : List ℕ) → AreSizes xs → AreSizes (tail xs)
tail-AreSizes [] h = tt
tail-AreSizes (x ∷ xs) h = AreSizes-tail x xs h

pub length-tail : (xs : List ℕ) (n : ℕ) → length xs ≡ suc n → length (tail xs) ≡ n
length-tail [] n e = absurd (omega arith)
length-tail (x ∷ xs) n e = omega arith

pub total-halvings :
    (fuel size : ℕ) → 0 < size → size ≤ fuel → total (halvings fuel size) + 3 ≤ 4 * size
total-halvings zero size p h = absurd (omega arith)
total-halvings (suc fuel) size p h = elim (Bool-cases (nat_beq size 1)) [
  | inl one ↦ let e : size ≡ 1 = ground arith in rw (halvings-one fuel size e, e) (omega arith)
  | inr more ↦ elim (Bool-cases (nat_beq (size % 2) 1)) [
    | inl odd ↦
        let ih = total-halvings fuel ((size + 1) / 2) (omega arith) (ground arith) in
        rw (halvings-odd fuel size more odd) (ground arith)
    | inr even ↦
        let ih = total-halvings fuel (size / 2) (ground arith) (ground arith) in
        rw (halvings-even fuel size more even) (ground arith)
  ]
]

pub total-tail :
    (fuel size : ℕ)
    → 0 < size
    → size ≤ fuel
    → total (tail (halvings fuel size)) + size ≤ total (halvings fuel size)
total-tail zero size p h = absurd (omega arith)
total-tail (suc fuel) size p h = elim (Bool-cases (nat_beq size 1)) [
  | inl one ↦ let e : size ≡ 1 = ground arith in rw (halvings-one fuel size e) (omega arith)
  | inr more ↦ elim (Bool-cases (nat_beq (size % 2) 1)) [
    | inl odd ↦ rw (halvings-odd fuel size more odd) (omega arith)
    | inr even ↦ rw (halvings-even fuel size more even) (omega arith)
  ]
]
