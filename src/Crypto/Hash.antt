-- ===== src/Crypto/Hash.antt =====
-- src/crypto/hash.rs: `H256` as its 32 bytes, and `Ord for H256`.
use Prim.Native.Nat.{compare, Ordering}
use native.Mathlib.Nat.{pow-suc}
use mathlib.Core.Path.{ap₂}
use native.Mathlib.Decide.{dec_lt}
use prism_rust_vivek.Prelude.{
  ℕ, zero, suc, ◌+◌, ◌*◌, ◌^◌, ◌<◌, ◌≡◌, refl, ap, ◌∙◌, sym, ◌↔◌, List, [], ◌∷◌, ◌++◌, length, take,
  drop, length-drop, take-append-drop, All, arith,
}

-- The bytes of a hash, the most significant first.
abbrev pub IsHash : List ℕ → Type 0
IsHash b = (length b ≡ 32) × All (λ x. x < 256) b

-- `from_be_bytes`
unfoldable pub from_be_bytes : ℕ → List ℕ → ℕ
from_be_bytes acc [] = acc
from_be_bytes acc (x ∷ b) = from_be_bytes (acc * 256 + x) b

-- `impl Ord for H256`: two halves of 16 bytes, each read as a `u128`.
unfoldable pub cmp : List ℕ → List ℕ → Ordering
unfolding from_be_bytes
cmp self other =
    let self_higher = from_be_bytes 0 (take 16 self) in
    let self_lower = from_be_bytes 0 (drop 16 self) in
    let other_higher = from_be_bytes 0 (take 16 other) in
    let other_lower = from_be_bytes 0 (drop 16 other) in
    let higher : Ordering = compare self_higher other_higher in
    elim higher [ Ordering.eq ↦ compare self_lower other_lower | other_order ↦ other_order ]

-- Reading on from an accumulator.
from_be_bytes-acc :
    (acc : ℕ) (b : List ℕ) → from_be_bytes acc b ≡ acc * 256 ^ length b + from_be_bytes 0 b
unfolding from_be_bytes
from_be_bytes-acc acc [] = omega arith
from_be_bytes-acc acc (x ∷ b) =
    rw (from_be_bytes-acc (acc * 256 + x) b, from_be_bytes-acc (0 + x) b, pow-suc) (omega arith)

from_be_bytes-lt : (b : List ℕ) → All (λ x. x < 256) b → from_be_bytes 0 b < 256 ^ length b
unfolding from_be_bytes
from_be_bytes-lt [] h = omega arith
from_be_bytes-lt (x ∷ b) h =
    let ih = from_be_bytes-lt b h.1 in rw (from_be_bytes-acc (0 + x) b, pow-suc) (grind arith)

from_be_bytes-append :
    (acc : ℕ) (a b : List ℕ) → from_be_bytes acc (a ++ b) ≡ from_be_bytes (from_be_bytes acc a) b
unfolding from_be_bytes
from_be_bytes-append acc [] b = refl
from_be_bytes-append acc (x ∷ a) b = from_be_bytes-append (acc * 256 + x) a b

All-drop : (n : ℕ) (b : List ℕ) → All (λ x. x < 256) b → All (λ x. x < 256) (drop n b)
All-drop zero b h = h
All-drop (suc n) [] h = tt
All-drop (suc n) (x ∷ b) h = All-drop n b h.1

-- The value of a hash is that of its halves, and the lower half is below 2 ^ 128.
from_be_bytes-halves :
    (b : List ℕ)
    → IsHash b
    → (from_be_bytes 0 b ≡ from_be_bytes 0 (take 16 b) * 2 ^ 128 + from_be_bytes 0 (drop 16 b))
      × (from_be_bytes 0 (drop 16 b) < 2 ^ 128)
from_be_bytes-halves b h =
    let n : length (drop 16 b) ≡ 16 = length-drop 16 b ∙ omega (arith, h.0) in
    (
      ap (from_be_bytes 0) (sym (take-append-drop 16 b))
          ∙ (from_be_bytes-append 0 (take 16 b) (drop 16 b)
              ∙ (from_be_bytes-acc (from_be_bytes 0 (take 16 b)) (drop 16 b)
                  ∙ (rw n (omega arith)))),
      let l = from_be_bytes-lt (drop 16 b) (All-drop 16 b h.1) in rw n at l,
    )

-- The order of two hashes, of 32 bytes each, is the order of the numbers that their bytes spell.
pub cmp-eq-compare :
    (self other : List ℕ)
    → IsHash self
    → IsHash other
    → cmp self other ≡ compare (from_be_bytes 0 self) (from_be_bytes 0 other)
unfolding cmp
cmp-eq-compare self other h k =
    let (p, q) = from_be_bytes-halves self h in
    let (r, s) = from_be_bytes-halves other k in ground arith

digit_eq : (x y p r s : ℕ) → r < p → s < p → x * p + r ≡ y * p + s → (x ≡ y) × (r ≡ s)
digit_eq x y p r s hr hs e = elim (dec_lt x y) [
  | yes l ↦ absurd (grind arith)
  | no l ↦ elim (dec_lt y x) [
    | yes m ↦ absurd (grind arith)
    | no m ↦ let q : x ≡ y = omega arith in (q, omega (arith, ap (λ (t : ℕ). t * p) q))
  ]
]

from_be_bytes-cons :
    (x : ℕ) (b : List ℕ) → from_be_bytes 0 (x ∷ b) ≡ x * 256 ^ length b + from_be_bytes 0 b
unfolding from_be_bytes
from_be_bytes-cons x b = rw (from_be_bytes-acc (0 + x) b) (omega arith)

from_be_bytes-injective :
    (a b : List ℕ)
    → All (λ x. x < 256) a
    → All (λ x. x < 256) b
    → length a ≡ length b
    → from_be_bytes 0 a ≡ from_be_bytes 0 b
    → a ≡ b
unfolding from_be_bytes
from_be_bytes-injective [] [] h k n e = refl
from_be_bytes-injective [] (y ∷ b) h k n e = absurd (omega (arith, n))
from_be_bytes-injective (x ∷ a) [] h k n e = absurd (omega arith)
from_be_bytes-injective (x ∷ a) (y ∷ b) h k n e =
    let m : length a ≡ length b = omega arith in
    let la = from_be_bytes-lt a h.1 in
    let lb = from_be_bytes-lt b k.1 in
    let same : x * 256 ^ length b + from_be_bytes 0 a ≡ y * 256 ^ length b + from_be_bytes 0 b =
      ap (λ (n : ℕ). x * 256 ^ n + from_be_bytes 0 a) (sym m)
      ∙ (sym (from_be_bytes-cons x a) ∙ (e ∙ from_be_bytes-cons y b)) in
    let d =
      digit_eq x y (256 ^ length b) (from_be_bytes 0 a) (from_be_bytes 0 b) (rw m at la) lb same in
    ap₂ (λ (z : ℕ) (c : List ℕ). z ∷ c) d.0 (from_be_bytes-injective a b h.1 k.1 m d.1)

-- Two hashes of 32 bytes each compare as equal exactly if they have the same bytes.
pub cmp-eq_iff :
    (self other : List ℕ)
    → IsHash self
    → IsHash other
    → (cmp self other ≡ Ordering.eq) ↔ (self ≡ other)
cmp-eq_iff self other h k = rw (cmp-eq-compare self other h k) (
  λ e. from_be_bytes-injective self other h.1 k.1 (h.0 ∙ sym k.0) (ground arith),
  λ e. rw e (ground arith),
)
