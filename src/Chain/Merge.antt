-- ===== src/Chain/Merge.antt =====
-- The merge operators of blockchain/mod.rs. RocksDB hands an operator the stored value, if any, and
-- the operands in the order in which they were merged.
use Prim.Native.Nat.{pred}
use prism_rust_vivek.Prelude.{
  ℕ, ◌<◌, ◌≤◌, ◌≡◌, refl, Bool, true, false, Option, none, some, List, [], ◌∷◌, ◌++◌, ap, elem,
  count, count-append, ◌==◌, if◌then◌else◌, nat_eq, pair_eq, add_u64, arith,
}
use prism_rust_vivek.Crypto.{H256}

-- The last item and the items before it: `Vec::pop` as `swap_remove` uses it.
abbrev pub last_or {ℓ} : {A : Type ℓ} → A → List A → A
last_or a [] = a
last_or a (x ∷ xs) = last_or x xs

abbrev pub drop_last {ℓ} : {A : Type ℓ} → List A → List A
drop_last [] = []
drop_last (x ∷ []) = []
drop_last (x ∷ y ∷ xs) = x ∷ drop_last (y ∷ xs)

-- `swap_remove` at the first vote of a chain: the last item takes its place.
unfoldable pub remove_vote : ℕ → List (ℕ × ℕ) → List (ℕ × ℕ)
remove_vote chain [] = []
remove_vote chain (x ∷ xs) =
    let rest = x ∷ remove_vote chain xs in
    if x.0 == chain then elim xs [ [] ↦ [] | y ∷ ys ↦ last_or y ys ∷ drop_last (y ∷ ys) ] else rest

-- one operand of `vote_vec_merge`: add or remove, chain, level
unfoldable pub vote_op : List (ℕ × ℕ) → Bool × ℕ × ℕ → List (ℕ × ℕ)
unfolding remove_vote elem
vote_op existing (true, chain, level) =
    if elem (chain, level) existing then existing else existing ++ (chain, level) ∷ []
vote_op existing (false, chain, level) = remove_vote chain existing

abbrev pub from_stored {ℓ} : {A : Type ℓ} → A → Option A → A
from_stored a none = a
from_stored a (some b) = b

abbrev pub fold {ℓ κ} : {A : Type ℓ} {B : Type κ} → (A → B → A) → A → List B → A
fold f a [] = a
fold f a (b ∷ bs) = fold f (f a b) bs

unfoldable pub vote_vec_merge : Option (List (ℕ × ℕ)) → List (Bool × ℕ × ℕ) → List (ℕ × ℕ)
unfolding vote_op
vote_vec_merge stored operands = fold vote_op (from_stored [] stored) operands

-- one operand of `h256_vec_append_merge`
unfoldable pub append_op : List H256 → H256 → List H256
unfolding elem
append_op existing hash = if elem hash existing then existing else existing ++ hash ∷ []

unfoldable pub h256_vec_append_merge : Option (List H256) → List H256 → List H256
unfolding append_op
h256_vec_append_merge stored operands = fold append_op (from_stored [] stored) operands

unfoldable pub u64_plus_merge : Option ℕ → List ℕ → ℕ
u64_plus_merge stored operands = fold add_u64 (from_stored 0 stored) operands

-- Votes of one chain in a list of votes.
abbrev pub votes_of : ℕ → List (ℕ × ℕ) → ℕ
votes_of chain = count (λ v. v.0 == chain)

count-move_last :
    (p : ℕ × ℕ → Bool) (y : ℕ × ℕ) (ys : List (ℕ × ℕ))
    → count p (last_or y ys ∷ drop_last (y ∷ ys)) ≡ count p (y ∷ ys)
count-move_last p y [] = refl
count-move_last p y (z ∷ zs) = omega (arith, count-move_last p z zs)

votes_of-remove_vote :
    (c k : ℕ) (votes : List (ℕ × ℕ))
    → votes_of c (remove_vote k votes)
      ≡ (if c == k then pred (votes_of c votes) else votes_of c votes)
unfolding remove_vote
votes_of-remove_vote c k [] = ground arith
votes_of-remove_vote c k (x ∷ []) = ground arith
votes_of-remove_vote c k (x ∷ y ∷ ys) =
    ground (arith, count-move_last (λ v. v.0 == c) y ys, votes_of-remove_vote c k (y ∷ ys))

elem-votes_of :
    (c level : ℕ) (votes : List (ℕ × ℕ)) → elem (c, level) votes ≡ true → 0 < votes_of c votes
unfolding elem
elem-votes_of c level [] h = cc
elem-votes_of c level (v ∷ votes) h = ground (arith, elem-votes_of c level votes)

-- What a list of votes holds for each chain after a vote of chain `c` is replaced: one vote for `c`,
-- and as many as before for every other chain, if `c` had one vote at most.
pub replace_vote :
    (c k old level : ℕ) (votes : List (ℕ × ℕ))
    → votes_of c votes ≤ 1
    → votes_of k (vote_vec_merge (some votes) ((false, c, old) ∷ (true, c, level) ∷ []))
      ≡ (if k == c then 1 else votes_of k votes)
unfolding vote_vec_merge
replace_vote c k old level votes h = ground (
  arith,
  votes_of-remove_vote c c votes,
  votes_of-remove_vote k c votes,
  elem-votes_of c level (remove_vote c votes),
  count-append (λ v. v.0 == k) (remove_vote c votes) ((c, level) ∷ []),
)

fold-append {ℓ κ} :
    {A : Type ℓ} {B : Type κ} (f : A → B → A) (a : A) (xs ys : List B)
    → fold f a (xs ++ ys) ≡ fold f (fold f a xs) ys
fold-append f a [] ys = refl
fold-append f a (x ∷ xs) ys = fold-append f (f a x) xs ys

-- Merging operands in two batches is merging them at once, for each of the three operators.
pub merge-append :
    (votes : Option (List (ℕ × ℕ))) (a b : List (Bool × ℕ × ℕ)) (hashes : Option (List H256))
    (g h : List H256) (number : Option ℕ) (m n : List ℕ)
    → (vote_vec_merge votes (a ++ b) ≡ vote_vec_merge (some (vote_vec_merge votes a)) b)
      × (h256_vec_append_merge hashes (g ++ h)
          ≡ h256_vec_append_merge (some (h256_vec_append_merge hashes g)) h)
      × (u64_plus_merge number (m ++ n) ≡ u64_plus_merge (some (u64_plus_merge number m)) n)
unfolding vote_vec_merge h256_vec_append_merge u64_plus_merge
merge-append votes a b hashes g h number m n = (
  fold-append vote_op (from_stored [] votes) a b,
  fold-append append_op (from_stored [] hashes) g h,
  fold-append add_u64 (from_stored 0 number) m n,
)

elem-snoc :
    (x y : H256) (s : List H256) → elem x (s ++ y ∷ []) ≡ (if elem x s then true else y == x)
unfolding elem
elem-snoc x y [] = ground arith
elem-snoc x y (z ∷ s) = ground (arith, elem-snoc x y s)

elem-append_op :
    (x y : H256) (s : List H256) → elem x (append_op s y) ≡ (if elem x s then true else y == x)
unfolding append_op
elem-append_op x y s = ground (arith, elem-snoc x y s, ap (λ (z : H256). elem z s))

elem-fold :
    (x : H256) (s operands : List H256)
    → elem x (fold append_op s operands) ≡ (if elem x s then true else elem x operands)
unfolding elem
elem-fold x s [] = ground arith
elem-fold x s (y ∷ operands) =
    ground (arith, elem-fold x (append_op s y) operands, elem-append_op x y s)

-- Every hash stands in a list once at most.
abbrev pub IsDistinct : List H256 → Type 0
IsDistinct s = (x : H256) → count (λ y. y == x) s ≤ 1

count-absent : (x : H256) (s : List H256) → elem x s ≡ false → count (λ y. y == x) s ≡ 0
unfolding elem
count-absent x [] h = refl
count-absent x (y ∷ s) h = ground (arith, count-absent x s)

append_op-IsDistinct : (s : List H256) (y : H256) → IsDistinct s → IsDistinct (append_op s y)
unfolding append_op
append_op-IsDistinct s y d x = ground (
  arith,
  d x,
  count-append (λ z. z == x) s (y ∷ []),
  count-absent x s,
  ap (λ (z : H256). elem z s),
)

fold-IsDistinct : (s operands : List H256) → IsDistinct s → IsDistinct (fold append_op s operands)
fold-IsDistinct s [] d = d
fold-IsDistinct s (y ∷ operands) d =
    fold-IsDistinct (append_op s y) operands (append_op-IsDistinct s y d)

pub elem-h256_vec_append_merge :
    (stored : Option (List H256)) (operands : List H256) (x : H256)
    → elem x (h256_vec_append_merge stored operands)
      ≡ (if elem x (from_stored [] stored) then true else elem x operands)
unfolding h256_vec_append_merge
elem-h256_vec_append_merge stored operands x = elem-fold x (from_stored [] stored) operands

-- If the stored list repeats no hash, `h256_vec_append_merge` holds exactly the stored hashes and the
-- operands, and repeats none.
pub h256_vec_append_merge_lem :
    (stored : Option (List H256)) (operands : List H256) (x : H256)
    → IsDistinct (from_stored [] stored)
    → (elem x (h256_vec_append_merge stored operands)
        ≡ (if elem x (from_stored [] stored) then true else elem x operands))
      × IsDistinct (h256_vec_append_merge stored operands)
unfolding h256_vec_append_merge
h256_vec_append_merge_lem stored operands x distinct = (
  elem-fold x (from_stored [] stored) operands,
  fold-IsDistinct (from_stored [] stored) operands distinct,
)
