-- ===== src/Crypto/Tests.antt =====
-- The theorems on hashes and Merkle proofs at concrete inputs.
use Prim.Native.Nat.{compare}
use prism_rust_vivek.Prelude.{
  ℕ, ◌+◌, ◌*◌, ◌<◌, ◌≡◌, ◌↔◌, refl, Bool, true, some, List, [], ◌∷◌, replicate, arith,
}
use prism_rust_vivek.Crypto.{H256}
use prism_rust_vivek.Crypto.Hash.{IsHash, from_be_bytes, cmp, cmp-eq-compare}
use prism_rust_vivek.Crypto.Halvings.{height}
use prism_rust_vivek.Crypto.Merkle.{verify, climb, verify_iff}
use prism_rust_vivek.Crypto.Tree.{new, root, proof, update}
use prism_rust_vivek.Crypto.Tree.Proofs.{verify-proof}
use prism_rust_vivek.Crypto.Tree.Updated.{update-new}

abbrev hash_of : ℕ → List ℕ
hash_of x = x ∷ replicate 31 0

hash_of-IsHash : (x : ℕ) → x < 256 → IsHash (hash_of x)
hash_of-IsHash x h = ground arith

cmp-eq-compare_example :
    cmp (hash_of 3) (hash_of 7)
    ≡ compare (from_be_bytes 0 (hash_of 3)) (from_be_bytes 0 (hash_of 7))
cmp-eq-compare_example =
    cmp-eq-compare (hash_of 3) (hash_of 7) (hash_of-IsHash 3 (omega arith))
      (hash_of-IsHash 7 (omega arith))

-- A stand-in for the hash of two children.
abbrev node : H256 → H256 → H256
node a b = 10 * a + b

-- The tree of the leaves 1, 2, 3: the last leaf is doubled, and the proof of leaf 2 is the leaf and
-- the node over 1 and 2.
verify_three : verify node 153 3 (3 ∷ 12 ∷ []) 2 3 ≡ some true
unfolding verify
verify_three = refl

verify_iff_example :
    (accepted : Bool) × (verify node 153 3 (3 ∷ 12 ∷ []) 2 3 ≡ some accepted)
    × ((accepted ≡ true) ↔ ((2 < 3) × (2 ≡ height 3 3) × (climb node 3 (3 ∷ 12 ∷ []) 2 ≡ 153)))
verify_iff_example = verify_iff node 153 3 (3 ∷ 12 ∷ []) 2 3 (omega arith)

updated_five :
    update node (λ (x : ℕ). x) 4 9 (new node (λ x. x) (1 ∷ 2 ∷ 3 ∷ 4 ∷ 5 ∷ []))
    ≡ some (new node (λ x. x) (1 ∷ 2 ∷ 3 ∷ 4 ∷ 9 ∷ []))
unfolding update new
updated_five = refl

updated_inner :
    update node (λ (x : ℕ). x) 2 9 (new node (λ x. x) (1 ∷ 2 ∷ 3 ∷ 4 ∷ 5 ∷ 6 ∷ []))
    ≡ some (new node (λ x. x) (1 ∷ 2 ∷ 9 ∷ 4 ∷ 5 ∷ 6 ∷ []))
unfolding update new
updated_inner = refl

verify-proof_example :
    (results : List H256) × (proof (new node (λ (x : ℕ). x) (1 ∷ 2 ∷ 3 ∷ [])) 2 ≡ some results)
    × (verify node (root (new node (λ (x : ℕ). x) (1 ∷ 2 ∷ 3 ∷ []))) 3 results 2 3 ≡ some true)
verify-proof_example =
    verify-proof node (λ (x : ℕ). x) (1 ∷ 2 ∷ 3 ∷ []) 2 {item = 3} (omega arith) refl

update-new_example :
    update node (λ (x : ℕ). x) 2 9 (new node (λ x. x) (1 ∷ 2 ∷ 3 ∷ []))
    ≡ some (new node (λ x. x) (1 ∷ 2 ∷ 9 ∷ []))
update-new_example = update-new node (λ x. x) (1 ∷ 2 ∷ 3 ∷ []) 2 9
