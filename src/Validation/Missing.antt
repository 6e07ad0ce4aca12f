-- ===== src/Validation/Missing.antt =====
-- The references that `check_data_availability` finds missing, under the insertion of a block.
use prism_rust_vivek.Prelude.{
  ◌≡◌, refl, ap, Bool, true, false, not, Option, none, some, List, [], ◌∷◌, ◌++◌, filter, elem,
  elem-append, elem-filter, nat_eq, nat_beq, if◌then◌else◌, arith,
}
use prism_rust_vivek.Crypto.{H256}
use prism_rust_vivek.Block.{Block, Content, proposer, voter, transaction}
use prism_rust_vivek.Chain.State.{BlockChain}
use prism_rust_vivek.Chain.Query.{contains_proposer, contains_voter, contains_transaction}
use prism_rust_vivek.Chain.Extends.{Extends}
use prism_rust_vivek.Validation.{
  check_data_availability, availability, missing_references, missing_in_content,
  proposer_missing_references, voter_missing_references,
}

abbrev pub missing_of : Block → BlockChain → List H256
missing_of block c =
    (if contains_proposer c block.header.parent then [] else block.header.parent ∷ [])
    ++ missing_in_content block.content c

pub check_data_availability-eq :
    (block : Block) (c : BlockChain)
    → check_data_availability block c ≡ availability (missing_of block c)
unfolding check_data_availability
check_data_availability-eq block c = refl

-- A missing reference is enough for `check_data_availability` to fail.
pub unavailable :
    (block : Block) (c : BlockChain) (d : H256)
    → elem d (missing_of block c) ≡ true
    → (r : List H256) × (check_data_availability block c ≡ missing_references r)
unfolding elem
unavailable block c d k = go (missing_of block c) (check_data_availability-eq block c) k
  where
    go :
        (m : List H256)
        → check_data_availability block c ≡ availability m
        → elem d m ≡ true
        → (r : List H256) × (check_data_availability block c ≡ missing_references r)
    go [] e k = absurd (cc k)
    go (h ∷ m) e k = (h ∷ m, e)

-- Whether a hash is missing depends on the chain at this hash alone.
module _ (c c' : BlockChain) (d : H256) (proposers : contains_proposer c' d ≡ contains_proposer c d)
    (voters : contains_voter c' d ≡ contains_voter c d)
    (transactions : contains_transaction c' d ≡ contains_transaction c d) where
  elem-filter_same :
      (p q : H256 → Bool) (hashes : List H256)
      → p d ≡ q d
      → elem d (filter (λ h. not (p h)) hashes) ≡ elem d (filter (λ h. not (q h)) hashes)
  elem-filter_same p q hashes e =
      ground
        (arith, e, elem-filter d (λ h. not (p h)) hashes, elem-filter d (λ h. not (q h)) hashes)

  elem-missing_one :
      (p q : H256 → Bool) (h : H256)
      → p d ≡ q d
      → elem d (if p h then [] else h ∷ []) ≡ elem d (if q h then [] else h ∷ [])
  unfolding elem
  elem-missing_one p q h e = ground (arith, e, ap p, ap q)

  elem-append_same :
      (a b a' b' : List H256)
      → elem d a' ≡ elem d a
      → elem d b' ≡ elem d b
      → elem d (a' ++ b') ≡ elem d (a ++ b)
  elem-append_same a b a' b' e f = ground (arith, e, f, elem-append d a b, elem-append d a' b')

  elem-missing_in_content :
      (content : Content)
      → elem d (missing_in_content content c') ≡ elem d (missing_in_content content c)
  unfolding missing_in_content proposer_missing_references voter_missing_references
  elem-missing_in_content (proposer content) =
      elem-append_same (filter (λ h. not (contains_transaction c h)) content.transaction_refs)
        (filter (λ h. not (contains_proposer c h)) content.proposer_refs)
        (filter (λ h. not (contains_transaction c' h)) content.transaction_refs)
        (filter (λ h. not (contains_proposer c' h)) content.proposer_refs)
        (elem-filter_same (contains_transaction c') (contains_transaction c)
          content.transaction_refs transactions)
        (elem-filter_same (contains_proposer c') (contains_proposer c) content.proposer_refs
          proposers)
  elem-missing_in_content (voter content) =
      elem-append_same
        (if contains_voter c content.voter_parent then [] else content.voter_parent ∷ [])
        (filter (λ h. not (contains_proposer c h)) content.votes)
        (if contains_voter c' content.voter_parent then [] else content.voter_parent ∷ [])
        (filter (λ h. not (contains_proposer c' h)) content.votes)
        (elem-missing_one (contains_voter c') (contains_voter c) content.voter_parent voters)
        (elem-filter_same (contains_proposer c') (contains_proposer c) content.votes proposers)
  elem-missing_in_content (transaction _) = refl

  elem-missing_same : (block : Block) → elem d (missing_of block c') ≡ elem d (missing_of block c)
  elem-missing_same block =
      elem-append_same
        (if contains_proposer c block.header.parent then [] else block.header.parent ∷ [])
        (missing_in_content block.content c)
        (if contains_proposer c' block.header.parent then [] else block.header.parent ∷ [])
        (missing_in_content block.content c')
        (elem-missing_one (contains_proposer c') (contains_proposer c) block.header.parent
          proposers)
        (elem-missing_in_content block.content)

abbrev is_some : Option H256 → Bool
is_some none = false
is_some (some _) = true

-- What is missing stays missing when another block is inserted.
pub elem-missing-Extends :
    (hash : H256) (c c' : BlockChain) (d : H256) (block : Block)
    → Extends hash c c'
    → nat_beq hash d ≡ false
    → elem d (missing_of block c') ≡ elem d (missing_of block c)
unfolding contains_proposer contains_voter contains_transaction
elem-missing-Extends hash c c' d block x other =
    elem-missing_same c c' d (ap is_some (x.proposers d other)) (ap is_some (x.voters d other))
      (ap is_some (x.parents d other)) block
