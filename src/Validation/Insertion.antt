-- ===== src/Validation/Insertion.antt =====
-- A block that passes `check_data_availability` can be inserted: no `unwrap` of `insert_block` fails.
use mathlib.Core.Path.{subst}
use prism_rust_vivek.Prelude.{
  ℕ, ◌≡◌, refl, Bool, true, not, none, some, List, [], ◌∷◌, ◌++◌, filter, All, lookup, contains_key,
  nat_eq, if◌then◌else◌, arith, Bool-cases, Option-cases, inl, inr,
}
use prism_rust_vivek.Crypto.{H256}
use prism_rust_vivek.Block.{
  Block, Header, Content, proposer, voter, transaction, block_hash, ProposerContent, VoterContent,
}
use prism_rust_vivek.Chain.State.{BlockChain}
use prism_rust_vivek.Chain.Insert.{insert_content, insert_block, insert_transaction}
use prism_rust_vivek.Chain.Query.{contains_proposer, contains_voter, contains_transaction}
use prism_rust_vivek.Chain.Forest.{
  IsForest, HasRoom, insert_proposer-IsForest, insert_voter-IsForest, insert_transaction-IsForest,
}
use prism_rust_vivek.Chain.Extends.{Extends, insert_content-Extends}
use prism_rust_vivek.Validation.{
  check_data_availability, availability, pass, missing_in_content, proposer_missing_references,
  voter_missing_references,
}

pub contains_key-some :
    (h : H256) (m : List (H256 × ℕ)) → contains_key h m ≡ true → (l : ℕ) × (lookup h m ≡ some l)
contains_key-some h m e = elim (Option-cases (lookup h m)) [
  | inl out ↦ absurd (ground (arith, out))
  | inr (l, found) ↦ (l, found)
]

pub contains_proposer-some :
    (c : BlockChain) (h : H256)
    → contains_proposer c h ≡ true
    → (l : ℕ) × (lookup h c.proposer_node_level ≡ some l)
unfolding contains_proposer
contains_proposer-some c h e = contains_key-some h c.proposer_node_level e

contains_voter-some :
    (c : BlockChain) (h : H256)
    → contains_voter c h ≡ true
    → (l : ℕ) × (lookup h c.voter_node_level ≡ some l)
unfolding contains_voter
contains_voter-some c h e = contains_key-some h c.voter_node_level e

filter-none :
    (p : H256 → Bool) (hashes : List H256)
    → filter (λ h. not (p h)) hashes ≡ []
    → All (λ h. p h ≡ true) hashes
filter-none p [] e = tt
filter-none p (h ∷ hashes) e = elim (Bool-cases (p h)) [
  | inl there ↦ (there, filter-none p hashes (ground arith))
  | inr absent ↦ absurd (ground arith)
]

append-nil : (a b : List H256) → a ++ b ≡ [] → (a ≡ []) × (b ≡ [])
append-nil [] b e = (refl, e)
append-nil (x ∷ a) b e = absurd (cc e)

availability-pass : (missing : List H256) → availability missing ≡ pass → missing ≡ []
availability-pass [] e = refl
availability-pass (h ∷ missing) e = absurd (cc e)

-- What is there when no reference is missing.
pub availability-parent :
    (block : Block) (c : BlockChain)
    → check_data_availability block c ≡ pass
    → ((l : ℕ) × (lookup block.header.parent c.proposer_node_level ≡ some l))
      × (missing_in_content block.content c ≡ [])
unfolding check_data_availability
availability-parent block c e = elim (Bool-cases (contains_proposer c block.header.parent)) [
  | inr out ↦
      let bad : availability (block.header.parent ∷ missing_in_content block.content c) ≡ pass =
        rw out at e in
      absurd (cc bad)
  | inl found ↦
      let none_missing : availability (missing_in_content block.content c) ≡ pass = rw found at e in
      (
        contains_proposer-some c block.header.parent found,
        availability-pass (missing_in_content block.content c) none_missing,
      )
]

pub voter-references :
    (content : VoterContent) (c : BlockChain)
    → missing_in_content (voter content) c ≡ []
    → ((l : ℕ) × (lookup content.voter_parent c.voter_node_level ≡ some l))
      × All (λ h. contains_proposer c h ≡ true) content.votes
unfolding missing_in_content voter_missing_references
voter-references content c e =
    let (parent, votes) =
      append-nil (if contains_voter c content.voter_parent then [] else content.voter_parent ∷ [])
        (filter (λ h. not (contains_proposer c h)) content.votes) e in
    (
      elim (Bool-cases (contains_voter c content.voter_parent)) [
        | inr out ↦ let bad : content.voter_parent ∷ [] ≡ [] = rw out at parent in absurd (cc bad)
        | inl there ↦ contains_voter-some c content.voter_parent there
      ],
      filter-none (contains_proposer c) content.votes votes,
    )

pub proposer-references :
    (content : ProposerContent) (c : BlockChain)
    → missing_in_content (proposer content) c ≡ []
    → All (λ h. contains_proposer c h ≡ true) content.proposer_refs
unfolding missing_in_content proposer_missing_references
proposer-references content c e =
    filter-none (contains_proposer c) content.proposer_refs
      (append-nil (filter (λ h. not (contains_transaction c h)) content.transaction_refs)
        (filter (λ h. not (contains_proposer c h)) content.proposer_refs) e).1

insert_content-IsForest :
    (hash parent : H256) (content : Content) (c : BlockChain) (n : ℕ)
    → IsForest c
    → HasRoom c
    → lookup hash c.proposer_node_level ≡ none
    → lookup hash c.voter_node_level ≡ none
    → lookup parent c.proposer_node_level ≡ some n
    → missing_in_content content c ≡ []
    → (d : BlockChain) × (insert_content hash parent content c ≡ some d) × IsForest d
unfolding insert_content
insert_content-IsForest hash parent (proposer content) c n f room p v above e =
    insert_proposer-IsForest hash parent content c n f room p above
insert_content-IsForest hash parent (voter content) c n f room p v above e =
    let ((l, known), _) = voter-references content c e in
    insert_voter-IsForest hash parent content c l n f room v known above
insert_content-IsForest hash parent (transaction content) c n f room p v above e =
    (insert_transaction hash parent c, refl, insert_transaction-IsForest hash parent c f)

-- In a forest with room for another level, a block of a new hash that passes
-- `check_data_availability` is inserted by `insert_block`, which does not panic, and leaves a forest.
pub insert_block-IsForest :
    (header_hash : Header → H256) (block : Block) (c : BlockChain)
    → IsForest c
    → HasRoom c
    → lookup (block_hash header_hash block) c.proposer_node_level ≡ none
    → lookup (block_hash header_hash block) c.voter_node_level ≡ none
    → check_data_availability block c ≡ pass
    → (d : BlockChain) × (insert_block header_hash block c ≡ some d) × IsForest d
unfolding insert_block
insert_block-IsForest header_hash block c f room new_proposer new_voter e =
    let ((l, above), complete) = availability-parent block c e in
    insert_content-IsForest (block_hash header_hash block) block.header.parent block.content c l f
      room new_proposer new_voter above complete

-- Such a block changes nothing of the others.
pub insert_block-Extends :
    (header_hash : Header → H256) (block : Block) (c d : BlockChain)
    → IsForest c
    → HasRoom c
    → lookup (block_hash header_hash block) c.proposer_node_level ≡ none
    → lookup (block_hash header_hash block) c.voter_node_level ≡ none
    → check_data_availability block c ≡ pass
    → insert_block header_hash block c ≡ some d
    → Extends (block_hash header_hash block) c d
unfolding insert_block
insert_block-Extends header_hash block c d f room new_proposer new_voter e run =
    let ((l, above), complete) = availability-parent block c e in
    let (d', run', x) =
      insert_content-Extends (block_hash header_hash block) block.header.parent block.content c l f
        room new_proposer new_voter above
        (λ v own. (voter-references v c (rw own at complete)).0) in
    let same : d' ≡ d = cc (run, run') in subst (Extends (block_hash header_hash block) c) same x
