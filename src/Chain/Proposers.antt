-- ===== src/Chain/Proposers.antt =====
-- The tree of proposer blocks stays in order under every insertion.
use prism_rust_vivek.Prelude.{
  discard_all, elem-discard_all, ℕ, ◌+◌, ◌%◌, ◌^◌, ◌<◌, ◌≤◌, ◌≡◌, refl, ap, ◌∙◌, true, false, none,
  some, List, [], ◌∷◌, lookup, insert, lookup-insert, elem, add, discard, elem-add, elem-discard,
  ltb, ◌==◌, if◌then◌else◌, nat_eq, nat_beq, arith, Bool-cases, Option-cases, inl, inr, Table,
}
use prism_rust_vivek.Crypto.{H256}
use prism_rust_vivek.Block.{ProposerContent}
use prism_rust_vivek.Chain.State.{BlockChain}
use prism_rust_vivek.Chain.Merge.{h256_vec_append_merge, elem-h256_vec_append_merge, from_stored}
use prism_rust_vivek.Chain.Insert.{insert_proposer}
use prism_rust_vivek.Chain.Query.{best_proposer}

-- The part of the state that holds the proposer tree.
pub record IsProposerTree (c : BlockChain) : Type 0 where
  -- a block of a level is listed at that level, and the other way round
  pub listed :
      (h : H256) (l : ℕ)
      → lookup h c.proposer_node_level ≡ some l
      → (blocks : List H256) × (lookup l c.proposer_tree_level ≡ some blocks)
        × (elem h blocks ≡ true)
  pub leveled :
      (l : ℕ) (blocks : List H256) (h : H256)
      → lookup l c.proposer_tree_level ≡ some blocks
      → elem h blocks ≡ true
      → lookup h c.proposer_node_level ≡ some l
  -- the levels up to the best level have a block, and no others
  pub filled :
      (l : ℕ)
      → l ≤ c.proposer_best_level
      → (h : H256) × (blocks : List H256) × (lookup l c.proposer_tree_level ≡ some (h ∷ blocks))
  pub best :
      (h : H256) (l : ℕ) → lookup h c.proposer_node_level ≡ some l → l ≤ c.proposer_best_level
  -- what waits to be referred is in the tree
  pub unreferred :
      (h : H256)
      → elem h c.unreferred_proposers ≡ true
      → (l : ℕ) × (lookup h c.proposer_node_level ≡ some l)

-- The miner's parent is there: the best level has a first block, and that block has this level.
pub best_proposer_lem :
    (c : BlockChain)
    → IsProposerTree c
    → (h : H256) × (best_proposer c ≡ some h)
      × (lookup h c.proposer_node_level ≡ some c.proposer_best_level)
unfolding best_proposer
best_proposer_lem c v =
    let (h, blocks, e) = v.filled c.proposer_best_level (omega arith) in
    (
      h,
      ground arith,
      v.leveled c.proposer_best_level (h ∷ blocks) h e (unfold elem in ground arith),
    )

elem-nil : (x : H256) → elem x [] ≡ false
unfolding elem
elem-nil x = refl

elem-cons :
    (x : H256) (s : List H256) → elem x s ≡ true → (h : H256) × (t : List H256) × (s ≡ h ∷ t)
elem-cons x [] e = absurd (cc (elem-nil x))
elem-cons x (y ∷ s) e = (y, s, refl)

module _ (hash parent : H256) (content : ProposerContent) (c : BlockChain) (v : IsProposerTree c)
    (fresh : lookup hash c.proposer_node_level ≡ none) (room : c.proposer_best_level + 1 < 2 ^ 64)
    (parent_level : ℕ) (known : lookup parent c.proposer_node_level ≡ some parent_level) where
  abbrev self_level : ℕ
  self_level = (parent_level + 1) % 2 ^ 64

  self_level-le : (self_level ≡ parent_level + 1) × (self_level ≤ c.proposer_best_level + 1)
  self_level-le = let l = v.best parent parent_level known in (omega arith, omega arith)

  abbrev at_self : List H256
  at_self = h256_vec_append_merge (lookup self_level c.proposer_tree_level) (hash ∷ [])

  abbrev levels : Table H256 ℕ
  levels = insert hash self_level c.proposer_node_level

  abbrev tree : Table ℕ (List H256)
  tree = insert self_level at_self c.proposer_tree_level

  elem-at_self :
      (x : H256)
      → elem x at_self ≡ (
          if elem x (from_stored [] (lookup self_level c.proposer_tree_level))
          then true
          else hash == x)
  elem-at_self x =
      elem-h256_vec_append_merge (lookup self_level c.proposer_tree_level) (hash ∷ []) x
      ∙ (unfold elem in ground arith)

  new-listed :
      (h : H256) (l : ℕ)
      → lookup h levels ≡ some l
      → (blocks : List H256) × (lookup l tree ≡ some blocks) × (elem h blocks ≡ true)
  new-listed h l q = elim (Bool-cases (nat_beq hash h)) [
    | inl same ↦ (
      at_self,
      ground (
        arith,
        lookup-insert hash h self_level c.proposer_node_level,
        lookup-insert self_level l at_self c.proposer_tree_level,
      ),
      ground (arith, elem-at_self h),
    )
    | inr other ↦
        let (blocks, e, there) =
          v.listed h l (ground (arith, lookup-insert hash h self_level c.proposer_node_level)) in
        elim (Bool-cases (nat_beq self_level l)) [
          | inl here ↦ (
            at_self,
            ground (arith, lookup-insert self_level l at_self c.proposer_tree_level),
            ground (arith, elem-at_self h, ap (λ (n : ℕ). lookup n c.proposer_tree_level)),
          )
          | inr away ↦ (
            blocks,
            ground (arith, lookup-insert self_level l at_self c.proposer_tree_level, e),
            there,
          )
        ]
  ]

  new-leveled_here :
      (l : ℕ) (h : H256) → self_level ≡ l → elem h at_self ≡ true → lookup h levels ≡ some l
  new-leveled_here l h here there = elim (Bool-cases (nat_beq hash h)) [
    | inl same ↦ ground (arith, lookup-insert hash h self_level c.proposer_node_level)
    | inr other ↦ elim (Option-cases (lookup self_level c.proposer_tree_level)) [
      | inl empty ↦ absurd (ground (arith, elem-at_self h, elem-nil h))
      | inr (old, e) ↦
          let at_old = v.leveled self_level old h e (ground (arith, elem-at_self h)) in
          ground (arith, at_old, lookup-insert hash h self_level c.proposer_node_level)
    ]
  ]

  new-leveled :
      (l : ℕ) (blocks : List H256) (h : H256)
      → lookup l tree ≡ some blocks
      → elem h blocks ≡ true
      → lookup h levels ≡ some l
  new-leveled l blocks h q there = elim (Bool-cases (nat_beq self_level l)) [
    | inl here ↦
        new-leveled_here l h (ground arith)
          (ground (arith, lookup-insert self_level l at_self c.proposer_tree_level, ap (elem h)))
    | inr away ↦
        let old =
          v.leveled l blocks h
            (ground (arith, lookup-insert self_level l at_self c.proposer_tree_level)) there in
        ground (
          arith,
          old,
          lookup-insert hash h self_level c.proposer_node_level,
          ap (λ (x : H256). lookup x c.proposer_node_level),
        )
  ]

  abbrev best_level : ℕ
  best_level = if ltb c.proposer_best_level self_level then self_level else c.proposer_best_level

  new-filled :
      (l : ℕ)
      → l ≤ best_level
      → (h : H256) × (blocks : List H256) × (lookup l tree ≡ some (h ∷ blocks))
  new-filled l le = elim (Bool-cases (nat_beq self_level l)) [
    | inl here ↦
        let (h, blocks, e) = elem-cons hash at_self (ground (arith, elem-at_self hash)) in
        (h, blocks, ground (arith, e, lookup-insert self_level l at_self c.proposer_tree_level))
    | inr away ↦
        let (h, blocks, e) = v.filled l (ground (arith, self_level-le)) in
        (h, blocks, ground (arith, e, lookup-insert self_level l at_self c.proposer_tree_level))
  ]

  new-best : (h : H256) (l : ℕ) → lookup h levels ≡ some l → l ≤ best_level
  new-best h l q = ground (arith, lookup-insert hash h self_level c.proposer_node_level, v.best h l)

  abbrev waiting : List H256
  waiting = discard parent (discard_all content.proposer_refs (add hash c.unreferred_proposers))

  new-unreferred : (h : H256) → elem h waiting ≡ true → (l : ℕ) × (lookup h levels ≡ some l)
  new-unreferred h q = elim (Bool-cases (nat_beq hash h)) [
    | inl same ↦ (self_level, ground (arith, lookup-insert hash h self_level c.proposer_node_level))
    | inr other ↦
        let waited : elem h (discard_all content.proposer_refs (add hash c.unreferred_proposers))
            ≡ true =
          ground (
            arith,
            elem-discard parent h
                (discard_all content.proposer_refs (add hash c.unreferred_proposers)),
          ) in
        let (l, e) = v.unreferred h (
          ground (
            arith,
            elem-discard_all h content.proposer_refs (add hash c.unreferred_proposers),
            elem-add hash h c.unreferred_proposers,
          )) in
        (l, ground (arith, e, lookup-insert hash h self_level c.proposer_node_level))
  ]

  abbrev pub grown : BlockChain
  grown = record c {
    parent_neighbor = insert hash parent c.parent_neighbor;
    proposer_ref_neighbor = insert hash (parent ∷ content.proposer_refs) c.proposer_ref_neighbor;
    transaction_ref_neighbor = insert hash content.transaction_refs c.transaction_ref_neighbor;
    proposer_node_level = levels;
    proposer_tree_level = tree;
    unconfirmed_proposers = add hash c.unconfirmed_proposers;
    proposer_best_level = best_level;
    unreferred_proposers = waiting;
    unreferred_transactions = discard_all content.transaction_refs c.unreferred_transactions;
  }

  pub insert_proposer_known :
      (insert_proposer hash parent content c ≡ some grown) × IsProposerTree grown
  unfolding insert_proposer
  insert_proposer_known = (
    ground arith,
    record {
      listed = new-listed;
      leveled = new-leveled;
      filled = new-filled;
      best = new-best;
      unreferred = new-unreferred;
    },
  )

-- A proposer block with a new hash whose parent is in the tree is inserted, at the level after its
-- parent, and the tree stays in order. Levels stay below 2 ^ 64.
pub insert_proposer-IsProposerTree :
    (hash parent : H256) (content : ProposerContent) (c : BlockChain) (l : ℕ)
    → IsProposerTree c
    → lookup hash c.proposer_node_level ≡ none
    → c.proposer_best_level + 1 < 2 ^ 64
    → lookup parent c.proposer_node_level ≡ some l
    → (d : BlockChain) × (insert_proposer hash parent content c ≡ some d)
      × IsProposerTree d
      × (lookup hash d.proposer_node_level ≡ some (l + 1))
insert_proposer-IsProposerTree hash parent content c l v fresh room known =
    let (run, tree) = insert_proposer_known hash parent content c v fresh room l known in
    (
      grown hash parent content c v fresh room l known,
      run,
      tree,
      ground (
        arith,
        self_level-le hash parent content c v fresh room l known,
        lookup-insert hash hash ((l + 1) % 2 ^ 64) c.proposer_node_level,
      ),
    )
