-- ===== src/Chain/Votes.antt =====
-- `unvoted_proposer`: the miner's votes. On each level the vote goes to the block with the most votes,
-- and of several to the one of the lowest hash.
use prism_rust_vivek.Prelude.{
  ℕ, zero, suc, ◌+◌, ◌-◌, ◌<◌, ◌≤◌, ◌≡◌, ◌^◌, add_u64, ◌⊎◌, refl, sym, ap, ◌∙◌, true, none, some,
  List, [], ◌∷◌, All, length, lookup, elem, nat_eq, leb, ltb, ◌==◌, if◌then◌else◌, arith,
  Bool-cases, inl, inr,
}
use prism_rust_vivek.Crypto.{H256}
use prism_rust_vivek.Chain.State.{BlockChain}
use prism_rust_vivek.Chain.Query.{
  insert_sorted, sort, vote_count, best_vote, vote_levels, unvoted_proposer,
}
use prism_rust_vivek.Chain.Proposers.{IsProposerTree}

abbrev IsSorted : List H256 → Type 0
IsSorted [] = Unit
IsSorted (x ∷ xs) = All (λ y. x ≤ y) xs × IsSorted xs

All-weaken : (a b : ℕ) (xs : List ℕ) → a ≤ b → All (λ y. b ≤ y) xs → All (λ y. a ≤ y) xs
All-weaken a b [] h k = tt
All-weaken a b (x ∷ xs) h (p, k) = (omega arith, All-weaken a b xs h k)

All-insert_sorted :
    (a x : ℕ) (xs : List ℕ) → a ≤ x → All (λ y. a ≤ y) xs → All (λ y. a ≤ y) (insert_sorted x xs)
unfolding insert_sorted
All-insert_sorted a x [] h k = (h, tt)
All-insert_sorted a x (y ∷ xs) h (p, k) = elim (Bool-cases (leb x y)) [
  | inl le ↦ rw le (h, (p, k))
  | inr gt ↦ rw gt (p, All-insert_sorted a x xs h k)
]

insert_sorted-IsSorted : (x : ℕ) (xs : List ℕ) → IsSorted xs → IsSorted (insert_sorted x xs)
unfolding insert_sorted
insert_sorted-IsSorted x [] h = (tt, tt)
insert_sorted-IsSorted x (y ∷ xs) (p, h) = elim (Bool-cases (leb x y)) [
  | inl le ↦ let e : x ≤ y = ground arith in rw le ((e, All-weaken x y xs e p), (p, h))
  | inr gt ↦ rw gt (All-insert_sorted y x xs (ground arith) p, insert_sorted-IsSorted x xs h)
]

sort-IsSorted : (xs : List ℕ) → IsSorted (sort xs)
unfolding sort
sort-IsSorted [] = tt
sort-IsSorted (x ∷ xs) = insert_sorted-IsSorted x (sort xs) (sort-IsSorted xs)

elem-insert_sorted :
    (x y : ℕ) (xs : List ℕ) → elem y (insert_sorted x xs) ≡ (if x == y then true else elem y xs)
unfolding insert_sorted elem
elem-insert_sorted x y [] = refl
elem-insert_sorted x y (z ∷ xs) = ground (arith, elem-insert_sorted x y xs)

elem-sort : (y : ℕ) (xs : List ℕ) → elem y (sort xs) ≡ elem y xs
unfolding sort elem
elem-sort y [] = refl
elem-sort y (x ∷ xs) = elem-insert_sorted x y (sort xs) ∙ ground (arith, elem-sort y xs)

-- `h` is the choice on a level with these blocks.
pub record Wins (c : BlockChain) (blocks : List H256) (h : H256) : Type 0 where
  pub listed : elem h blocks ≡ true
  pub most :
      (x : H256)
      → elem x blocks ≡ true
      → (vote_count c x < vote_count c h) ⊎ ((vote_count c x ≡ vote_count c h) × (h ≤ x))

-- The loop, from a best block that no later one is below.
best_vote-Wins :
    (c : BlockChain) (b : H256) (blocks : List H256)
    → All (λ y. b ≤ y) blocks
    → IsSorted blocks
    → (h : H256) × (best_vote c (some (b, vote_count c b)) blocks ≡ some (h, vote_count c h))
      × Wins c (b ∷ blocks) h
unfolding best_vote elem
best_vote-Wins c b [] p s =
    (b, refl, record { listed = ground arith; most = λ x e. ground (arith, ap (vote_count c)) })
best_vote-Wins c b (y ∷ blocks) (le, p) (q, s) =
    elim (Bool-cases (ltb (vote_count c b) (vote_count c y))) [
      | inl more ↦
          let (h, e, w) = best_vote-Wins c y blocks q s in
          (
            h,
            rw more e,
            record {
              listed = ground (arith, w.listed);
              most = λ x k. ground (arith, w.most x, w.most y, ap (vote_count c));
            },
          )
      | inr no_more ↦
          let (h, e, w) = best_vote-Wins c b blocks p s in
          (
            h,
            rw no_more e,
            record {
              listed = ground (arith, w.listed);
              most = λ x k. ground (arith, w.most x, w.most b, ap (vote_count c));
            },
          )
    ]

sorted-Wins :
    (c : BlockChain) (x : H256) (s : List H256)
    → IsSorted s
    → elem x s ≡ true
    → (h : H256) × (best_vote c none s ≡ some (h, vote_count c h)) × Wins c s h
unfolding best_vote elem
sorted-Wins c x [] s e = absurd (cc e)
sorted-Wins c x (b ∷ blocks) (p, s) e = best_vote-Wins c b blocks p s

-- The choice among the blocks of a level that has one.
choice-Wins :
    (c : BlockChain) (x : H256) (blocks : List H256)
    → elem x blocks ≡ true
    → (h : H256) × (best_vote c none (sort blocks) ≡ some (h, vote_count c h)) × Wins c blocks h
choice-Wins c x blocks e =
    let (h, run, w) =
      sorted-Wins c x (sort blocks) (sort-IsSorted blocks) (elem-sort x blocks ∙ e) in
    (
      h,
      run,
      record {
        listed = sym (elem-sort h blocks) ∙ w.listed;
        most = λ y k. w.most y (elem-sort y blocks ∙ k);
      },
    )

-- One vote for each level after `start`, in order, each the choice on its level.
abbrev pub Chosen : BlockChain → ℕ → List H256 → Type 0
Chosen c start [] = Unit
Chosen c start (vote ∷ votes) =
    ((blocks : List H256) × (lookup (start + 1) c.proposer_tree_level ≡ some blocks)
      × Wins c blocks vote)
    × Chosen c (start + 1) votes

vote_levels-Chosen :
    (c : BlockChain) (start rounds : ℕ)
    → IsProposerTree c
    → start + rounds ≤ c.proposer_best_level
    → (votes : List H256) × (vote_levels c (start + 1) rounds ≡ some votes)
      × (length votes ≡ rounds)
      × Chosen c start votes
unfolding vote_levels
vote_levels-Chosen c start zero v le = ([], refl, refl, tt)
vote_levels-Chosen c start (suc rounds) v le =
    let (x, rest, there) = v.filled (start + 1) (omega arith) in
    let x_listed : elem x (x ∷ rest) ≡ true = unfold elem in ground arith in
    let (h, won, w) = choice-Wins c x (x ∷ rest) x_listed in
    let (votes, run, len, chosen) = vote_levels-Chosen c (start + 1) rounds v (omega arith) in
    (h ∷ votes, rw (there, won, run) refl, omega (arith, len), ((x ∷ rest, there, w), chosen))

-- For a tip that has voted up to a level `n` that is not the last number of 64 bits, and a proposer parent of level `m`, `unvoted_proposer`
-- returns one vote for each level after `n` up to `m`, in order. The vote is for a block of its
-- level with the most votes, and of several such blocks for the one with the lowest hash.
pub unvoted_proposer_lem :
    (c : BlockChain) (tip parent : H256) (n m : ℕ)
    → IsProposerTree c
    → n + 1 < 2 ^ 64
    → lookup tip c.voter_node_voted_level ≡ some n
    → lookup parent c.proposer_node_level ≡ some m
    → (votes : List H256) × (unvoted_proposer c tip parent ≡ some votes)
      × (length votes ≡ m - n)
      × Chosen c n votes
unfolding unvoted_proposer
unvoted_proposer_lem c tip parent n m v small voted above =
    let start : add_u64 n 1 ≡ n + 1 = omega arith in
    let rounds : m + 1 - (n + 1) ≡ m - n = omega arith in
    let le = v.best parent m above in
    elim (Bool-cases (leb n m)) [
      | inl up ↦
          let (votes, run, len, chosen) = vote_levels-Chosen c n (m - n) v (ground (arith, le)) in
          (votes, rw (voted, above, start, rounds) run, len, chosen)
      | inr down ↦
          let none_left : m - n ≡ 0 = ground arith in
          (
            [],
            rw (voted, above, start, rounds, none_left) (unfold vote_levels in refl),
            sym none_left,
            tt,
          )
    ]
