-- ===== src/Chain/Paths.antt =====
-- The votes of a voter chain, block by block from its tip down to the genesis block of the chain,
-- and the proof that `vote_diff` is the difference of two such lists.
use mathlib.Core.Path.{subst, ap₂}
use native.Mathlib.Decide.{dec_lt}
use mathlib.Core.List.{append_assoc}
use prism_rust_vivek.Prelude.{
  ℕ, zero, suc, ◌+◌, ◌-◌, ◌<◌, ◌≤◌, ◌≡◌, refl, sym, ap, ◌∙◌, false, some, List, [], ◌++◌, lookup,
  ltb, nat_eq, nat_beq, nat_beq_iff, arith, ltb→lt, Bool-cases, inl, inr,
}
use prism_rust_vivek.Crypto.{H256}
use prism_rust_vivek.Chain.State.{BlockChain}
use prism_rust_vivek.Chain.Diff.{
  Walk, at_level, step_to, step_from, level_loop, meet_loop, vote_diff,
}

-- `ChainPath c genesis tip level votes`: the voter parents lead from the tip down to the genesis block in
-- as many steps as its level, and `votes` are the votes on the way, each with the level it is cast at.
pub data ChainPath (c : BlockChain) (genesis : H256) : H256 → ℕ → List (H256 × ℕ) → Type 0 where
  root : ChainPath c genesis genesis zero []
  link :
      {tip parent : H256} {level : ℕ} {below : List (H256 × ℕ)} (votes : List H256)
      → lookup tip c.vote_neighbor ≡ some votes
      → lookup tip c.voter_parent_neighbor ≡ some parent
      → ChainPath c genesis parent level below
      → ChainPath c genesis tip (suc level) (at_level (suc level) votes ++ below)

-- The walk stands on two paths, and what it collected is the votes above them.
record Stands (c : BlockChain) (g : H256) (s : Walk) (all_to all_from : List (H256 × ℕ))
    : Type 0 where
  left_to : List (H256 × ℕ)
  left_from : List (H256 × ℕ)
  path_to : ChainPath c g s.to s.to_level left_to
  path_from : ChainPath c g s.from s.from_level left_from
  sum_to : s.added ++ left_to ≡ all_to
  sum_from : s.removed ++ left_from ≡ all_from

module _ {c : BlockChain} {g : H256} where
  -- Above level 0 a path has a first link.
  unlink :
      {tip : H256} {level : ℕ} {votes : List (H256 × ℕ)}
      → ChainPath c g tip level votes
      → 0 < level
      → (own : List H256) × (parent : H256) × (below : List (H256 × ℕ)) × (lookup tip
            c.vote_neighbor
          ≡ some own)
        × (lookup tip c.voter_parent_neighbor ≡ some parent)
        × ChainPath c g parent (level - 1) below
        × (votes ≡ at_level level own ++ below)
  unlink root h = elim h [ ]
  unlink (link {parent = p} {level = l} {below = b} own v q path) h =
      let e : suc l - 1 ≡ l = omega arith in (own, p, b, v, q, rw e path, refl)

  at_root :
      {tip : H256} {level : ℕ} {votes : List (H256 × ℕ)}
      → ChainPath c g tip level votes
      → level ≡ 0
      → tip ≡ g
  at_root root h = refl
  at_root (link own v q path) h = absurd (omega (arith, h))

  no_votes :
      {tip : H256} {level : ℕ} {votes : List (H256 × ℕ)}
      → ChainPath c g tip level votes
      → level ≡ 0
      → votes ≡ []
  no_votes root h = refl
  no_votes (link own v q path) h = absurd (omega (arith, h))

  -- A tip and its level fix the votes.
  ChainPath-unique :
      {tip : H256} {level : ℕ} {a : List (H256 × ℕ)}
      → ChainPath c g tip level a
      → (b : List (H256 × ℕ)) → ChainPath c g tip level b
      → a ≡ b
  ChainPath-unique root b q = sym (no_votes q refl)
  ChainPath-unique (link {tip = t} {parent = p} {level = l} {below = below} own v w path) b q =
      let (own', p', below', v', w', path', e) = unlink q (omega arith) in
      let one : suc l - 1 ≡ l = omega arith in
      let same_parent : p' ≡ p = cc (w, w') in
      let same_own : own ≡ own' = cc (v, v') in
      let moved : ChainPath c g p l below' =
        subst (λ (x : H256). ChainPath c g x l below') same_parent
          (subst (λ (n : ℕ). ChainPath c g p' n below') one path') in
      ap₂ (λ (o : List H256) (r : List (H256 × ℕ)). at_level (suc l) o ++ r) same_own
        (ChainPath-unique path below' moved)
      ∙ sym e

  step_to_lem :
      (s : Walk) {a b : List (H256 × ℕ)}
      → Stands c g s a b
      → 0 < s.to_level
      → (t : Walk) × (step_to c s ≡ some t)
        × Stands c g t a b
        × (t.to_level ≡ s.to_level - 1)
        × (t.from_level ≡ s.from_level)
  unfolding step_to
  step_to_lem s st h =
      let (own, p, below, v, w, path, e) = unlink st.path_to h in
      (
        record s { added = s.added ++ at_level s.to_level own; to = p; to_level = s.to_level - 1 },
        ground arith,
        record {
          left_to = below;
          left_from = st.left_from;
          path_to = path;
          path_from = st.path_from;
          sum_to =
              append_assoc s.added (at_level s.to_level own) below
              ∙ (ap (λ (r : List (H256 × ℕ)). s.added ++ r) (sym e) ∙ st.sum_to);
          sum_from = st.sum_from;
        },
        refl,
        refl,
      )

  step_from_lem :
      (s : Walk) {a b : List (H256 × ℕ)}
      → Stands c g s a b
      → 0 < s.from_level
      → (t : Walk) × (step_from c s ≡ some t)
        × Stands c g t a b
        × (t.to_level ≡ s.to_level)
        × (t.from_level ≡ s.from_level - 1)
  unfolding step_from
  step_from_lem s st h =
      let (own, p, below, v, w, path, e) = unlink st.path_from h in
      (
        record s {
          removed = s.removed ++ at_level s.from_level own;
          from = p;
          from_level = s.from_level - 1;
        },
        ground arith,
        record {
          left_to = st.left_to;
          left_from = below;
          path_to = st.path_to;
          path_from = path;
          sum_to = st.sum_to;
          sum_from =
              append_assoc s.removed (at_level s.from_level own) below
              ∙ (ap (λ (r : List (H256 × ℕ)). s.removed ++ r) (sym e) ∙ st.sum_from);
        },
        refl,
        refl,
      )

  -- The first loop ends with two tips of one level.
  level_loop_lem :
      (fuel : ℕ) (s : Walk) {a b : List (H256 × ℕ)}
      → Stands c g s a b
      → s.to_level + s.from_level < fuel
      → (t : Walk) × (level_loop c fuel s ≡ some t)
        × Stands c g t a b
        × (t.to_level ≡ t.from_level)
        × (t.to_level ≤ s.to_level)
  unfolding level_loop
  level_loop_lem zero s st h = elim h [ ]
  level_loop_lem (suc fuel) s st h = elim (Bool-cases (nat_beq s.to_level s.from_level)) [
    | inl level ↦ (s, rw level, st, ground arith, omega arith)
    | inr uneven ↦ elim (Bool-cases (ltb s.from_level s.to_level)) [
      | inl higher ↦
          let up : s.from_level < s.to_level = ltb→lt s.from_level s.to_level higher in
          let (t, run, st', e, f) = step_to_lem s st (omega arith) in
          let (u, run', st'', same, less) = level_loop_lem fuel t st' (omega arith) in
          (u, ground (arith, run, run'), st'', same, omega arith)
      | inr lower ↦
          let up : s.to_level < s.from_level = ground arith in
          let (t, run, st', e, f) = step_from_lem s st (omega arith) in
          let (u, run', st'', same, less) = level_loop_lem fuel t st' (omega arith) in
          (u, ground (arith, run, run'), st'', same, omega arith)
    ]
  ]

  -- Tips of one level that differ are above the genesis block.
  differ-pos :
      (s : Walk) {a b : List (H256 × ℕ)}
      → Stands c g s a b
      → s.to_level ≡ s.from_level
      → nat_beq s.to s.from ≡ false
      → 0 < s.to_level
  differ-pos s st same differ = elim (dec_lt 0 s.to_level) [
    | yes h ↦ h
    | no h ↦
        let z : s.to_level ≡ 0 = omega arith in
        let y : s.from_level ≡ 0 = omega arith in
        absurd (ground (arith, at_root st.path_to z, at_root st.path_from y))
  ]

  -- The second loop ends on one block, which both paths pass.
  meet_loop_lem :
      (fuel : ℕ) (s : Walk) {a b : List (H256 × ℕ)}
      → Stands c g s a b
      → s.to_level ≡ s.from_level
      → s.to_level < fuel
      → (t : Walk) × (meet_loop c fuel s ≡ some t)
        × Stands c g t a b
        × (t.to ≡ t.from)
        × (t.to_level ≡ t.from_level)
  unfolding meet_loop
  meet_loop_lem zero s st same h = elim h [ ]
  meet_loop_lem (suc fuel) s st same h = elim (Bool-cases (nat_beq s.to s.from)) [
    | inl met ↦ (s, rw met, st, (nat_beq_iff s.to s.from).0 met, same)
    | inr differ ↦
        let up : 0 < s.to_level = differ-pos s st same differ in
        let (t, run, st', e, f) = step_to_lem s st up in
        let (u, run', st'', e', f') = step_from_lem t st' (omega arith) in
        let (w, run'', rest, met, level) = meet_loop_lem fuel u st'' (omega arith) (omega arith) in
        (w, ground (arith, run, run', run''), rest, met, level)
  ]

  meeting :
      (t : Walk) {a b : List (H256 × ℕ)}
      → Stands c g t a b
      → t.to ≡ t.from
      → t.to_level ≡ t.from_level
      → (common : List (H256 × ℕ)) × (a ≡ t.added ++ common) × (b ≡ t.removed ++ common)
  meeting t st met level =
      let moved : ChainPath c g t.to t.to_level st.left_from =
        subst (λ (x : H256). ChainPath c g x t.to_level st.left_from) (sym met)
          (subst (λ (n : ℕ). ChainPath c g t.from n st.left_from) (sym level) st.path_from) in
      let one : st.left_to ≡ st.left_from = ChainPath-unique st.path_to st.left_from moved in
      (
        st.left_from,
        sym st.sum_to ∙ ap (λ (r : List (H256 × ℕ)). t.added ++ r) one,
        sym st.sum_from,
      )

-- For two blocks of one voter chain, each stored at its level, `vote_diff` returns, and the votes of the new chain are those
-- added and then some common votes, those of the old chain those removed and then the same common
-- votes: taking the removed votes away and putting the added ones in turns the one into the other.
pub vote_diff_lem :
    {c : BlockChain} {g : H256} (from to : H256) (m n : ℕ) (a b : List (H256 × ℕ))
    → ChainPath c g to m a
    → ChainPath c g from n b
    → lookup to c.voter_node_level ≡ some m
    → lookup from c.voter_node_level ≡ some n
    → (added removed common : List (H256 × ℕ)) × (vote_diff c from to ≡ some (added, removed))
      × (a ≡ added ++ common)
      × (b ≡ removed ++ common)
unfolding vote_diff
vote_diff_lem {c} {g} from to m n a b p q lp lq =
    let start : Walk = record {
      to = to;
      from = from;
      to_level = m;
      from_level = n;
      added = [];
      removed = [];
    } in
    let st : Stands c g start a b = record {
      left_to = a;
      left_from = b;
      path_to = p;
      path_from = q;
      sum_to = refl;
      sum_from = refl;
    } in
    let (s, run, st', same, less) = level_loop_lem (m + n + 1) start st (omega arith) in
    let (t, run', st'', met, level) = meet_loop_lem (m + n + 1) s st' same (omega arith) in
    let (common, e, f) = meeting t st'' met level in
    (t.added, t.removed, common, ground (arith, run, run'), e, f)
