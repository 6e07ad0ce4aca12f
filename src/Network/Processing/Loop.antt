-- ===== src/Network/Processing/Loop.antt =====
-- The loop over the blocks of a message ends, does not panic, and keeps the invariant.
use mathlib.Core.Path.{subst, subst₂}
use native.Mathlib.Nat.{mul-le-mul_left}
use prism_rust_vivek.Prelude.{
  ℕ, zero, suc, ◌+◌, ◌*◌, ◌≤◌, ◌≡◌, ◌⊎◌, ◌∙◌, ◌>>=◌, refl, sym, ap, Bool, true, false, Option, some,
  List, [], ◌∷◌, length, nat_eq, arith, inl, inr,
}
use prism_rust_vivek.Crypto.{H256}
use prism_rust_vivek.Block.{Block}
use prism_rust_vivek.Chain.Extends.{HasSpace-less}
use prism_rust_vivek.Validation.{
  BlockResult, pass, missing_references, availability, check_data_availability,
  check_sortition_proof, check_content_semantic,
}
use prism_rust_vivek.Validation.Missing.{missing_of, check_data_availability-eq}
use prism_rust_vivek.Validation.Total.{check_content_semantic-total, check_sortition_proof-total}
use prism_rust_vivek.Network.Message.{Libraries}
use prism_rust_vivek.Network.Processing.{
  Progress, is_pass, check_block, hold_block, accept_block, process_block, process_blocks,
}
use prism_rust_vivek.Network.Processing.Sound.{IsSound, unprocessed}
use prism_rust_vivek.Network.Processing.Hold.{hold_block-IsSound}
use prism_rust_vivek.Network.Processing.Accept.{accept_block-IsSound}

availability-cases :
    (m : List H256)
    → (availability m ≡ pass) ⊎ ((r : List H256) × (availability m ≡ missing_references r))
availability-cases [] = inl refl
availability-cases (h ∷ m) = inr (h ∷ m, refl)

-- What a round leaves: fewer blocks, or as many with one less on the stack.
abbrev pub Less : Progress → Progress → Type 0
Less next before =
    (unprocessed next + 1 ≤ unprocessed before)
    ⊎ ((unprocessed next ≤ unprocessed before)
        × (length next.to_process + 1 ≤ length before.to_process))

-- Two checks that do not panic, one after the other.
abbrev checks : Option BlockResult → Option BlockResult → Option Bool
checks p q =
    p >>= (λ x. elim (is_pass x) [ false ↦ some false | true ↦ q >>= (λ y. some (is_pass y)) ])

checks-total : (a b : BlockResult) → (valid : Bool) × (checks (some a) (some b) ≡ some valid)
checks-total a b = go (is_pass a)
  where
    go :
        (x : Bool)
        → (valid : Bool) × ((elim x [ false ↦ some false | true ↦ some (is_pass b) ]) ≡ some valid)
    go true = (is_pass b, refl)
    go false = (false, refl)

both_checks :
    (p q : Option BlockResult) (a b : BlockResult)
    → p ≡ some a
    → q ≡ some b
    → (valid : Bool) × (checks p q ≡ some valid)
both_checks p q a b e f =
    subst₂ (λ (x y : Option BlockResult). (valid : Bool) × (checks x y ≡ some valid)) (sym e)
      (sym f) (checks-total a b)

module _ (l : Libraries) (block : Block) (s : Progress)
    (v : IsSound l (record s { to_process = block ∷ s.to_process })) where
  abbrev before : Progress
  before = record s { to_process = block ∷ s.to_process }

  -- The block is dropped.
  drop-IsSound : IsSound l s
  drop-IsSound = record {
    forest = v.forest;
    pool = v.pool;
    limit = v.limit;
    buffered = v.buffered;
    space =
        HasSpace-less (unprocessed s) (unprocessed before) s.context.chain (omega arith) v.space;
    once = λ n. let le = v.once n in omega (arith, le);
    unknown = λ n lt. v.unknown n (omega (arith, lt));
    stored = λ n lt. v.stored n (omega (arith, lt));
    proposer_stored = v.proposer_stored;
    voter_stored = v.voter_stored;
    stack_checked = v.stack_checked.1;
    buffer_checked = v.buffer_checked;
    starved = v.starved;
  }

  check_block-total :
      check_data_availability block s.context.chain ≡ pass
      → (valid : Bool) × (check_block l block s.context ≡ some valid)
  unfolding check_block
  check_block-total available =
      let (pow, keys) = v.stack_checked.0 in
      let (proof, e) =
        check_sortition_proof-total l.header_hash l.content_hash l.node l.u256 block
          s.context.config pow in
      let (semantic, f) =
        check_content_semantic-total l.ed25519 block s.context.chain v.forest keys available in
      both_checks
        (check_sortition_proof l.header_hash l.content_hash l.node l.u256 block s.context.config)
        (check_content_semantic l.ed25519 block s.context.chain) proof semantic e f

  process_block-missing :
      (r : List H256)
      → check_data_availability block s.context.chain ≡ missing_references r
      → process_block l block s ≡ some (hold_block l block r s)
  unfolding process_block
  process_block-missing r e = rw (e, process_block) refl

  process_block-valid :
      (next : Progress)
      → check_data_availability block s.context.chain ≡ pass
      → check_block l block s.context ≡ some true
      → accept_block l block s ≡ some next
      → process_block l block s ≡ some next
  unfolding process_block
  process_block-valid next e f run = rw (e, f, process_block) run

  process_block-invalid :
      check_data_availability block s.context.chain ≡ pass
      → check_block l block s.context ≡ some false
      → process_block l block s ≡ some s
  unfolding process_block
  process_block-invalid e f = rw (e, f, process_block) refl

  abbrev Round : Type 0
  Round =
      (next : Progress) × (process_block l block s ≡ some next) × IsSound l next × Less next before

  process_available : check_data_availability block s.context.chain ≡ pass → Round
  process_available available = go (check_block-total available)
    where
      go : (valid : Bool) × (check_block l block s.context ≡ some valid) → Round
      go (true, checked) =
          let (next, run, sound, less) = accept_block-IsSound l block s v available in
          (next, process_block-valid next available checked run, sound, inl less)
      go (false, checked) =
          (s, process_block-invalid available checked, drop-IsSound, inl (omega arith))

  pub process_block-IsSound : Round
  process_block-IsSound = elim (availability-cases (missing_of block s.context.chain)) [
    | inr (r, missing) ↦
        let lacking : check_data_availability block s.context.chain ≡ missing_references r =
          check_data_availability-eq block s.context.chain ∙ missing in
        let (sound, le) = hold_block-IsSound l block s v r lacking in
        (
          hold_block l block r s,
          process_block-missing r lacking,
          sound,
          inr (le, unfold hold_block in omega arith),
        )
    | inl complete ↦ process_available (check_data_availability-eq block s.context.chain ∙ complete)
  ]

fuel_left :
    (b n m k j fuel : ℕ)
    → n * (b + 1) + k + 1 ≤ suc fuel
    → m ≤ b
    → j ≤ m
    → (m + 1 ≤ n) ⊎ ((m ≤ n) × (j + 1 ≤ k))
    → m * (b + 1) + j + 1 ≤ fuel
fuel_left b n m k j fuel enough small few (inl less) =
    let a : (b + 1) * (m + 1) ≤ (b + 1) * n = mul-le-mul_left (b + 1) less in omega (arith, a)
fuel_left b n m k j fuel enough small few (inr (le, less)) =
    let a : (b + 1) * m ≤ (b + 1) * n = mul-le-mul_left (b + 1) le in omega (arith, a)

stack-cases :
    (stack : List Block)
    → (stack ≡ []) ⊎ ((block : Block) × (rest : List Block) × (stack ≡ block ∷ rest))
stack-cases [] = inl refl
stack-cases (block ∷ rest) = inr (block, rest, refl)

process_blocks-step :
    (l : Libraries) (fuel : ℕ) (block : Block) (rest : List Block) (s next end : Progress)
    → s.to_process ≡ block ∷ rest
    → process_block l block (record s { to_process = rest }) ≡ some next
    → process_blocks l fuel next ≡ some end
    → process_blocks l (suc fuel) s ≡ some end
unfolding process_blocks
process_blocks-step l fuel block rest s next end e round run = rw (e, round, process_blocks) run

-- A bound on the blocks, and fuel for it, are enough.
pub process_blocks-IsSound :
    (l : Libraries) (fuel b : ℕ) (s : Progress)
    → IsSound l s
    → unprocessed s ≤ b
    → unprocessed s * (b + 1) + length s.to_process + 1 ≤ fuel
    → (end : Progress) × (process_blocks l fuel s ≡ some end)
      × IsSound l end
      × (end.to_process ≡ [])
unfolding process_blocks
process_blocks-IsSound l zero b s v small enough = absurd (omega (arith, enough))
process_blocks-IsSound l (suc fuel) b s v small enough = elim (stack-cases s.to_process) [
  | inl e ↦ (s, ground (arith, e), v, e)
  | inr (block, rest, e) ↦
      let sound : IsSound l (record s { to_process = block ∷ rest }) =
        subst (λ (t : List Block). IsSound l (record s { to_process = t })) e v in
      let (next, round, v', less) =
        process_block-IsSound l block (record s { to_process = rest }) sound in
      let same : length s.to_process ≡ suc (length rest) = ap length e in
      let n = suc (length rest) + length s.context.buffer.dependency in
      let fewer : unprocessed next ≤ n = elim less [
        | inl lt ↦ omega (arith, lt)
        | inr (le, _) ↦ le
      ] in
      let (end, run, v'', done) =
        process_blocks-IsSound l fuel b next v' (omega (arith, fewer, same, small)) (
          fuel_left b n (unprocessed next) (suc (length rest)) (length next.to_process) fuel
            (rw same at enough) (omega (arith, fewer, same, small)) (omega arith) less) in
      (end, process_blocks-step l fuel block rest s next end e round run, v'', done)
]
