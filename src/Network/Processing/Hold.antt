-- ===== src/Network/Processing/Hold.antt =====
-- A block whose references are missing goes to the buffer.
use mathlib.Core.Path.{subst}
use prism_rust_vivek.Prelude.{
  add_all, ◌≤◌, ◌≡◌, ◌≢◌, ◌↔◌, sym, ap, ◌∙◌, true, false, none, some, List, [], ◌∷◌, lookup,
  lookup-insert, elem, nat_eq, nat_beq, nat_beq_iff, arith, Bool-cases, Option-cases, inl, inr,
  if◌then◌else◌,
}
use prism_rust_vivek.Crypto.{H256}
use prism_rust_vivek.Block.{Block, block_hash}
use prism_rust_vivek.Chain.Extends.{HasSpace-less}
use prism_rust_vivek.Validation.{check_data_availability, availability, missing_references}
use prism_rust_vivek.Validation.Missing.{missing_of, check_data_availability-eq}
use prism_rust_vivek.Network.Buffer.{BlockBuffer, insert_block}
use prism_rust_vivek.Network.Buffer.Waiting.{Waits, IsBuffered}
use prism_rust_vivek.Network.Buffer.Insert.{insert_block-IsBuffered}
use prism_rust_vivek.Network.Buffer.Shrunk.{length-insert_le}
use prism_rust_vivek.Network.Buffer.Rounds.{held}
use prism_rust_vivek.Network.Message.{Libraries}
use prism_rust_vivek.Network.Processing.{Progress, hold_block}
use prism_rust_vivek.Network.Processing.Sound.{IsSound, pending, unprocessed, Checked}

availability-missing :
    (m r : List H256) → availability m ≡ missing_references r → (m ≡ r) × (r ≢ [])
availability-missing [] r e = absurd (cc e)
availability-missing (h ∷ m) r e =
    let same : h ∷ m ≡ r = cc e in (same, λ empty. absurd (cc (same, empty)))

pub held-none : (b : BlockBuffer) (n : H256) → held b n ≡ 0 → lookup n b.dependency ≡ none
held-none b n e = elim (Option-cases (lookup n b.dependency)) [
  | inl absent ↦ absent
  | inr (ds, there) ↦ absurd (ground (arith, there, e))
]

module _ (l : Libraries) (block : Block) (s : Progress)
    (v : IsSound l (record s { to_process = block ∷ s.to_process })) (r : List H256)
    (missing : check_data_availability block s.context.chain ≡ missing_references r) where
  abbrev hash : H256
  hash = l.header_hash block.header

  abbrev buffer : BlockBuffer
  buffer = s.context.buffer

  abbrev after : BlockBuffer
  after = insert_block l.header_hash block r buffer

  references : (missing_of block s.context.chain ≡ r) × (r ≢ [])
  references =
      availability-missing (missing_of block s.context.chain) r
        (sym (check_data_availability-eq block s.context.chain) ∙ missing)

  not_held : lookup hash buffer.dependency ≡ none
  not_held = held-none buffer hash (let le = v.once hash in ground (arith, le))

  in_order : IsBuffered l.header_hash after × ((d : H256) → (elem d r ≡ true) ↔ Waits after hash d)
  unfolding block_hash
  in_order = (
    (insert_block-IsBuffered l.header_hash block r buffer hash v.buffered not_held references.1).0,
    λ d.
        (insert_block-IsBuffered l.header_hash block r buffer d v.buffered not_held references.1).1,
  )

  dependency-after :
      (n : H256)
      → lookup n after.dependency
        ≡ (if nat_beq hash n then some (add_all r []) else lookup n buffer.dependency)
  unfolding insert_block block_hash
  dependency-after n = lookup-insert hash n (add_all r []) buffer.dependency

  blocks-after :
      (n : H256)
      → lookup n after.blocks ≡ (if nat_beq hash n then some block else lookup n buffer.blocks)
  unfolding insert_block block_hash
  blocks-after n = lookup-insert hash n block buffer.blocks

  held-after : (n : H256) → held after n ≡ (if nat_beq hash n then 1 else held buffer n)
  held-after n = ground (arith, dependency-after n)

  abbrev next : Progress
  next = hold_block l block r s

  abbrev before : Progress
  before = record s { to_process = block ∷ s.to_process }

  pending-next : (n : H256) → pending l next n ≡ pending l before n
  unfolding hold_block
  pending-next n = elim (Bool-cases (nat_beq hash n)) [
    | inl same ↦
        let none_held : held buffer n ≡ 0 =
          ground (arith, not_held, ap (λ (x : H256). lookup x buffer.dependency)) in
        ground (arith, held-after n, none_held)
    | inr other ↦ ground (arith, held-after n)
  ]

  unprocessed-next : unprocessed next ≤ unprocessed before
  unfolding hold_block insert_block
  unprocessed-next =
      omega
        (arith, length-insert_le (block_hash l.header_hash block) buffer.dependency (add_all r []))

  waits-old : (n d : H256) → nat_beq hash n ≡ false → Waits after n d → Waits buffer n d
  waits-old n d other (ds, e, k) = (ds, ground (arith, e, dependency-after n), k)

  starved-after :
      (n d : H256) (x : Block)
      → Waits after n d
      → lookup n after.blocks ≡ some x
      → elem d (missing_of x s.context.chain) ≡ true
  starved-after n d x w e = elim (Bool-cases (nat_beq hash n)) [
    | inl same ↦
        let own : Waits after hash d =
          subst (λ (y : H256). Waits after y d) (sym ((nat_beq_iff hash n).0 same)) w in
        let listed = (in_order.1 d).1 own in
        let it : block ≡ x = ground (arith, e, blocks-after n) in
        subst (λ (y : Block). elem d (missing_of y s.context.chain) ≡ true) it
          (rw references.0 listed)
    | inr other ↦ v.starved n d x (waits-old n d other w) (ground (arith, e, blocks-after n))
  ]

  -- The round keeps the invariant, and takes a block off the stack.
  pub hold_block-IsSound : IsSound l next × (unprocessed next ≤ unprocessed before)
  unfolding hold_block
  hold_block-IsSound = (
    record {
      forest = v.forest;
      pool = v.pool;
      limit = v.limit;
      buffered = in_order.0;
      space =
          HasSpace-less (unprocessed next) (unprocessed before) s.context.chain unprocessed-next
            v.space;
      once = λ n. let le = v.once n in omega (arith, le, pending-next n);
      unknown = λ n lt. v.unknown n (omega (arith, lt, pending-next n));
      stored = λ n lt. v.stored n (omega (arith, lt, pending-next n));
      proposer_stored = v.proposer_stored;
      voter_stored = v.voter_stored;
      stack_checked = v.stack_checked.1;
      buffer_checked = λ n x e. elim (Bool-cases (nat_beq hash n)) [
        | inl same ↦
            let it : block ≡ x = ground (arith, e, blocks-after n) in
            subst (Checked l s.context.config) it v.stack_checked.0
        | inr other ↦ v.buffer_checked n x (ground (arith, e, blocks-after n))
      ];
      starved = starved-after;
    },
    unprocessed-next,
  )
