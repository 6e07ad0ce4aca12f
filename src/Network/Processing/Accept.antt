-- ===== src/Network/Processing/Accept.antt =====
-- A block that passed all checks enters the chain, and the blocks that waited for nothing else leave
-- the buffer.
use mathlib.Core.Path.{subst}
use prism_rust_vivek.Prelude.{
  suc, ◌+◌, ◌<◌, ◌≤◌, ◌≡◌, refl, sym, ◌∙◌, true, false, some, List, [], ◌∷◌, ◌++◌, All, length,
  lookup, elem, nat_eq, nat_beq, nat_beq_iff, arith, Bool-cases, inl, inr, if◌then◌else◌,
}
use prism_rust_vivek.Crypto.{H256}
use prism_rust_vivek.Config.{BlockchainConfig}
use prism_rust_vivek.Block.{Block, block_hash}
use prism_rust_vivek.Mempool.{MemoryPool}
use prism_rust_vivek.Blockdb.{contains}
use prism_rust_vivek.Chain.State.{BlockChain}
use prism_rust_vivek.Chain.Forest.{IsForest}
use prism_rust_vivek.Chain.Extends.{Extends, HasSpace-less, HasSpace-HasRoom}
use prism_rust_vivek.Validation.{check_data_availability, pass}
use prism_rust_vivek.Validation.Missing.{missing_of, elem-missing-Extends}
use prism_rust_vivek.Handler.{new_validated_block}
use prism_rust_vivek.Handler.Confirm.{Shrinks}
use prism_rust_vivek.Handler.Validated.{new_validated_block_lem, new_validated_block-Extends}
use prism_rust_vivek.Network.Buffer.{BlockBuffer, satisfy}
use prism_rust_vivek.Network.Buffer.Waiting.{Waits, IsBuffered}
use prism_rust_vivek.Network.Buffer.Satisfy.{satisfy_lem}
use prism_rust_vivek.Network.Buffer.Rounds.{Treated}
use prism_rust_vivek.Network.Buffer.Shrunk.{Shrunk, Stored, satisfy-Shrunk}
use prism_rust_vivek.Network.Message.{Libraries}
use prism_rust_vivek.Network.Processing.{Progress, accept_block, push_all, signal_of}
use prism_rust_vivek.Network.Processing.Sound.{IsSound, pending, times, unprocessed, Checked}

times-push_all :
    (l : Libraries) (resolved stack : List Block) (n : H256)
    → times l (push_all resolved stack) n ≡ times l resolved n + times l stack n
unfolding push_all
times-push_all l [] stack n = omega arith
times-push_all l (b ∷ resolved) stack n = omega (arith, times-push_all l resolved (b ∷ stack) n)

pub length-push_all :
    (resolved stack : List Block)
    → length (push_all resolved stack) ≡ length resolved + length stack
unfolding push_all
length-push_all [] stack = omega arith
length-push_all (b ∷ resolved) stack = omega (arith, length-push_all resolved (b ∷ stack))

All-push_all :
    (P : Block → Type 0) (resolved stack : List Block)
    → All P resolved
    → All P stack
    → All P (push_all resolved stack)
unfolding push_all
All-push_all P [] stack a b = b
All-push_all P (x ∷ resolved) stack (p, a) b = All-push_all P resolved (x ∷ stack) a (p, b)

taken-Checked :
    (l : Libraries) (config : BlockchainConfig) (b : BlockBuffer) (resolved : List Block)
    → ((n : H256) (block : Block) → lookup n b.blocks ≡ some block → Checked l config block)
    → All (Stored b) resolved
    → All (Checked l config) resolved
taken-Checked l config b [] f a = tt
taken-Checked l config b (x ∷ resolved) f ((n, e), a) =
    (f n x e, taken-Checked l config b resolved f a)

module _ (l : Libraries) (block : Block) (s : Progress)
    (v : IsSound l (record s { to_process = block ∷ s.to_process })) where
  abbrev hash : H256
  hash = l.header_hash block.header

  abbrev buffer : BlockBuffer
  buffer = s.context.buffer

  abbrev before : Progress
  before = record s { to_process = block ∷ s.to_process }

  is_pending : 0 < pending l before hash
  is_pending = ground arith

  -- What the round computes: the pool, the chain, and the buffer with the resolved blocks.
  module _ (p : MemoryPool) (d : BlockChain) (resolved : List Block) (q : BlockBuffer)
      (shrinks : Shrinks l.tx_hash s.context.mempool p) (forest : IsForest d)
      (extends : Extends hash s.context.chain d) (buffered : IsBuffered l.header_hash q)
      (awake : (n : H256) → ¬ (Waits q n hash))
      (treated : Treated l.header_hash hash buffer resolved q)
      (shrunk : Shrunk buffer resolved q) where
    abbrev next : Progress
    next = record s {
      context = record s.context { mempool = p; chain = d; buffer = q };
      to_process = push_all resolved s.to_process;
      context_update_sig = s.context_update_sig ++ signal_of block.content ∷ [];
    }

    -- The block itself is processed, the others are still pending.
    pending-next :
        (n : H256) → pending l next n + (if nat_beq hash n then 1 else 0) ≡ pending l before n
    pending-next n = omega (arith, times-push_all l resolved s.to_process n, treated.counted n)

    other-next : (n : H256) → 0 < pending l next n → nat_beq hash n ≡ false
    other-next n lt = elim (Bool-cases (nat_beq hash n)) [
      | inr other ↦ other
      | inl same ↦
          let le = v.once n in let e = pending-next n in absurd (ground (arith, lt, le, e, same))
    ]

    was_pending : (n : H256) → 0 < pending l next n → 0 < pending l before n
    was_pending n lt = omega (arith, lt, pending-next n)

    unprocessed-next : unprocessed next + 1 ≤ unprocessed before
    unprocessed-next = omega (arith, length-push_all resolved s.to_process, shrunk.size)

    hash_stored : (n : H256) → nat_beq hash n ≡ true → contains n s.context.blockdb ≡ true
    hash_stored n same =
        subst (λ (x : H256). contains x s.context.blockdb ≡ true) ((nat_beq_iff hash n).0 same)
          (v.stored hash is_pending)

    starved-next :
        (n e : H256) (x : Block)
        → Waits q n e
        → lookup n q.blocks ≡ some x
        → elem e (missing_of x d) ≡ true
    starved-next n e x w found = elim (Bool-cases (nat_beq hash e)) [
      | inl same ↦
          absurd (awake n (subst (λ (y : H256). Waits q n y) (sym ((nat_beq_iff hash e).0 same)) w))
      | inr other ↦
          elem-missing-Extends hash s.context.chain d e x extends other
          ∙ v.starved n e x (shrunk.waits n e w) (shrunk.stored n x found)
    ]

    next-IsSound : IsSound l next
    next-IsSound = record {
      forest = forest;
      pool = shrinks.valid;
      limit = omega (arith, shrinks.limit, v.limit);
      buffered = buffered;
      space = extends.space (unprocessed next) (
          HasSpace-less (suc (unprocessed next)) (unprocessed before) s.context.chain
            (omega (arith, unprocessed-next)) v.space);
      once = λ n. let le = v.once n in omega (arith, le, pending-next n);
      unknown = λ n lt.
          let (a, b) = v.unknown n (was_pending n lt) in
          (extends.proposers n (other-next n lt) ∙ a, extends.voters n (other-next n lt) ∙ b);
      stored = λ n lt. v.stored n (was_pending n lt);
      proposer_stored = λ n k e. elim (Bool-cases (nat_beq hash n)) [
        | inl same ↦ hash_stored n same
        | inr other ↦ v.proposer_stored n k (sym (extends.proposers n other) ∙ e)
      ];
      voter_stored = λ n k e. elim (Bool-cases (nat_beq hash n)) [
        | inl same ↦ hash_stored n same
        | inr other ↦ v.voter_stored n k (sym (extends.voters n other) ∙ e)
      ];
      stack_checked =
          All-push_all (Checked l s.context.config) resolved s.to_process
            (taken-Checked l s.context.config buffer resolved v.buffer_checked shrunk.taken)
            v.stack_checked.1;
      buffer_checked = λ n x e. v.buffer_checked n x (shrunk.stored n x e);
      starved = starved-next;
    }

  -- The round does not panic, keeps the invariant, and leaves fewer blocks to process.
  pub accept_block-IsSound :
      check_data_availability block s.context.chain ≡ pass
      → (next : Progress) × (accept_block l block s ≡ some next)
        × IsSound l next
        × (unprocessed next + 1 ≤ unprocessed before)
  unfolding accept_block block_hash
  accept_block-IsSound available =
      let room = HasSpace-HasRoom (length s.to_process + length buffer.dependency) s.context.chain (
        HasSpace-less (suc (length s.to_process + length buffer.dependency)) (unprocessed before)
          s.context.chain (omega arith) v.space) in
      let (no_proposer, no_voter) = v.unknown hash is_pending in
      let (p, d, validated, shrinks, _, forest) =
        new_validated_block_lem l.tx_hash l.header_hash block s.context.mempool s.context.chain
          v.pool v.limit v.forest room no_proposer no_voter available in
      let extends =
        new_validated_block-Extends l.tx_hash l.header_hash block s.context.mempool p
          s.context.chain d v.forest room no_proposer no_voter available validated in
      let (resolved, q, satisfied, buffered, awake, treated) =
        satisfy_lem l.header_hash hash buffer v.buffered in
      let shrunk = satisfy-Shrunk hash buffer q resolved satisfied in
      (
        next p d resolved q shrinks forest extends buffered awake treated shrunk,
        rw (validated, satisfied, new_validated_block, satisfy) refl,
        next-IsSound p d resolved q shrinks forest extends buffered awake treated shrunk,
        unprocessed-next p d resolved q shrinks forest extends buffered awake treated shrunk,
      )
