-- ===== src/Network/Worker/Received.antt =====
-- The blocks of a message that are to be processed: they are new, each of them once, and stored.
use prism_rust_vivek.Prelude.{
  ◌+◌, ◌≤◌, ◌≡◌, refl, sym, ap, Bool, true, false, none, some, List, [], ◌∷◌, All, length, lookup,
  elem, add, discard, nat_eq, nat_beq, nat_beq_iff, arith, Bool-cases, Option-cases, inl, inr,
  if◌then◌else◌, ltb, ltb→lt,
}
use mathlib.Core.Path.{subst}
use prism_rust_vivek.Crypto.{H256}
use prism_rust_vivek.Block.{Block, block_hash}
use prism_rust_vivek.Blockdb.{Bytes, insert_encoded, contains}
use prism_rust_vivek.Blockdb.Stored.{contains-insert_encoded}
use prism_rust_vivek.Chain.Extends.{HasSpace, HasSpace-less}
use prism_rust_vivek.Validation.{
  BlockResult, pass, missing_references, wrong_pow, wrong_sortition_id, wrong_sortition_proof,
  wrong_proposer_ref, wrong_chain_number, wrong_vote_level, empty_transaction, zero_value,
  insufficient_input, wrong_signature, check_pow_sortition_id,
}
use prism_rust_vivek.Validation.Total.{KeysParse}
use prism_rust_vivek.Network.Buffer.{BlockBuffer}
use prism_rust_vivek.Network.Message.{Libraries}
use prism_rust_vivek.Network.Context.{Context}
use prism_rust_vivek.Network.Processing.{Progress, is_pass, push_all}
use prism_rust_vivek.Network.Processing.Sound.{IsSound, pending, unprocessed, Checked}
use prism_rust_vivek.Network.Worker.{receive_decoded, receive_blocks, store_block}

is_pass-pass : (r : BlockResult) → is_pass r ≡ true → r ≡ pass
is_pass-pass pass e = refl
is_pass-pass (missing_references _) e = absurd (cc e)
is_pass-pass wrong_pow e = absurd (cc e)
is_pass-pass wrong_sortition_id e = absurd (cc e)
is_pass-pass wrong_sortition_proof e = absurd (cc e)
is_pass-pass wrong_proposer_ref e = absurd (cc e)
is_pass-pass wrong_chain_number e = absurd (cc e)
is_pass-pass wrong_vote_level e = absurd (cc e)
is_pass-pass empty_transaction e = absurd (cc e)
is_pass-pass zero_value e = absurd (cc e)
is_pass-pass insufficient_input e = absurd (cc e)
is_pass-pass wrong_signature e = absurd (cc e)

-- The variables of the loop that the invariant does not read.
abbrev pub working : Context → List Block → Progress
working c stack = record {
  context = c;
  to_process = stack;
  to_request = [];
  context_update_sig = [];
}

pub same_work :
    (l : Libraries) (s : Progress) → IsSound l s → IsSound l (working s.context s.to_process)
same_work l s v = record {
  forest = v.forest;
  pool = v.pool;
  limit = v.limit;
  buffered = v.buffered;
  space = v.space;
  once = v.once;
  unknown = v.unknown;
  stored = v.stored;
  proposer_stored = v.proposer_stored;
  voter_stored = v.voter_stored;
  stack_checked = v.stack_checked;
  buffer_checked = v.buffer_checked;
  starved = v.starved;
}

pub with_sets :
    (l : Libraries) (c : Context) (stack : List Block) (recent requested : List H256)
    → IsSound l (working c stack)
    → IsSound l (working (record c { recent_blocks = recent; requested_blocks = requested }) stack)
with_sets l c stack recent requested v = record {
  forest = v.forest;
  pool = v.pool;
  limit = v.limit;
  buffered = v.buffered;
  space = v.space;
  once = v.once;
  unknown = v.unknown;
  stored = v.stored;
  proposer_stored = v.proposer_stored;
  voter_stored = v.voter_stored;
  stack_checked = v.stack_checked;
  buffer_checked = v.buffer_checked;
  starved = v.starved;
}

-- A checked block whose hash the database does not have.
module _ (l : Libraries) (c : Context) (stack : List Block) (block : Block) (raw : Bytes)
    (v : IsSound l (working c stack))
    (absent : contains (l.header_hash block.header) c.blockdb ≡ false)
    (checked : Checked l c.config block)
    (space : HasSpace (unprocessed (working c (block ∷ stack))) c.chain) where
  abbrev hash : H256
  hash = l.header_hash block.header

  abbrev grown : Context
  grown = record c { blockdb = (insert_encoded hash raw c.blockdb).1 }

  absent_at : (n : H256) → nat_beq hash n ≡ true → contains n c.blockdb ≡ false
  absent_at n same =
      subst (λ (x : H256). contains x c.blockdb ≡ false) ((nat_beq_iff hash n).0 same) absent

  not_pending : (n : H256) → nat_beq hash n ≡ true → pending l (working c stack) n ≡ 0
  not_pending n same = elim (Bool-cases (ltb 0 (pending l (working c stack) n))) [
    | inl there ↦
        absurd (cc (absent_at n same, v.stored n (ltb→lt 0 (pending l (working c stack) n) there)))
    | inr gone ↦ ground (arith, gone)
  ]

  now_stored : (n : H256) → nat_beq hash n ≡ true → contains n grown.blockdb ≡ true
  now_stored n same = ground (arith, contains-insert_encoded hash n raw c.blockdb)

  still_stored : (n : H256) → contains n c.blockdb ≡ true → contains n grown.blockdb ≡ true
  still_stored n e = ground (arith, e, contains-insert_encoded hash n raw c.blockdb)

  new_proposer : lookup hash c.chain.proposer_node_level ≡ none
  new_proposer = elim (Option-cases (lookup hash c.chain.proposer_node_level)) [
    | inl none_there ↦ none_there
    | inr (k, there) ↦ absurd (cc (absent, v.proposer_stored hash k there))
  ]

  new_voter : lookup hash c.chain.voter_node_level ≡ none
  new_voter = elim (Option-cases (lookup hash c.chain.voter_node_level)) [
    | inl none_there ↦ none_there
    | inr (k, there) ↦ absurd (cc (absent, v.voter_stored hash k there))
  ]

  grown-IsSound : IsSound l (working grown (block ∷ stack))
  grown-IsSound = record {
    forest = v.forest;
    pool = v.pool;
    limit = v.limit;
    buffered = v.buffered;
    space = space;
    once = λ n. elim (Bool-cases (nat_beq hash n)) [
      | inl same ↦ let e = not_pending n same in ground (arith, e)
      | inr other ↦ let le = v.once n in ground (arith, le)
    ];
    unknown = λ n lt. elim (Bool-cases (nat_beq hash n)) [
      | inl same ↦
          subst
            (λ (x : H256).
              (lookup x c.chain.proposer_node_level ≡ none)
              × (lookup x c.chain.voter_node_level ≡ none))
            ((nat_beq_iff hash n).0 same) (new_proposer, new_voter)
      | inr other ↦ v.unknown n (ground (arith, lt))
    ];
    stored = λ n lt. elim (Bool-cases (nat_beq hash n)) [
      | inl same ↦ now_stored n same
      | inr other ↦ still_stored n (v.stored n (ground (arith, lt)))
    ];
    proposer_stored = λ n k e. still_stored n (v.proposer_stored n k e);
    voter_stored = λ n k e. still_stored n (v.voter_stored n k e);
    stack_checked = (checked, v.stack_checked);
    buffer_checked = v.buffer_checked;
    starved = v.starved;
  }

-- Bytes that decode to a block whose keys and signatures parse.
abbrev pub Readable : Libraries → Bytes → Type 0
Readable l raw = (block : Block) × (l.decode raw ≡ some block) × KeysParse l.ed25519 block.content

-- What a received block leaves: the chain, the buffer and the configuration stay.
abbrev Outcome : Libraries → Context → Block → List Block → Bool × Context → Type 0
Outcome l c block stack r =
    (r.1.chain ≡ c.chain)
    × (r.1.buffer ≡ c.buffer)
    × (r.1.config ≡ c.config)
    × IsSound l (working r.1 (if r.0 then block ∷ stack else stack))

module _ (l : Libraries) (c : Context) (stack : List Block) (block : Block) (raw : Bytes)
    (v : IsSound l (working c stack)) where
  abbrev own_hash : H256
  own_hash = l.header_hash block.header

  abbrev arrived : Context
  arrived = record c { requested_blocks = discard own_hash c.requested_blocks }

  abbrev registered : Context
  registered = record arrived { recent_blocks = discard own_hash (add own_hash c.recent_blocks) }

  arrived-IsSound : IsSound l (working arrived stack)
  arrived-IsSound = with_sets l c stack c.recent_blocks (discard own_hash c.requested_blocks) v

  registered-IsSound : IsSound l (working registered stack)
  registered-IsSound =
      with_sets l c stack (discard own_hash (add own_hash c.recent_blocks))
        (discard own_hash c.requested_blocks) v

  store_block-Outcome :
      Checked l c.config block
      → HasSpace (unprocessed (working c (block ∷ stack))) c.chain
      → Outcome l c block stack (store_block own_hash raw arrived)
  unfolding store_block
  store_block-Outcome checked space = elim (Bool-cases (contains own_hash c.blockdb)) [
    | inl known ↦
        let e : store_block own_hash raw arrived ≡ (false, registered) =
          rw (known, store_block) refl in
        subst (Outcome l c block stack) (sym e) (refl, refl, refl, registered-IsSound)
    | inr absent ↦
        let e : store_block own_hash raw arrived
            ≡ (true, record registered { blockdb = (insert_encoded own_hash raw c.blockdb).1 }) =
          rw (absent, store_block) refl in
        subst (Outcome l c block stack) (sym e) (
          refl,
          refl,
          refl,
          grown-IsSound l registered stack block raw registered-IsSound absent checked space,
        )
  ]

  receive_decoded-Outcome :
      KeysParse l.ed25519 block.content
      → HasSpace (unprocessed (working c (block ∷ stack))) c.chain
      → Outcome l c block stack (receive_decoded l block raw c)
  unfolding receive_decoded block_hash
  receive_decoded-Outcome keys space =
      elim (Bool-cases (is_pass (check_pow_sortition_id l.header_hash l.u256 block c.config))) [
        | inr bad ↦
            let e : receive_decoded l block raw c ≡ (false, arrived) =
              rw (bad, receive_decoded) refl in
            subst (Outcome l c block stack) (sym e) (refl, refl, refl, arrived-IsSound)
        | inl good ↦ elim (Bool-cases (elem own_hash c.recent_blocks)) [
          | inl recent ↦
              let e : receive_decoded l block raw c ≡ (false, arrived) =
                rw (good, recent, receive_decoded) refl in
              subst (Outcome l c block stack) (sym e) (refl, refl, refl, arrived-IsSound)
          | inr other ↦
              let e : receive_decoded l block raw c ≡ store_block own_hash raw arrived =
                rw (good, other, receive_decoded) refl in
              subst (Outcome l c block stack) (sym e) (
                store_block-Outcome
                  (
                    is_pass-pass (check_pow_sortition_id l.header_hash l.u256 block c.config) good,
                    keys,
                  )
                  space)
        ]
      ]

length-pushed :
    (fresh : Bool) (block : Block) (stack : List Block)
    → length (if fresh then block ∷ stack else stack) ≤ length stack + 1
length-pushed true block stack = omega arith
length-pushed false block stack = omega arith

-- The result of the loop from a state, with the invariant on what is to be processed.
abbrev Result : Libraries → List Bytes → Context → List Block → Type 0
Result l encoded c stack =
    (received : List Block) × (c' : Context) × (receive_blocks l encoded c ≡ some (received, c'))
    × IsSound l (working c' (push_all received stack))

receive_blocks-step :
    (l : Libraries) (raw : Bytes) (encoded : List Bytes) (c : Context) (stack : List Block)
    (block : Block) (r : Bool × Context)
    → l.decode raw ≡ some block
    → receive_decoded l block raw c ≡ r
    → Result l encoded r.1 (if r.0 then block ∷ stack else stack)
    → Result l (raw ∷ encoded) c stack
unfolding receive_blocks push_all
receive_blocks-step l raw encoded c stack block (true, c') decoded e (received, d, run, v) =
    (block ∷ received, d, rw (decoded, e, run, receive_blocks) refl, v)
receive_blocks-step l raw encoded c stack block (false, c') decoded e (received, d, run, v) =
    (received, d, rw (decoded, e, run, receive_blocks) refl, v)

-- The loop over the blocks of a message, with room for all of them.
pub receive_blocks-IsSound :
    (l : Libraries) (encoded : List Bytes) (c : Context) (stack : List Block)
    → IsSound l (working c stack)
    → All (Readable l) encoded
    → HasSpace (unprocessed (working c stack) + length encoded) c.chain
    → Result l encoded c stack
unfolding receive_blocks push_all
receive_blocks-IsSound l [] c stack v readable space = ([], c, refl, v)
receive_blocks-IsSound l (raw ∷ encoded) c stack v ((block, decoded, keys), readable) space =
    let (same_chain, same_buffer, same_config, sound) =
      receive_decoded-Outcome l c stack block raw v keys (
        HasSpace-less (unprocessed (working c (block ∷ stack)))
          (unprocessed (working c stack) + length (raw ∷ encoded)) c.chain (omega arith) space) in
    let r = receive_decoded l block raw c in
    let stack' : List Block = if r.0 then block ∷ stack else stack in
    let same_size : length r.1.buffer.dependency ≡ length c.buffer.dependency =
      ap (λ (b : BlockBuffer). length b.dependency) same_buffer in
    let space' : HasSpace (unprocessed (working r.1 stack') + length encoded) c.chain =
      HasSpace-less (unprocessed (working r.1 stack') + length encoded)
        (unprocessed (working c stack) + length (raw ∷ encoded)) c.chain
        (omega (arith, same_size, length-pushed r.0 block stack)) space in
    receive_blocks-step l raw encoded c stack block r decoded refl (
      receive_blocks-IsSound l encoded r.1 stack' sound readable (
        subst (HasSpace (unprocessed (working r.1 stack') + length encoded)) (sym same_chain)
          space'))
