-- ===== src/Network/Buffer/Freed.antt =====
-- A round of `satisfy` in which the last dependency of a block is satisfied.
use mathlib.Core.Path.{subst}
use prism_rust_vivek.Prelude.{
  elem-later, ◌≡◌, ◌≢◌, sym, ap, true, false, some, List, [], ◌∷◌, lookup, remove, lookup-remove,
  elem, discard, elem-discard, nat_eq, nat_beq, nat_beq_iff, arith, Bool-cases, inl, inr,
}
use prism_rust_vivek.Crypto.{H256}
use prism_rust_vivek.Block.{Block, Header}
use prism_rust_vivek.Network.Buffer.{BlockBuffer}
use prism_rust_vivek.Network.Buffer.Waiting.{Waits}
use prism_rust_vivek.Network.Buffer.Rounds.{Rounds, Treated, own, not_queued, elem-tail}

module _ (header_hash : Header → H256) (hash node : H256) (queue : List H256) (b : BlockBuffer)
    (v : Rounds header_hash hash (node ∷ queue) b) where
  abbrev its : Waits b node hash
  its = own header_hash hash node queue b v

  -- The last dependency of the node is satisfied.
  module _ (last : discard hash its.0 ≡ []) where
    abbrev pub freed : BlockBuffer
    freed = record b { dependency = remove node b.dependency; blocks = remove node b.blocks }

    before :
        (n : H256) (ds : List H256)
        → lookup n freed.dependency ≡ some ds
        → (nat_beq node n ≡ false) × (lookup n b.dependency ≡ some ds)
    before n ds q = ground (arith, lookup-remove node n b.dependency)

    after :
        (n : H256) (ds : List H256)
        → nat_beq node n ≡ false
        → lookup n b.dependency ≡ some ds
        → lookup n freed.dependency ≡ some ds
    after n ds other q = ground (arith, lookup-remove node n b.dependency)

    -- The node waits for nothing else.
    only_hash : (d : H256) → Waits b node d → d ≢ hash → ⊥
    only_hash d (ds, l, k) ne =
        let same : its.0 ≡ ds = cc (its.1, l) in
        let there : elem d its.0 ≡ true = rw same k in
        let stays : elem d (discard hash its.0) ≡ true =
          ground (arith, elem-discard hash d its.0, ne) in
        let left : elem d [] ≡ true = rw last at stays in unfold elem in cc left

    pub freed-Rounds : Rounds header_hash hash queue freed
    freed-Rounds = record {
      stored = λ n ds q.
          let (other, old) = before n ds q in
          let (block, e, h) = v.stored n ds old in
          (block, ground (arith, lookup-remove node n b.blocks), h);
      needs = λ n ds q. v.needs n ds (before n ds q).1;
      blocked = λ n d (ds, l, k) ne. v.blocked n d (ds, (before n ds l).1, k) ne;
      waiting = λ n d w.
          let (ds, l, k) = v.waiting n d w in
          elim (Bool-cases (nat_beq node n)) [
            | inl same ↦ absurd (
                only_hash d
                  (subst (λ (x : H256). Waits b x d) (sym ((nat_beq_iff node n).0 same)) (ds, l, k))
                  (λ e. cc (v.gone, ap (λ (x : H256). lookup x b.dependent) e, w.1)))
            | inr other ↦ (ds, after n ds other l, k)
          ];
      once = v.once;
      gone = v.gone;
      here = λ n (ds, l, k).
          let (other, old) = before n ds l in elem-tail n node queue other (v.here n (ds, old, k));
      queued = λ n e.
          let (ds, l, k) = v.queued n (elem-later n node queue e) in
          (
            ds,
            after n ds
                (ground (
                  arith,
                  not_queued header_hash hash node queue b v,
                  e,
                  ap (λ (x : H256). elem x queue),
                ))
                l,
            k,
          );
      distinct = λ x. let le = v.distinct x in ground arith;
    }

    pub freed-Treated :
        (block : Block)
        → lookup node b.blocks ≡ some block
        → header_hash block.header ≡ node
        → Treated header_hash hash b (block ∷ []) freed
    freed-Treated block e h = record {
      counted = λ n. ground (
        arith,
        its.1,
        lookup-remove node n b.dependency,
        ap (λ (x : H256). lookup x b.dependency),
      );
      kept = λ n d (ds, l, k) ne. elim (Bool-cases (nat_beq node n)) [
        | inl same ↦ absurd (
            only_hash d
              (subst (λ (x : H256). Waits b x d) (sym ((nat_beq_iff node n).0 same)) (ds, l, k)) ne)
        | inr other ↦ (ds, after n ds other l, k)
      ];
    }
