-- ===== src/Network/Buffer/Kept.antt =====
-- A round of `satisfy` in which a block waits for others still.
use prism_rust_vivek.Prelude.{
  elem-later, ◌≡◌, ◌≢◌, ◌⊎◌, ap, true, false, some, List, [], ◌∷◌, lookup, insert, lookup-insert,
  elem, discard, elem-discard, nat_eq, nat_beq, ◌==◌, if◌then◌else◌, arith, Bool-cases, inl, inr,
}
use prism_rust_vivek.Crypto.{H256}
use prism_rust_vivek.Block.{Header}
use prism_rust_vivek.Network.Buffer.{BlockBuffer}
use prism_rust_vivek.Network.Buffer.Waiting.{Waits}
use prism_rust_vivek.Network.Buffer.Rounds.{Rounds, Treated, own, not_queued, elem-tail}

module _ (header_hash : Header → H256) (hash node : H256) (queue : List H256) (b : BlockBuffer)
    (v : Rounds header_hash hash (node ∷ queue) b) where
  abbrev its : Waits b node hash
  its = own header_hash hash node queue b v

  -- The node still waits for others.
  module _ (h : H256) (rest : List H256) (more : discard hash its.0 ≡ h ∷ rest) where
    abbrev pub kept_waiting : BlockBuffer
    kept_waiting = record b { dependency = insert node (h ∷ rest) b.dependency }

    elem-rest : (d : H256) → elem d (h ∷ rest) ≡ (if hash == d then false else elem d its.0)
    elem-rest d =
        let e : elem d (discard hash its.0) ≡ (if hash == d then false else elem d its.0) =
          elem-discard hash d its.0 in
        rw more at e

    back : (n d : H256) → Waits kept_waiting n d → Waits b n d
    back n d (ds, l, k) = elim (Bool-cases (nat_beq node n)) [
      | inl same ↦
          let e : h ∷ rest ≡ ds = ground (arith, l, lookup-insert node n (h ∷ rest) b.dependency) in
          let k' : elem d (h ∷ rest) ≡ true = rw e k in
          (
            its.0,
            ground (arith, its.1, ap (λ (x : H256). lookup x b.dependency)),
            ground (arith, elem-rest d, k'),
          )
      | inr other ↦ (ds, ground (arith, l, lookup-insert node n (h ∷ rest) b.dependency), k)
    ]

    forth :
        (n d : H256) → Waits b n d → (d ≢ hash) ⊎ (nat_beq node n ≡ false) → Waits kept_waiting n d
    forth n d (ds, l, k) w = elim (Bool-cases (nat_beq node n)) [
      | inl same ↦
          let old : lookup node b.dependency ≡ some ds =
            ground (arith, ap (λ (x : H256). lookup x b.dependency)) in
          let e : its.0 ≡ ds = cc (its.1, old) in
          let k' : elem d its.0 ≡ true = rw e k in
          (
            h ∷ rest,
            ground (arith, lookup-insert node n (h ∷ rest) b.dependency),
            ground (arith, elem-rest d, k', w),
          )
      | inr other ↦ (ds, ground (arith, l, lookup-insert node n (h ∷ rest) b.dependency), k)
    ]

    waits_for_others : (n : H256) → Waits kept_waiting n hash → nat_beq node n ≡ false
    waits_for_others n (ds, l, k) = elim (Bool-cases (nat_beq node n)) [
      | inl same ↦
          let e : h ∷ rest ≡ ds = ground (arith, l, lookup-insert node n (h ∷ rest) b.dependency) in
          let k' : elem hash (h ∷ rest) ≡ true = rw e k in
          absurd (ground (arith, elem-rest hash, k'))
      | inr other ↦ other
    ]

    pub kept-Rounds : Rounds header_hash hash queue kept_waiting
    kept-Rounds = record {
      stored = λ n ds q. elim (Bool-cases (nat_beq node n)) [
        | inl same ↦
            v.stored n its.0 (ground (arith, its.1, ap (λ (x : H256). lookup x b.dependency)))
        | inr other ↦ v.stored n ds (ground (arith, lookup-insert node n (h ∷ rest) b.dependency))
      ];
      needs = λ n ds q. elim (Bool-cases (nat_beq node n)) [
        | inl same ↦
            let e : h ∷ rest ≡ ds = ground (arith, lookup-insert node n (h ∷ rest) b.dependency) in
            λ empty. cc (e, empty)
        | inr other ↦ v.needs n ds (ground (arith, lookup-insert node n (h ∷ rest) b.dependency))
      ];
      blocked = λ n d w ne. v.blocked n d (back n d w) ne;
      waiting = λ n d w.
          forth n d (v.waiting n d w)
            (inl (λ e. cc (v.gone, ap (λ (x : H256). lookup x b.dependent) e, w.1)));
      once = v.once;
      gone = v.gone;
      here = λ n w. elem-tail n node queue (waits_for_others n w) (v.here n (back n hash w));
      queued = λ n e. forth n hash (v.queued n (elem-later n node queue e)) (
          inr (
            ground (
              arith,
              not_queued header_hash hash node queue b v,
              e,
              ap (λ (x : H256). elem x queue),
            )));
      distinct = λ x. let le = v.distinct x in ground arith;
    }

    pub kept-Treated : Treated header_hash hash b [] kept_waiting
    kept-Treated = record {
      counted = λ n. ground (
        arith,
        its.1,
        lookup-insert node n (h ∷ rest) b.dependency,
        ap (λ (x : H256). lookup x b.dependency),
      );
      kept = λ n d w ne. forth n d w (inl ne);
    }
