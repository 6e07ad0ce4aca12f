-- ===== src/Network/Buffer/Satisfy.antt =====
-- `satisfy` on a buffer in order.
use mathlib.Core.Path.{subst}
use prism_rust_vivek.Prelude.{
  ◌≡◌, refl, some, List, [], ◌∷◌, ◌++◌, lookup, remove, lookup-remove, elem, count-append, nat_eq,
  nat_beq, arith, Option-cases, inl, inr,
}
use prism_rust_vivek.Crypto.{H256}
use prism_rust_vivek.Block.{Block, Header}
use prism_rust_vivek.Network.Buffer.{BlockBuffer, satisfy_nodes, satisfy}
use prism_rust_vivek.Network.Buffer.Waiting.{Waits, IsBuffered}
use prism_rust_vivek.Network.Buffer.Rounds.{Rounds, Treated}
use prism_rust_vivek.Network.Buffer.Round.{satisfy_node-Rounds}

satisfy_nodes-Rounds :
    (header_hash : Header → H256) (hash : H256) (queue : List H256) (b : BlockBuffer)
    → Rounds header_hash hash queue b
    → (resolved : List Block) × (q : BlockBuffer) × (satisfy_nodes hash queue b
        ≡ some (resolved, q))
      × Rounds header_hash hash [] q
      × Treated header_hash hash b resolved q
unfolding satisfy_nodes
satisfy_nodes-Rounds header_hash hash [] b v =
    ([], b, refl, v, record { counted = λ n. omega arith; kept = λ n d w ne. w })
satisfy_nodes-Rounds header_hash hash (node ∷ queue) b v =
    let (r, q, run, v', t) = satisfy_node-Rounds header_hash hash node queue b v in
    let (r', q', run', v'', t') = satisfy_nodes-Rounds header_hash hash queue q v' in
    (
      r ++ r',
      q',
      rw (run, run') refl,
      v'',
      record {
        counted = λ n. omega (
          arith,
          t.counted n,
          t'.counted n,
          count-append (λ (block : Block). nat_beq (header_hash block.header) n) r r',
        );
        kept = λ n d w ne. t'.kept n d (t.kept n d w ne) ne;
      },
    )

module _ (header_hash : Header → H256) (hash : H256) (b : BlockBuffer)
    (v : IsBuffered header_hash b) (ns : List H256)
    (found : lookup hash b.dependent ≡ some ns) where
  abbrev without_node : BlockBuffer
  without_node = record b { dependent = remove hash b.dependent }

  without_node-Rounds : Rounds header_hash hash ns without_node
  without_node-Rounds = record {
    stored = v.stored;
    needs = v.needs;
    blocked = λ n d w ne.
        let (l, e, k) = v.blocked n d w in
        (l, ground (arith, e, ne, lookup-remove hash d b.dependent), k);
    waiting =
        λ n d (l, e, k). v.waiting n d (l, ground (arith, e, lookup-remove hash d b.dependent), k);
    once = λ d l e. v.once d l (ground (arith, e, lookup-remove hash d b.dependent));
    gone = ground (arith, lookup-remove hash hash b.dependent);
    here = λ n w.
        let (l, e, k) = v.blocked n hash w in let same : l ≡ ns = cc (e, found) in rw same at k;
    queued = λ n k. v.waiting n hash (ns, found, k);
    distinct = v.once hash ns found;
  }

Rounds-IsBuffered :
    (header_hash : Header → H256) (hash : H256) (q : BlockBuffer)
    → Rounds header_hash hash [] q
    → IsBuffered header_hash q × ((n : H256) → ¬ (Waits q n hash))
Rounds-IsBuffered header_hash hash q v =
    let done : (n : H256) → ¬ (Waits q n hash) = λ n w. let e = v.here n w in unfold elem in cc e in
    (
      record {
        stored = v.stored;
        needs = v.needs;
        blocked = λ n d w. v.blocked n d w (λ e. done n (subst (Waits q n) e w));
        waiting = v.waiting;
        once = v.once;
      },
      done,
    )

-- On a buffer in order `satisfy hash` does not panic, and leaves a buffer in order. Afterwards no
-- block waits for `hash`, and all other dependencies stay. Every block that waited before is either
-- still waiting or returned, and returned once; no other block is returned.
pub satisfy_lem :
    (header_hash : Header → H256) (hash : H256) (b : BlockBuffer)
    → IsBuffered header_hash b
    → (resolved : List Block) × (q : BlockBuffer) × (satisfy hash b ≡ some (resolved, q))
      × IsBuffered header_hash q
      × ((n : H256) → ¬ (Waits q n hash))
      × Treated header_hash hash b resolved q
unfolding satisfy
satisfy_lem header_hash hash b v = elim (Option-cases (lookup hash b.dependent)) [
  | inl absent ↦ (
    [],
    b,
    rw (absent, satisfy) refl,
    v,
    λ n w. let (l, e, k) = v.blocked n hash w in cc (absent, e),
    record { counted = λ n. omega arith; kept = λ n d w ne. w },
  )
  | inr (ns, found) ↦
      let (r, q, run, rounds, t) =
        satisfy_nodes-Rounds header_hash hash ns (without_node header_hash hash b v ns found)
          (without_node-Rounds header_hash hash b v ns found) in
      let (buffered, done) = Rounds-IsBuffered header_hash hash q rounds in
      (r, q, rw (found, satisfy) run, buffered, done, record { counted = t.counted; kept = t.kept })
]
