-- ===== src/Network/Buffer/Shrunk.antt =====
-- What `satisfy` takes out of the buffer comes from it, and nothing new is waited for.
use mathlib.Core.Path.{subst}
use prism_rust_vivek.Prelude.{
  ◌+◌, ◌≤◌, ◌≡◌, refl, ap, true, none, some, List, [], ◌∷◌, ◌++◌, All, All-append, length,
  length-append, Table, lookup, insert, remove, lookup-insert, lookup-remove, elem, elem-discard,
  discard, nat_eq, nat_beq, arith, Bool-cases, Option-cases, inl, inr,
}
use prism_rust_vivek.Crypto.{H256}
use prism_rust_vivek.Block.{Block}
use prism_rust_vivek.Network.Buffer.{BlockBuffer, settle, satisfy_node, satisfy_nodes, satisfy}
use prism_rust_vivek.Network.Buffer.Waiting.{Waits}

abbrev pub Stored : BlockBuffer → Block → Type 0
Stored b block = (n : H256) × (lookup n b.blocks ≡ some block)

pub record Shrunk (b : BlockBuffer) (resolved : List Block) (q : BlockBuffer) : Type 0 where
  pub stored :
      (n : H256) (block : Block) → lookup n q.blocks ≡ some block → lookup n b.blocks ≡ some block
  pub waits : (n d : H256) → Waits q n d → Waits b n d
  pub taken : All (Stored b) resolved
  pub size : length resolved + length q.dependency ≤ length b.dependency

length-remove_le : (k : H256) (m : Table H256 (List H256)) → length (remove k m) ≤ length m
unfolding remove
length-remove_le k [] = omega arith
length-remove_le k ((j, w) ∷ m) = ground (arith, length-remove_le k m)

length-remove_there :
    (k : H256) (m : Table H256 (List H256)) (v : List H256)
    → lookup k m ≡ some v
    → length (remove k m) + 1 ≤ length m
unfolding remove lookup
length-remove_there k [] v e = absurd (cc e)
length-remove_there k ((j, w) ∷ m) v e =
    ground (arith, length-remove_le k m, length-remove_there k m v)

pub length-insert_there :
    (k : H256) (m : Table H256 (List H256)) (v w : List H256)
    → lookup k m ≡ some v
    → length (insert k w m) ≡ length m
unfolding insert lookup
length-insert_there k [] v w e = absurd (cc e)
length-insert_there k ((j, x) ∷ m) v w e = ground (arith, length-insert_there k m v w)

pub length-insert_le :
    (k : H256) (m : Table H256 (List H256)) (w : List H256) → length (insert k w m) ≤ length m + 1
unfolding insert
length-insert_le k [] w = omega arith
length-insert_le k ((j, x) ∷ m) w = ground (arith, length-insert_le k m w)

Stored-weaken :
    (b q : BlockBuffer) (blocks : List Block)
    → ((n : H256) (block : Block) → lookup n q.blocks ≡ some block → lookup n b.blocks ≡ some block)
    → All (Stored q) blocks
    → All (Stored b) blocks
Stored-weaken b q [] f a = tt
Stored-weaken b q (x ∷ blocks) f ((n, e), a) = ((n, f n x e), Stored-weaken b q blocks f a)

Shrunk-trans :
    (b p q : BlockBuffer) (r s : List Block) → Shrunk b r p → Shrunk p s q → Shrunk b (r ++ s) q
Shrunk-trans b p q r s f g = record {
  stored = λ n x e. f.stored n x (g.stored n x e);
  waits = λ n d w. f.waits n d (g.waits n d w);
  taken = All-append (Stored b) r s f.taken (Stored-weaken b p s f.stored g.taken);
  size = omega (arith, f.size, g.size, length-append r s);
}

-- A result that is known, through the equation of the run.
Shrunk-run :
    (b : BlockBuffer) (x y : List Block × BlockBuffer)
    → some x ≡ some y
    → Shrunk b x.0 x.1
    → Shrunk b y.0 y.1
Shrunk-run b x y e s =
    let same : x ≡ y = cc e in subst (λ (z : List Block × BlockBuffer). Shrunk b z.0 z.1) same s

Waits-remove :
    (node n d : H256) (b q : BlockBuffer)
    → q.dependency ≡ remove node b.dependency
    → Waits q n d
    → Waits b n d
Waits-remove node n d b q e (ds, l, k) = (
  ds,
  let l' : lookup n (remove node b.dependency) ≡ some ds = rw e at l in
      ground (arith, l', lookup-remove node n b.dependency),
  k,
)

Waits-insert :
    (node n d : H256) (ds rest : List H256) (b q : BlockBuffer)
    → q.dependency ≡ insert node rest b.dependency
    → lookup node b.dependency ≡ some ds
    → ((x : H256) → elem x rest ≡ true → elem x ds ≡ true)
    → Waits q n d
    → Waits b n d
Waits-insert node n d ds rest b q e there less (es, l, k) =
    let l' : lookup n (insert node rest b.dependency) ≡ some es = rw e at l in
    elim (Bool-cases (nat_beq node n)) [
      | inl same ↦
          let now : rest ≡ es = ground (arith, l', lookup-insert node n rest b.dependency) in
          (ds, ground (arith, there, ap (λ (x : H256). lookup x b.dependency)), less d (rw now k))
      | inr other ↦ (es, ground (arith, l', lookup-insert node n rest b.dependency), k)
    ]

settle-Shrunk :
    (node : H256) (ds rest : List H256) (b q : BlockBuffer) (r : List Block)
    → lookup node b.dependency ≡ some ds
    → ((d : H256) → elem d rest ≡ true → elem d ds ≡ true)
    → settle node rest b ≡ some (r, q)
    → Shrunk b r q
unfolding settle
settle-Shrunk node ds [] b q r there less run = elim (Option-cases (lookup node b.blocks)) [
  | inl absent ↦ absurd (let bad : none ≡ some (r, q) = rw absent at run in cc bad)
  | inr (block, found) ↦
      let p = record b { dependency = remove node b.dependency; blocks = remove node b.blocks } in
      Shrunk-run b (block ∷ [], p) (r, q) (rw found at run)
        (record {
          stored = λ n x e. ground (arith, lookup-remove node n b.blocks);
          waits = λ n d w. Waits-remove node n d b p refl w;
          taken = ((node, found), tt);
          size = omega (arith, length-remove_there node b.dependency ds there);
        })
]
settle-Shrunk node ds (h ∷ rest) b q r there less run =
    let p = record b { dependency = insert node (h ∷ rest) b.dependency } in
    Shrunk-run b ([], p) (r, q) run
      (record {
        stored = λ n x e. e;
        waits = λ n d w. Waits-insert node n d ds (h ∷ rest) b p refl there less w;
        taken = tt;
        size = omega (arith, length-insert_there node b.dependency ds (h ∷ rest) there);
      })

satisfy_node-Shrunk :
    (hash node : H256) (b q : BlockBuffer) (r : List Block)
    → satisfy_node hash node b ≡ some (r, q)
    → Shrunk b r q
unfolding satisfy_node
satisfy_node-Shrunk hash node b q r run = elim (Option-cases (lookup node b.dependency)) [
  | inl absent ↦ absurd (let bad : none ≡ some (r, q) = rw absent at run in cc bad)
  | inr (ds, there) ↦
      let go : settle node (discard hash ds) b ≡ some (r, q) = rw (there, settle) at run in
      settle-Shrunk node ds (discard hash ds) b q r there
        (λ d e. ground (arith, e, elem-discard hash d ds)) go
]

satisfy_nodes-Shrunk :
    (hash : H256) (nodes : List H256) (b q : BlockBuffer) (r : List Block)
    → satisfy_nodes hash nodes b ≡ some (r, q)
    → Shrunk b r q
unfolding satisfy_nodes
satisfy_nodes-Shrunk hash [] b q r run =
    Shrunk-run b ([], b) (r, q) run
      (record { stored = λ n x e. e; waits = λ n d w. w; taken = tt; size = omega arith })
satisfy_nodes-Shrunk hash (node ∷ nodes) b q r run =
    elim (Option-cases (satisfy_node hash node b)) [
      | inl failed ↦
          absurd (let bad : none ≡ some (r, q) = rw (failed, satisfy_node) at run in cc bad)
      | inr ((r0, p), first) ↦ elim (Option-cases (satisfy_nodes hash nodes p)) [
        | inl failed ↦
            absurd
              (let bad : none ≡ some (r, q) = rw (first, failed, satisfy_nodes) at run in cc bad)
        | inr ((r1, q1), rest) ↦
            let ran : some (r0 ++ r1, q1) ≡ some (r, q) = rw (first, rest, satisfy_nodes) at run in
            Shrunk-run b (r0 ++ r1, q1) (r, q) ran
              (Shrunk-trans b p q1 r0 r1 (satisfy_node-Shrunk hash node b p r0 first)
                (satisfy_nodes-Shrunk hash nodes p q1 r1 rest))
      ]
    ]

pub satisfy-Shrunk :
    (hash : H256) (b q : BlockBuffer) (r : List Block) → satisfy hash b ≡ some (r, q) → Shrunk b r q
unfolding satisfy
satisfy-Shrunk hash b q r run = elim (Option-cases (lookup hash b.dependent)) [
  | inl absent ↦
      Shrunk-run b ([], b) (r, q) (rw (absent, satisfy) at run)
        (record { stored = λ n x e. e; waits = λ n d w. w; taken = tt; size = omega arith })
  | inr (ns, found) ↦
      let p = record b { dependent = remove hash b.dependent } in
      let ran : satisfy_nodes hash ns p ≡ some (r, q) = rw (found, satisfy) at run in
      let s = satisfy_nodes-Shrunk hash ns p q r ran in
      record { stored = s.stored; waits = s.waits; taken = s.taken; size = s.size }
]
