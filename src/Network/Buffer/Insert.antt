-- ===== src/Network/Buffer/Insert.antt =====
-- `insert` on a buffer in order.
use mathlib.Core.Path.{subst}
use prism_rust_vivek.Prelude.{
  add_all, elem-add_all, ◌+◌, ◌≡◌, ◌≢◌, ◌↔◌, refl, sym, ap, ◌∙◌, true, false, Option, none, some,
  List, [], ◌∷◌, lookup, insert, lookup-insert, elem, add, elem-add, count, nat_eq, nat_beq,
  nat_beq_iff, ◌==◌, if◌then◌else◌, arith, Bool-cases, Option-cases, inl, inr,
}
use prism_rust_vivek.Crypto.{H256}
use prism_rust_vivek.Block.{Block, Header, block_hash}
use prism_rust_vivek.Chain.Merge.{from_stored, IsDistinct}
use prism_rust_vivek.Network.Buffer.{BlockBuffer, new, add_dependents, insert_block}
use prism_rust_vivek.Network.Buffer.Waiting.{Waits, Blocks, IsBuffered}

add_idem : (x : H256) (s : List H256) → add x (add x s) ≡ add x s
unfolding add
add_idem x [] = ground arith
add_idem x (y ∷ s) = ground (arith, add_idem x s)

count-add :
    (k x : H256) (s : List H256)
    → count (λ y. y == x) (add k s) ≡ (
        if elem k s
        then count (λ y. y == x) s
        else (if k == x then 1 else 0) + count (λ y. y == x) s)
unfolding add elem
count-add k x [] = ground arith
count-add k x (y ∷ s) = ground (arith, count-add k x s)

count_none : (x : H256) (s : List H256) → elem x s ≡ false → count (λ y. y == x) s ≡ 0
unfolding elem
count_none x [] e = refl
count_none x (y ∷ s) e = ground (arith, count_none x s)

add-IsDistinct : (k : H256) (s : List H256) → IsDistinct s → IsDistinct (add k s)
add-IsDistinct k s d x =
    ground (arith, d x, count-add k x s, count_none x s, ap (λ (y : H256). elem y s))

lookup-add_dependents :
    (hash d : H256) (dependencies : List H256) (m : List (H256 × List H256))
    → lookup d (add_dependents hash dependencies m)
      ≡ (if elem d dependencies then some (add hash (from_stored [] (lookup d m))) else lookup d m)
unfolding add_dependents elem
lookup-add_dependents hash d [] m = refl
lookup-add_dependents hash d (e ∷ dependencies) m =
    let s = from_stored [] (lookup e m) in
    ground (
      arith,
      lookup-add_dependents hash d dependencies (insert e (add hash s) m),
      lookup-insert e d (add hash s) m,
      add_idem hash s,
      ap (λ (x : H256). lookup x m),
    )

add_all-nonempty : (hashes : List H256) → hashes ≢ [] → add_all hashes [] ≢ []
add_all-nonempty [] ne empty = ne refl
add_all-nonempty (h ∷ hashes) ne empty =
    let e : elem h (add_all (h ∷ hashes) []) ≡ true =
      elem-add_all h (h ∷ hashes) [] ∙ (unfold elem in ground arith) in
    let bad : elem h [] ≡ true = rw empty at e in unfold elem in cc bad

module _ (hash : H256) (block : Block) (dependencies : List H256) (b : BlockBuffer)
    (header_hash : Header → H256) (v : IsBuffered header_hash b)
    (own_hash : header_hash block.header ≡ hash) (fresh : lookup hash b.dependency ≡ none)
    (some_missing : dependencies ≢ []) where
  abbrev missing : List H256
  missing = add_all dependencies []

  abbrev grown : BlockBuffer
  grown = record {
    blocks = insert hash block b.blocks;
    dependency = insert hash missing b.dependency;
    dependent = add_dependents hash dependencies b.dependent;
  }

  elem-missing : (d : H256) → elem d missing ≡ elem d dependencies
  elem-missing d = elem-add_all d dependencies [] ∙ (unfold elem in ground arith)

  at_hash : lookup hash grown.dependency ≡ some missing
  at_hash = ground (arith, lookup-insert hash hash missing b.dependency)

  own_waits : (d : H256) → (elem d dependencies ≡ true) ↔ Waits grown hash d
  own_waits d = (
    λ e. (missing, at_hash, elem-missing d ∙ e),
    λ (ds, l, k).
        let same : ds ≡ missing = cc (l, at_hash) in sym (elem-missing d) ∙ (rw same at k),
  )

  at_n : (n d : H256) → nat_beq hash n ≡ true → Waits grown hash d → Waits grown n d
  at_n n d same w = subst (λ (x : H256). Waits grown x d) ((nat_beq_iff hash n).0 same) w

  old-IsDistinct : (d : H256) → IsDistinct (from_stored [] (lookup d b.dependent))
  old-IsDistinct d x = elim (Option-cases (lookup d b.dependent)) [
    | inl absent ↦ ground (arith, absent)
    | inr (ns, found) ↦ let le = v.once d ns found x in ground (arith, le)
  ]

  dependents :
      (d : H256)
      → lookup d grown.dependent ≡ (
          if elem d dependencies
          then some (add hash (from_stored [] (lookup d b.dependent)))
          else lookup d b.dependent)
  dependents d = lookup-add_dependents hash d dependencies b.dependent

  old_block : (n d : H256) → nat_beq hash n ≡ false → Blocks grown d n → Blocks b d n
  old_block n d other (ns, l, k) = elim (Bool-cases (elem d dependencies)) [
    | inl listed ↦
        let e : add hash (from_stored [] (lookup d b.dependent)) ≡ ns =
          ground (arith, dependents d) in
        let k' : elem n (add hash (from_stored [] (lookup d b.dependent))) ≡ true = rw e k in
        let k'' : elem n (from_stored [] (lookup d b.dependent)) ≡ true =
          ground (arith, k', elem-add hash n (from_stored [] (lookup d b.dependent))) in
        elim (Option-cases (lookup d b.dependent)) [
          | inl absent ↦
              let bad : elem n [] ≡ true = rw absent at k'' in absurd (unfold elem in cc bad)
          | inr (old, found) ↦ (old, found, rw found at k'')
        ]
    | inr unlisted ↦ (ns, ground (arith, dependents d), k)
  ]

  new-waiting : (n d : H256) → Blocks grown d n → Waits grown n d
  new-waiting n d w = elim (Bool-cases (nat_beq hash n)) [
    | inl same ↦ elim (Bool-cases (elem d dependencies)) [
      | inl listed ↦ at_n n d same ((own_waits d).0 listed)
      | inr unlisted ↦
          let (ns, l, k) = w in
          let (ds, known, _) = v.waiting n d (ns, ground (arith, dependents d), k) in
          absurd (
            cc (
              fresh,
              ap (λ (x : H256). lookup x b.dependency) ((nat_beq_iff hash n).0 same),
              known,
            ))
    ]
    | inr other ↦
        let (ds, l, k) = v.waiting n d (old_block n d other w) in
        (ds, ground (arith, lookup-insert hash n missing b.dependency), k)
  ]

  new-blocked : (n d : H256) → Waits grown n d → Blocks grown d n
  new-blocked n d w = elim (Bool-cases (nat_beq hash n)) [
    | inl same ↦
        let listed =
          (own_waits d).1
            (subst (λ (x : H256). Waits grown x d) (sym ((nat_beq_iff hash n).0 same)) w) in
        (
          add hash (from_stored [] (lookup d b.dependent)),
          ground (arith, dependents d),
          ground (arith, elem-add hash n (from_stored [] (lookup d b.dependent))),
        )
    | inr other ↦
        let (ds, l, k) = w in
        let (ns, found, there) =
          v.blocked n d (ds, ground (arith, lookup-insert hash n missing b.dependency), k) in
        elim (Bool-cases (elem d dependencies)) [
          | inl listed ↦ (
            add hash ns,
            ground (
              arith,
              dependents d,
              ap (λ (o : Option (List H256)). add hash (from_stored [] o)) found,
            ),
            ground (arith, elem-add hash n ns),
          )
          | inr unlisted ↦ (ns, ground (arith, dependents d), there)
        ]
  ]

  new-once : (d : H256) (ns : List H256) → lookup d grown.dependent ≡ some ns → IsDistinct ns
  new-once d ns l = elim (Bool-cases (elem d dependencies)) [
    | inl listed ↦
        let e : add hash (from_stored [] (lookup d b.dependent)) ≡ ns =
          ground (arith, dependents d) in
        subst IsDistinct e
          (add-IsDistinct hash (from_stored [] (lookup d b.dependent)) (old-IsDistinct d))
    | inr unlisted ↦ v.once d ns (ground (arith, dependents d))
  ]

  grown-IsBuffered : IsBuffered header_hash grown
  grown-IsBuffered = record {
    stored = λ n ds l. elim (Bool-cases (nat_beq hash n)) [
      | inl same ↦ (
        block,
        ground (arith, lookup-insert hash n block b.blocks),
        own_hash ∙ (nat_beq_iff hash n).0 same,
      )
      | inr other ↦
          let (old, e, h) =
            v.stored n ds (ground (arith, lookup-insert hash n missing b.dependency)) in
          (old, ground (arith, lookup-insert hash n block b.blocks), h)
    ];
    needs = λ n ds l. elim (Bool-cases (nat_beq hash n)) [
      | inl same ↦
          let e : missing ≡ ds = ground (arith, lookup-insert hash n missing b.dependency) in
          λ empty. add_all-nonempty dependencies some_missing (e ∙ empty)
      | inr other ↦ v.needs n ds (ground (arith, lookup-insert hash n missing b.dependency))
    ];
    blocked = new-blocked;
    waiting = new-waiting;
    once = new-once;
  }

-- A block that is not waiting yet, with some missing dependencies, can be buffered: the buffer stays
-- in order, and the block waits for exactly those dependencies.
pub insert_block-IsBuffered :
    (header_hash : Header → H256) (block : Block) (dependencies : List H256) (b : BlockBuffer)
    (d : H256)
    → IsBuffered header_hash b
    → lookup (block_hash header_hash block) b.dependency ≡ none
    → dependencies ≢ []
    → IsBuffered header_hash (insert_block header_hash block dependencies b)
      × ((elem d dependencies ≡ true)
          ↔ Waits (insert_block header_hash block dependencies b) (block_hash header_hash block) d)
unfolding insert_block block_hash
insert_block-IsBuffered header_hash block dependencies b d v fresh ne = (
  grown-IsBuffered (header_hash block.header) block dependencies b header_hash v refl fresh ne,
  own_waits (header_hash block.header) block dependencies b header_hash v refl fresh ne d,
)

pub new-IsBuffered : (header_hash : Header → H256) → IsBuffered header_hash new
unfolding lookup
new-IsBuffered header_hash = record {
  stored = λ n ds l. cc l;
  needs = λ n ds l. cc l;
  blocked = λ n d (ds, l, k). cc l;
  waiting = λ n d (ns, l, k). cc l;
  once = λ d ns l. cc l;
}
