-- ===== src/Mempool/Queue/Listed.antt =====
-- The list that a pool gives for a part of its storage index.
use prism_rust_vivek.Prelude.{
  ℕ, zero, suc, ◌≡◌, refl, sym, ap, Bool, true, false, not, none, some, List, [], ◌∷◌, ◌++◌, Table,
  lookup, insert, remove, lookup-insert, lookup-remove, All, any, filter, length, take, nat_eq,
  nat_beq, ◌==◌, arith, Bool-cases, Option-cases, inl, inr,
}
use prism_rust_vivek.Crypto.{H256}
use prism_rust_vivek.Ledger.Transaction.{Transaction, input_eq}
use prism_rust_vivek.Mempool.{MemoryPool, Entry, get, get_all}

-- Where the list of an index begins.
pub get_all-cons :
    (p : MemoryPool) (i : ℕ) (h : H256) (m : Table ℕ H256) (q : List Transaction)
    → get_all p ((i, h) ∷ m) ≡ some q
    → (e : Entry) × (rest : List Transaction) × (lookup h p.by_hash ≡ some e)
      × (get_all p m ≡ some rest)
      × (q ≡ e.transaction ∷ rest)
unfolding get_all get
get_all-cons p i h m q e = elim (Option-cases (lookup h p.by_hash)) [
  | inl absent ↦ absurd (let bad : none ≡ some q = rw (absent, get_all) at e in cc bad)
  | inr (entry, there) ↦ elim (Option-cases (get_all p m)) [
    | inl failed ↦ absurd (let bad : none ≡ some q = rw (there, failed, get_all) at e in cc bad)
    | inr (rest, known) ↦ (
      entry,
      rest,
      there,
      known,
      let same : some (entry.transaction ∷ rest) ≡ some q = rw (there, known, get_all) at e in
          cc same,
    )
  ]
]

pub cons-get_all :
    (p : MemoryPool) (i : ℕ) (h : H256) (m : Table ℕ H256) (e : Entry) (rest : List Transaction)
    → lookup h p.by_hash ≡ some e
    → get_all p m ≡ some rest
    → get_all p ((i, h) ∷ m) ≡ some (e.transaction ∷ rest)
unfolding get_all get
cons-get_all p i h m e rest there known = rw (there, known, get_all) refl

pub length-get_all :
    (p : MemoryPool) (m : Table ℕ H256) (q : List Transaction)
    → get_all p m ≡ some q
    → length q ≡ length m
unfolding get_all
length-get_all p [] q e = let same : [] ≡ q = cc e in ap length (sym same)
length-get_all p ((i, h) ∷ m) q e =
    let (entry, rest, there, known, same) = get_all-cons p i h m q e in
    omega (arith, ap length same, length-get_all p m rest known)

pub get_all-append :
    (p : MemoryPool) (m n : Table ℕ H256) (q r : List Transaction)
    → get_all p m ≡ some q
    → get_all p n ≡ some r
    → get_all p (m ++ n) ≡ some (q ++ r)
unfolding get_all
get_all-append p [] n q r e f = let same : [] ≡ q = cc e in rw (sym same) f
get_all-append p ((i, h) ∷ m) n q r e f =
    let (entry, rest, there, known, same) = get_all-cons p i h m q e in
    rw same
      (cons-get_all p i h (m ++ n) entry (rest ++ r) there (get_all-append p m n rest r known f))

pub get_all-take :
    (p : MemoryPool) (n : ℕ) (m : Table ℕ H256) (q : List Transaction)
    → get_all p m ≡ some q
    → get_all p (take n m) ≡ some (take n q)
unfolding get_all
get_all-take p zero m q e = refl
get_all-take p (suc n) [] q e = let same : [] ≡ q = cc e in rw (sym same) refl
get_all-take p (suc n) ((i, h) ∷ m) q e =
    let (entry, rest, there, known, same) = get_all-cons p i h m q e in
    rw same
      (cons-get_all p i h (take n m) entry (take n rest) there (get_all-take p n m rest known))

-- Another pool that has the same entries for the hashes of the index.
pub get_all-insert :
    (p r : MemoryPool) (hash : H256) (new : Entry) (m : Table ℕ H256) (q : List Transaction)
    → r.by_hash ≡ insert hash new p.by_hash
    → lookup hash p.by_hash ≡ none
    → get_all p m ≡ some q
    → get_all r m ≡ some q
unfolding get_all
get_all-insert p r hash new [] q grown fresh e = e
get_all-insert p r hash new ((i, h) ∷ m) q grown fresh e =
    let (entry, rest, there, known, same) = get_all-cons p i h m q e in
    let still : lookup h r.by_hash ≡ some entry = rw grown (
      ground (
        arith,
        fresh,
        there,
        lookup-insert hash h new p.by_hash,
        ap (λ (x : H256). lookup x p.by_hash),
      )) in
    rw same
      (cons-get_all r i h m entry rest still (get_all-insert p r hash new m rest grown fresh known))

-- A pool without the entry of a hash, which was at one place of the index.
pub get_all-remove :
    (tx_hash : Transaction → H256) (p r : MemoryPool) (hash : H256) (i : ℕ) (m : Table ℕ H256)
    (q : List Transaction)
    → r.by_hash ≡ remove hash p.by_hash
    → ((h : H256) (e : Entry) → lookup h p.by_hash ≡ some e → tx_hash e.transaction ≡ h)
    → All (λ e. (nat_beq hash e.1) ≡ (nat_beq e.0 i)) m
    → get_all p m ≡ some q
    → get_all r (remove i m) ≡ some (filter (λ t. not (tx_hash t == hash)) q)
unfolding get_all remove
get_all-remove tx_hash p r hash i [] q gone hashed at e =
    let same : [] ≡ q = cc e in rw (sym same) refl
get_all-remove tx_hash p r hash i ((j, h) ∷ m) q gone hashed (here, at) e =
    let (entry, rest, there, known, same) = get_all-cons p j h m q e in
    let ih = get_all-remove tx_hash p r hash i m rest gone hashed at known in
    let own : tx_hash entry.transaction ≡ h = hashed h entry there in
    elim (Bool-cases (nat_beq j i)) [
      | inl hit ↦
          let drops : nat_beq (tx_hash entry.transaction) hash ≡ true =
            ground (arith, own, here, hit) in
          rw (hit, same, drops) ih
      | inr miss ↦
          let keeps : nat_beq (tx_hash entry.transaction) hash ≡ false =
            ground (arith, own, here, miss) in
          let still : lookup h r.by_hash ≡ some entry =
            rw gone (ground (arith, there, here, miss, lookup-remove hash h p.by_hash)) in
          rw (miss, same, keeps)
            (cons-get_all r j h (remove i m) entry (filter (λ t. not (tx_hash t == hash)) rest)
              still ih)
    ]

-- The tests on the list, by the entries of the pool.
pub any-get_all :
    (p : MemoryPool) (test : Transaction → Bool) (m : Table ℕ H256) (q : List Transaction)
    → get_all p m ≡ some q
    → any test q ≡ true
    → (h : H256) × (e : Entry) × (lookup h p.by_hash ≡ some e) × (test e.transaction ≡ true)
unfolding get_all
any-get_all p test [] q e found =
    let same : q ≡ [] = cc e in let bad : false ≡ true = rw same at found in absurd (cc bad)
any-get_all p test ((i, h) ∷ m) q e found =
    let (entry, rest, there, known, same) = get_all-cons p i h m q e in
    elim (Bool-cases (test entry.transaction)) [
      | inl yes_here ↦ (h, entry, there, yes_here)
      | inr no_here ↦
          any-get_all p test m rest known (ground (arith, found, no_here, same, ap (any test)))
    ]

pub get_all-any :
    (p : MemoryPool) (test : Transaction → Bool) (m : Table ℕ H256) (q : List Transaction) (i : ℕ)
    (h : H256) (e : Entry)
    → get_all p m ≡ some q
    → lookup i m ≡ some h
    → lookup h p.by_hash ≡ some e
    → test e.transaction ≡ true
    → any test q ≡ true
unfolding get_all lookup
get_all-any p test [] q i h e f at there yes_there = absurd (cc at)
get_all-any p test ((j, g) ∷ m) q i h e f at there yes_there =
    let (entry, rest, here, known, same) = get_all-cons p j g m q f in
    elim (Bool-cases (nat_beq j i)) [
      | inl hit ↦
          let it : g ≡ h = ground (arith, at, hit) in
          let own : entry ≡ e = cc (here, there, ap (λ (x : H256). lookup x p.by_hash) it) in
          rw same (ground (arith, yes_there, ap (λ (x : Entry). test x.transaction) own))
      | inr miss ↦
          let later : lookup i m ≡ some h = ground (arith, at, miss) in
          let ih = get_all-any p test m rest i h e known later there yes_there in
          rw same (ground (arith, ih))
    ]
