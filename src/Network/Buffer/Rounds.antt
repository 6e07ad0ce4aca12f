-- ===== src/Network/Buffer/Rounds.antt =====
-- What holds between the rounds of `satisfy`.
use prism_rust_vivek.Prelude.{
  ℕ, ◌+◌, ◌<◌, ◌≡◌, ◌≢◌, ◌⊎◌, refl, true, false, none, some, List, [], ◌∷◌, lookup, elem,
  contains_key, count, nat_eq, nat_beq, ◌==◌, if◌then◌else◌, arith, Bool-cases, inl, inr,
}
use prism_rust_vivek.Crypto.{H256}
use prism_rust_vivek.Block.{Block, Header}
use prism_rust_vivek.Chain.Merge.{IsDistinct}
use prism_rust_vivek.Network.Buffer.{BlockBuffer}
use prism_rust_vivek.Network.Buffer.Waiting.{Waits, Blocks}

-- Between the rounds of `satisfy hash`: the dependents `queue` are still to be treated.
pub record Rounds (header_hash : Header → H256) (hash : H256) (queue : List H256) (b : BlockBuffer)
    : Type 0 where
  pub stored :
      (n : H256) (ds : List H256)
      → lookup n b.dependency ≡ some ds
      → (block : Block) × (lookup n b.blocks ≡ some block) × (header_hash block.header ≡ n)
  pub needs : (n : H256) (ds : List H256) → lookup n b.dependency ≡ some ds → ds ≢ []
  pub blocked : (n d : H256) → Waits b n d → d ≢ hash → Blocks b d n
  pub waiting : (n d : H256) → Blocks b d n → Waits b n d
  pub once : (d : H256) (ns : List H256) → lookup d b.dependent ≡ some ns → IsDistinct ns
  pub gone : lookup hash b.dependent ≡ none
  pub here : (n : H256) → Waits b n hash → elem n queue ≡ true
  pub queued : (n : H256) → elem n queue ≡ true → Waits b n hash
  pub distinct : IsDistinct queue

-- 1 for a block that waits in the buffer, 0 for any other
abbrev pub held : BlockBuffer → H256 → ℕ
held b n = if contains_key n b.dependency then 1 else 0

-- What treating dependents leaves: the blocks that are returned are no longer held, each of them
-- once, and all other dependencies than `hash` stay.
pub record Treated (header_hash : Header → H256) (hash : H256) (b : BlockBuffer)
    (resolved : List Block) (q : BlockBuffer) : Type 0 where
  pub counted :
      (n : H256)
      → count (λ block. nat_beq (header_hash block.header) n) resolved + held q n ≡ held b n
  pub kept : (n d : H256) → Waits b n d → d ≢ hash → Waits q n d

pub list_cases : (s : List H256) → (s ≡ []) ⊎ ((h : H256) × (rest : List H256) × (s ≡ h ∷ rest))
list_cases [] = inl refl
list_cases (h ∷ rest) = inr (h, rest, refl)

pub count-elem : (x : H256) (s : List H256) → elem x s ≡ true → 0 < count (λ y. y == x) s
unfolding elem
count-elem x [] e = absurd (cc e)
count-elem x (y ∷ s) e = ground (arith, count-elem x s)

pub elem-tail :
    (x y : H256) (s : List H256) → nat_beq y x ≡ false → elem x (y ∷ s) ≡ true → elem x s ≡ true
unfolding elem
elem-tail x y s other e = ground arith

pub elem-head : (x : H256) (s : List H256) → elem x (x ∷ s) ≡ true
unfolding elem
elem-head x s = ground arith

module _ (header_hash : Header → H256) (hash node : H256) (queue : List H256) (b : BlockBuffer)
    (v : Rounds header_hash hash (node ∷ queue) b) where
  pub own : Waits b node hash
  own = v.queued node (elem-head node queue)

  pub not_queued : elem node queue ≡ false
  not_queued = elim (Bool-cases (elem node queue)) [
    | inl twice ↦ absurd (let le = v.distinct node in ground (arith, count-elem node queue twice))
    | inr once_only ↦ once_only
  ]
