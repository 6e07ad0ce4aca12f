-- ===== src/Network/Buffer/Round.antt =====
-- One round of `satisfy`: a dependent is freed, or it waits for others still.
use prism_rust_vivek.Prelude.{
  ◌≡◌, refl, ap, ◌∙◌, Option, some, List, [], ◌∷◌, lookup, insert, remove, discard, nat_eq, ◌>>=◌,
  inl, inr,
}
use prism_rust_vivek.Crypto.{H256}
use prism_rust_vivek.Block.{Block, Header}
use prism_rust_vivek.Network.Buffer.{BlockBuffer, settle, satisfy_node}
use prism_rust_vivek.Network.Buffer.Rounds.{Rounds, Treated, own, list_cases}
use prism_rust_vivek.Network.Buffer.Freed.{freed, freed-Rounds, freed-Treated}
use prism_rust_vivek.Network.Buffer.Kept.{kept_waiting, kept-Rounds, kept-Treated}

satisfy_node-freed :
    (hash node : H256) (ds : List H256) (b : BlockBuffer) (block : Block)
    → lookup node b.dependency ≡ some ds
    → discard hash ds ≡ []
    → lookup node b.blocks ≡ some block
    → satisfy_node hash node b
      ≡ some (
        block ∷ [],
        record b { dependency = remove node b.dependency; blocks = remove node b.blocks },
      )
unfolding satisfy_node
satisfy_node-freed hash node ds b block l last e =
    ap (λ (o : Option (List H256)). o >>= (λ d. settle node (discard hash d) b)) l
    ∙ (ap (λ (r : List H256). settle node r b) last ∙ (unfold settle in rw e refl))

satisfy_node-kept :
    (hash node : H256) (ds : List H256) (b : BlockBuffer) (h : H256) (rest : List H256)
    → lookup node b.dependency ≡ some ds
    → discard hash ds ≡ h ∷ rest
    → satisfy_node hash node b
      ≡ some ([], record b { dependency = insert node (h ∷ rest) b.dependency })
unfolding satisfy_node
satisfy_node-kept hash node ds b h rest l more =
    ap (λ (o : Option (List H256)). o >>= (λ d. settle node (discard hash d) b)) l
    ∙ (ap (λ (r : List H256). settle node r b) more ∙ (unfold settle in refl))

-- A round does not panic.
pub satisfy_node-Rounds :
    (header_hash : Header → H256) (hash node : H256) (queue : List H256) (b : BlockBuffer)
    → Rounds header_hash hash (node ∷ queue) b
    → (resolved : List Block) × (q : BlockBuffer) × (satisfy_node hash node b ≡ some (resolved, q))
      × Rounds header_hash hash queue q
      × Treated header_hash hash b resolved q
satisfy_node-Rounds header_hash hash node queue b v =
    let (ds, l, k) = own header_hash hash node queue b v in
    elim (list_cases (discard hash ds)) [
      | inl last ↦
          let (block, e, h) = v.stored node ds l in
          (
            block ∷ [],
            freed header_hash hash node queue b v last,
            satisfy_node-freed hash node ds b block l last e,
            freed-Rounds header_hash hash node queue b v last,
            freed-Treated header_hash hash node queue b v last block e h,
          )
      | inr (h, rest, more) ↦ (
        [],
        kept_waiting header_hash hash node queue b v h rest more,
        satisfy_node-kept hash node ds b h rest l more,
        kept-Rounds header_hash hash node queue b v h rest more,
        kept-Treated header_hash hash node queue b v h rest more,
      )
    ]
