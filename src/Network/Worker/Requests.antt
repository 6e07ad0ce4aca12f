-- ===== src/Network/Worker/Requests.antt =====
-- What a worker asks for when blocks are announced to it.
use prism_rust_vivek.Prelude.{
  add_all, elem-add_all, ◌≡◌, refl, ap, not, ◌||◌, ◌&&◌, some, List, [], elem, elem-filter,
  filter-nil, nat_eq, arith,
}
use prism_rust_vivek.Crypto.{H256}
use prism_rust_vivek.Blockdb.{contains}
use prism_rust_vivek.Network.Message.{Libraries, Event, new_block_hashes, get_blocks, write}
use prism_rust_vivek.Network.Context.{Context}
use prism_rust_vivek.Network.Worker.{unknown_blocks, if_any, handle_message}

module _ (hashes : List H256) (c : Context) where
  abbrev asked : Context
  asked = record c { requested_blocks = add_all (unknown_blocks c hashes) c.requested_blocks }

  requested-asked :
      (h : H256)
      → elem h asked.requested_blocks
        ≡ (elem h c.requested_blocks || (elem h hashes && not (contains h c.blockdb)))
  requested-asked h = ground (
    arith,
    elem-add_all h (unknown_blocks c hashes) c.requested_blocks,
    elem-filter h (λ x. not (contains x c.blockdb || elem x c.requested_blocks)) hashes,
  )

  asked-known : unknown_blocks asked hashes ≡ []
  asked-known =
      filter-nil (λ x. not (contains x c.blockdb || elem x asked.requested_blocks)) hashes
        (λ x k. ground (arith, k, requested-asked x))

-- After an announcement, what is requested is what was requested before and what was announced and is
-- not stored. The same announcement again changes nothing, and no message is sent.
pub announced_twice :
    (l : Libraries) (hashes : List H256) (c : Context)
    → (c' : Context) × (events : List Event) × (handle_message l (new_block_hashes hashes) c
        ≡ some (c', events))
      × ((h : H256)
          → elem h c'.requested_blocks
            ≡ (elem h c.requested_blocks || (elem h hashes && not (contains h c.blockdb))))
      × (handle_message l (new_block_hashes hashes) c' ≡ some (c', []))
unfolding handle_message add_all
announced_twice l hashes c = (
  asked hashes c,
  if_any (unknown_blocks c hashes) (write (get_blocks (unknown_blocks c hashes))),
  refl,
  requested-asked hashes c,
  ap
      (λ (u : List H256). some (
        record (asked hashes c) {
          requested_blocks = add_all u (add_all (unknown_blocks c hashes) c.requested_blocks);
        },
        if_any u (write (get_blocks u)),
      ))
      (asked-known hashes c),
)
