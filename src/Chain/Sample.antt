-- ===== src/Chain/Sample.antt =====
-- A small chain for the tests: two voter chains, each with its genesis block.
use mathlib.Core.Path.{subst}
use prism_rust_vivek.Prelude.{
  zero, suc, refl, sym, ap, Option, none, some, [], ◌∷◌, lookup, nat_eq, arith,
}
use prism_rust_vivek.Config.{BlockchainConfig}
use prism_rust_vivek.Chain.State.{BlockChain}
use prism_rust_vivek.Chain.Genesis.{opened, new, HasDistinctGeneses}
use prism_rust_vivek.Chain.Forest.{IsForest, HasRoom, new-IsForest, insert_proposer-IsForest}
use prism_rust_vivek.Chain.Insert.{insert_proposer}
use prism_rust_vivek.Block.{ProposerContent}

abbrev pub config : BlockchainConfig
config = record {
  voter_chains = 2;
  proposer_genesis = 100;
  voter_genesis = 200 ∷ 201 ∷ [];
  total_sortition_width = 100;
  proposer_sortition_width = 10;
  tx_sortition_width = 70;
}

pub config-HasDistinctGeneses : HasDistinctGeneses config
config-HasDistinctGeneses zero zero g p q = refl
config-HasDistinctGeneses zero (suc zero) g p q = absurd (ground arith)
config-HasDistinctGeneses (suc zero) zero g p q = absurd (ground arith)
config-HasDistinctGeneses (suc zero) (suc zero) g p q = refl
config-HasDistinctGeneses (suc (suc i)) j g p q = cc p
config-HasDistinctGeneses zero (suc (suc j)) g p q = cc q
config-HasDistinctGeneses (suc zero) (suc (suc j)) g p q = cc q

-- A step that is known to succeed.
abbrev pub take_chain : Option BlockChain → BlockChain
take_chain none = opened config
take_chain (some c) = c

unfoldable pub start : BlockChain
unfolding new
start = take_chain (new config)

pub start-IsForest : IsForest start
unfolding start
start-IsForest =
    let (c, run, f) = new-IsForest config config-HasDistinctGeneses refl in
    subst IsForest (sym (ap take_chain run)) f

pub start-HasRoom : HasRoom start
unfolding start new lookup
start-HasRoom = record { best_level = omega arith; voter_level = λ h l q. ground arith }

-- One proposer block after the genesis block.
abbrev pub proposal : ProposerContent
proposal = record { transaction_refs = []; proposer_refs = [] }

unfoldable pub proposed : BlockChain
unfolding insert_proposer start
proposed = take_chain (insert_proposer 101 100 proposal start)

pub proposed-IsForest : IsForest proposed
unfolding proposed start lookup
proposed-IsForest =
    let (c, run, f) =
      insert_proposer-IsForest 101 100 proposal start 0 start-IsForest start-HasRoom refl refl in
    subst IsForest (sym (ap take_chain run)) f

pub proposed-HasRoom : HasRoom proposed
unfolding proposed start new lookup insert_proposer
proposed-HasRoom = record { best_level = omega arith; voter_level = λ h l q. ground arith }
