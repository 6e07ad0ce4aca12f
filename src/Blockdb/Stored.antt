-- ===== src/Blockdb/Stored.antt =====
-- What an insertion stores.
use prism_rust_vivek.Prelude.{◌≡◌, true, lookup-insert, nat_eq, nat_beq, if◌then◌else◌, arith}
use prism_rust_vivek.Crypto.{H256}
use prism_rust_vivek.Blockdb.{BlockDatabase, Bytes, insert_encoded, put_block, contains}

pub contains-insert_encoded :
    (hash n : H256) (raw : Bytes) (db : BlockDatabase)
    → contains n (insert_encoded hash raw db).1 ≡ (if nat_beq hash n then true else contains n db)
unfolding contains insert_encoded put_block
contains-insert_encoded hash n raw db = ground (arith, lookup-insert hash n raw db.block_cf)
