-- ===== src/Consensus/Sequence.antt =====
-- hotstuff.go: the sequence number, and the hash chain of proposals.
use sleepy_hot_stuff.Base.{◌++◌, ℤ, pos, ltb_ℤ, add_int, if◌then◌else◌}
use sleepy_hot_stuff.Utils.Values.{Slice, bytes_to_string, int_to_bytes}
use sleepy_hot_stuff.Env.{Env}
use sleepy_hot_stuff.Crypto.{gen_hash}
use sleepy_hot_stuff.Db.{codes, persist_all}
use sleepy_hot_stuff.Consensus.State.{Replica, persist}

-- `Increment`; the new number is `sequence` of the result.
unfoldable pub increment : Env → Replica → Replica
increment e r =
    let seq = add_int r.sequence (pos 1) in
    persist e (codes "Sequence") (int_to_bytes seq) persist_all (record r { sequence = seq })

unfoldable pub update_seq : Env → ℤ → Replica → Replica
update_seq e seq r =
    if ltb_ℤ r.sequence seq
    then persist e (codes "Sequence") (int_to_bytes seq) persist_all (record r { sequence = seq })
    else r

unfoldable pub gen_hash_of_two_val : Env → Slice → Slice → Slice
gen_hash_of_two_val e input1 input2 = gen_hash e (bytes_to_string input1 ++ bytes_to_string input2)

unfoldable pub obtain_cur_hash : Env → Slice → ℤ → Replica → Slice
obtain_cur_hash e input seq r =
    gen_hash_of_two_val e r.cur_hash (gen_hash_of_two_val e (int_to_bytes seq) input)
