-- ===== src/Examples/Quorums.antt =====
-- The theorems on quorums, at four replicas.
use sleepy_hot_stuff.Base.{
  ◌≡◌, ◌≤◌, ◌<◌, ◌+◌, ◌*◌, ◌-◌, refl, some, [], ◌∷◌, arith, length, Bytes, ℤ, pos, string_eq,
  int_eq, ◌+ℤ◌, ◌*ℤ◌,
}
use sleepy_hot_stuff.Utils.Map
use sleepy_hot_stuff.Utils.Map.{contains}
use sleepy_hot_stuff.Utils.Values.{Slice}
use sleepy_hot_stuff.Utils.Sets.{new_set, set_list}
use sleepy_hot_stuff.Quorum.Sizes.{
  zero_sizes, sleepy_no_gat, sleepy_quorum_sizes, faults, quorum_of, quorum_of_tight,
}
use sleepy_hot_stuff.Db.{no_persist}
use sleepy_hot_stuff.Consensus.Start.{sleepy_hotstuff_config}
use sleepy_hot_stuff.Consensus.Start.Sleepy.{IsQuorum, sleepy_hotstuff_config-IsQuorum}
use sleepy_hot_stuff.Examples.Setup.{test_env}
use sleepy_hot_stuff.Quorum.Buffer.{
  Buffer, Certificate, empty_certificate, votes, ids_of, sigs_of, insert_value,
}
use sleepy_hot_stuff.Quorum.Buffer.Certified.{Certified, insert_value-Certified}
use sleepy_hot_stuff.Quorum.Intersection.{common, quorums_intersect}

quorum_of_tight_example :
    (4 + faults 4 + 1 ≤ 2 * quorum_of 4)
    × (quorum_of 4 + faults 4 ≤ 4)
    × (2 * (quorum_of 4 - 1) < 4 + faults 4 + 1)
quorum_of_tight_example = quorum_of_tight 4 (omega arith)

-- The quorums {0, 1, 2} and {1, 2, 3}.
quorums_intersect_example :
    faults 4 < length (common (pos 0 ∷ pos 1 ∷ pos 2 ∷ []) (pos 1 ∷ pos 2 ∷ pos 3 ∷ []))
unfolding contains quorum_of
quorums_intersect_example =
    quorums_intersect 4 (pos 0 ∷ pos 1 ∷ pos 2 ∷ []) (pos 1 ∷ pos 2 ∷ pos 3 ∷ []) (omega arith)
      (refl, (refl, (refl, tt))) (refl, (refl, (refl, tt))) (ground arith) (ground arith)
      (omega arith) (omega arith)

-- Signatures that say nothing but that they are one byte long.
abbrev OneByte : Bytes → ℤ → Slice → Type 0
OneByte h id sig = (b : Bytes) × (sig ≡ some b) × (length b ≡ 1)

no_votes-Certified : Certified OneByte [] empty_certificate
unfolding votes ids_of sigs_of set_list Map.get new_set
no_votes-Certified = record { agree = λ h. refl; distinct = λ h. tt; vouched = λ h. tt }

abbrev one_vote : Buffer × Certificate
one_vote = insert_value [] empty_certificate (5 ∷ []) (pos 2) (some (9 ∷ []))

insert_value-Certified_example : Certified OneByte one_vote.0 one_vote.1
insert_value-Certified_example =
    insert_value-Certified OneByte [] empty_certificate (5 ∷ []) (pos 2) (9 ∷ [])
      (9 ∷ [], refl, refl) no_votes-Certified

-- The same vote, for use below.
one_vote-Certified : Certified OneByte one_vote.0 one_vote.1
one_vote-Certified =
    insert_value-Certified OneByte [] empty_certificate (5 ∷ []) (pos 2) (9 ∷ [])
      (9 ∷ [], refl, refl) no_votes-Certified

-- Four replicas, one of them faulty and none asleep, where GAT is not assumed.
sleepy_hotstuff_config-IsQuorum_example :
    IsQuorum 4 1 0 (sleepy_quorum_sizes zero_sizes (pos 4) (pos 1) (pos 0) sleepy_no_gat).quorum
unfolding sleepy_hotstuff_config ◌+ℤ◌ ◌*ℤ◌
sleepy_hotstuff_config-IsQuorum_example =
    sleepy_hotstuff_config-IsQuorum (test_env no_persist) zero_sizes sleepy_no_gat 1 0 refl refl
      refl (omega arith) (omega arith)
