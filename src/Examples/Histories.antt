-- ===== src/Examples/Histories.antt =====
-- The theorems on whole histories, at short ones.
use sleepy_hot_stuff.Base.{◌≡◌, true, add_int, ◌+ℤ◌, ℕ, refl, some, [], ◌∷◌, arith, List, ℤ, pos}
use sleepy_hot_stuff.Env.{Env}
use sleepy_hot_stuff.Db.{no_persist}
use sleepy_hot_stuff.Consensus.State.{persist}
use sleepy_hot_stuff.Consensus.Propose.{handle_normal_rep_msg}
use sleepy_hot_stuff.Consensus.Propose.Certified.{IsCertified, Outcome}
use sleepy_hot_stuff.Consensus.Dispatch.{Event, request, step, run, handle_request}
use sleepy_hot_stuff.Consensus.Dispatch.Genuine.{run-certifies}
use sleepy_hot_stuff.Utils.Map
use sleepy_hot_stuff.Utils.Values.{bytes_to_string}
use sleepy_hot_stuff.Utils.Sets.{new_set, has_item, add_item}
use sleepy_hot_stuff.Message.{HotStuffMessage}
use sleepy_hot_stuff.Crypto.{verify_sig}
use sleepy_hot_stuff.Consensus.Certificates.{verify_tqc, verify_timeouts}
use sleepy_hot_stuff.Consensus.View.{handle_tqc_msg}
use sleepy_hot_stuff.Consensus.Dispatch.Advance.{handle_tqc_msg-advances}
use sleepy_hot_stuff.Examples.Setup.{
  message_of, test_env, test_env-SignaturesRoundTrip, test_replica, vote_by,
}

abbrev env : Env
env = test_env no_persist

abbrev at : Event → (ℕ → ℤ) × Event
at ev = (λ n. pos n, ev)

-- A request, and then a vote.
abbrev one_request : List ((ℕ → ℤ) × Event)
one_request = at (request (some (1 ∷ []))) ∷ []

run-certifies_example :
    Outcome
      (IsCertified env)
      (vote_by 3)
      (run env one_request test_replica)
      (handle_normal_rep_msg env (vote_by 3) (run env one_request test_replica))
unfolding run step handle_request persist
run-certifies_example =
    run-certifies env one_request test_replica (vote_by 3) (test_env-SignaturesRoundTrip no_persist)
      refl refl (omega arith)

-- A certificate of view 4, from three replicas.
abbrev certificate : HotStuffMessage
certificate = message_of []

certificate_verifies :
    verify_tqc env test_replica.sizes.quorum certificate.view certificate.v ≡ some true
unfolding verify_tqc verify_timeouts verify_sig bytes_to_string has_item add_item new_set Map.get
    Map.insert
certificate_verifies = refl

handle_tqc_msg-advances_example : (handle_tqc_msg env certificate test_replica).view ≡ pos 5
unfolding add_int ◌+ℤ◌
handle_tqc_msg-advances_example =
    handle_tqc_msg-advances env certificate test_replica certificate_verifies (omega arith)
