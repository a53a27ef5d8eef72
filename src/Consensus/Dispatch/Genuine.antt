-- ===== src/Consensus/Dispatch/Genuine.antt =====
-- Genuine votes along a history: no event brings in a vote that does not verify.
use sleepy_hot_stuff.Base.{ℕ, ◌≡◌, List, [], ◌∷◌, if_rule, ℤ, pos, ◌≤ℤ◌}
use sleepy_hot_stuff.Message.{HotStuffMessage}
use sleepy_hot_stuff.Env.{Env, SignaturesRoundTrip}
use sleepy_hot_stuff.Crypto.{verify_sig}
use sleepy_hot_stuff.Quorum.Buffer.{empty_certificate}
use sleepy_hot_stuff.Consensus.State.{Replica}
use sleepy_hot_stuff.Consensus.Propose.Votes.{Signed, Signed-Admitted, GenuineVotes}
use sleepy_hot_stuff.Consensus.Propose.Certified.{
  IsCertified, Outcome, handle_normal_rep_msg-certifies,
}
use sleepy_hot_stuff.Consensus.Propose.{handle_normal_rep_msg}
use sleepy_hot_stuff.Consensus.Dispatch.Vouched.{incoming, Brings, cleared-Vouched, step-Vouched}
use sleepy_hot_stuff.Consensus.Dispatch.{
  Event, message, timer, monitor, request, requests, echo1_goes_on, sleeps, wakes, recovers, step,
  run,
}

-- A verified vote is a genuine one.
genuine : (e : Env) (ev : Event) → Brings (Signed e) e ev
genuine e (message input) = λ _. Signed-Admitted e (incoming e input)
genuine e (timer n) = tt
genuine e (monitor n) = tt
genuine e (request x) = tt
genuine e (requests xs) = tt
genuine e echo1_goes_on = tt
genuine e sleeps = tt
genuine e wakes = tt
genuine e (recovers mode) = tt

step-Genuine :
    (e : Env) (ev : Event) (r : Replica) → GenuineVotes e r → GenuineVotes e (step e ev r)
step-Genuine e ev r v = step-Vouched (Signed e) e ev r (genuine e ev) v

-- The clock has no say in what is genuine.
at_time :
    (e : Env) (clock : ℕ → ℤ) (r : Replica)
    → GenuineVotes e r
    → GenuineVotes (record e { clock = clock }) r
unfolding verify_sig
at_time e clock r v = record {
  certified = record {
    agree = v.certified.agree;
    distinct = v.certified.distinct;
    vouched = v.certified.vouched;
  };
}

from_time :
    (e : Env) (clock : ℕ → ℤ) (r : Replica)
    → GenuineVotes (record e { clock = clock }) r
    → GenuineVotes e r
unfolding verify_sig
from_time e clock r v = record {
  certified = record {
    agree = v.certified.agree;
    distinct = v.certified.distinct;
    vouched = v.certified.vouched;
  };
}

step_at-Genuine :
    (e : Env) (clock : ℕ → ℤ) (ev : Event) (r : Replica)
    → GenuineVotes e r
    → GenuineVotes e (step (record e { clock = clock }) ev r)
step_at-Genuine e clock ev r v =
    from_time e clock (step (record e { clock = clock }) ev r)
      (step-Genuine (record e { clock = clock }) ev r (at_time e clock r v))

run_from-Genuine :
    (e : Env) (evs : List ((ℕ → ℤ) × Event)) (r : Replica)
    → GenuineVotes e r
    → GenuineVotes e (run e evs r)
unfolding run
run_from-Genuine e [] r v = v
run_from-Genuine e ((clock, ev) ∷ evs) r v =
    run_from-Genuine e evs _
      (if_rule (GenuineVotes e) r.halted (λ _. v) (λ _. step_at-Genuine e clock ev r v))

-- Whatever happens to a replica that starts without votes, in any order, each signature that it has
-- collected in the end verifies for its replica and hash, and no replica is counted twice for a hash.
pub run-Genuine :
    (e : Env) (evs : List ((ℕ → ℤ) × Event)) (r : Replica)
    → r.votes_pp ≡ []
    → r.cer ≡ empty_certificate
    → GenuineVotes e (run e evs r)
run-Genuine e evs r h k = run_from-Genuine e evs r (cleared-Vouched (Signed e) r h k)

-- Where the codec reads certificates back as they were written and a quorum is at least one vote: after
-- any history of a replica that starts without votes, one more vote leaves its current block, or
-- replaces it by a block of the voted hash, one higher, that is certified by a quorum of verified
-- signatures from distinct replicas.
pub run-certifies :
    (e : Env) (evs : List ((ℕ → ℤ) × Event)) (r : Replica) (content : HotStuffMessage)
    → SignaturesRoundTrip e
    → r.votes_pp ≡ []
    → r.cer ≡ empty_certificate
    → pos 1 ≤ℤ (run e evs r).sizes.quorum
    → Outcome (IsCertified e) content (run e evs r) (handle_normal_rep_msg e content (run e evs r))
run-certifies e evs r content codec h k q =
    handle_normal_rep_msg-certifies e content (run e evs r) codec q (run-Genuine e evs r h k)
