-- ===== src/Consensus/Dispatch/Kept.antt =====
-- What the steps of a replica leave as it is.
use sleepy_hot_stuff.Base.{◌≡◌, refl, arith}
use sleepy_hot_stuff.Consensus.State.{Replica}

-- `view`, `leader` and `id` are as before.
pub record SameView (r r' : Replica) : Type 0 where
  pub view : r'.view ≡ r.view
  pub leader : r'.leader ≡ r.leader
  pub id : r'.id ≡ r.id

-- The votes of proposals, and their certificates, are as before.
pub record SameVotes (r r' : Replica) : Type 0 where
  pub votes : r'.votes_pp ≡ r.votes_pp
  pub cer : r'.cer ≡ r.cer

-- And so is the queue of requests.
pub record Untouched (r r' : Replica) : Type 0 where
  pub votes : r'.votes_pp ≡ r.votes_pp
  pub cer : r'.cer ≡ r.cer
  pub queue : r'.queue ≡ r.queue

-- All of these.
pub record Kept (r r' : Replica) : Type 0 where
  pub view : r'.view ≡ r.view
  pub leader : r'.leader ≡ r.leader
  pub id : r'.id ≡ r.id
  pub votes : r'.votes_pp ≡ r.votes_pp
  pub cer : r'.cer ≡ r.cer
  pub queue : r'.queue ≡ r.queue

pub same : {r : Replica} → SameView r r
same = record { view = refl; leader = refl; id = refl }

pub then_same : {r s t : Replica} → SameView r s → SameView s t → SameView r t
then_same p q = ground arith

pub untouched : {r : Replica} → Untouched r r
untouched = record { votes = refl; cer = refl; queue = refl }

pub then_again : {r s t : Replica} → Untouched r s → Untouched s t → Untouched r t
then_again p q = ground arith

pub nothing_changed : {r : Replica} → Kept r r
nothing_changed = record {
  view = refl;
  leader = refl;
  id = refl;
  votes = refl;
  cer = refl;
  queue = refl;
}

pub then_keeps : {r s t : Replica} → Kept r s → Kept s t → Kept r t
then_keeps p q = ground arith

pub Untouched-SameVotes : {r s : Replica} → Untouched r s → SameVotes r s
Untouched-SameVotes u = record { votes = u.votes; cer = u.cer }

pub Kept-SameView : {r s : Replica} → Kept r s → SameView r s
Kept-SameView k = record { view = k.view; leader = k.leader; id = k.id }

pub Kept-Untouched : {r s : Replica} → Kept r s → Untouched r s
Kept-Untouched k = record { votes = k.votes; cer = k.cer; queue = k.queue }
