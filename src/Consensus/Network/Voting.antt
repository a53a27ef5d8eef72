-- ===== src/Consensus/Network/Voting.antt =====
-- The votes behind the certificates of several replicas.
use mathlib.Core.List.{mem-append}
use mathlib.Core.Logic.Or
use sleepy_hot_stuff.Base.{ℕ, ◌≡◌, false, List, [], ◌∷◌, ◌++◌, if_rule, Bytes, ℤ, eq_ℤ, int_eq}
use sleepy_hot_stuff.Utils.Map.{contains}
use sleepy_hot_stuff.Utils.Values.{Slice}
use sleepy_hot_stuff.Message.{HotStuffMessage}
use sleepy_hot_stuff.Env.{Env}
use sleepy_hot_stuff.Crypto.{verify_sig}
use sleepy_hot_stuff.Quorum.Buffer.Certified.{Vouched}
use sleepy_hot_stuff.Consensus.State.{Replica, Effect}
use sleepy_hot_stuff.Consensus.Propose.Votes.{VouchedVotes, Admitted, Signed, Signed-Admitted}
use sleepy_hot_stuff.Consensus.Dispatch.{
  Event, message, timer, monitor, request, requests, echo1_goes_on, sleeps, wakes, recovers,
}
use sleepy_hot_stuff.Consensus.Dispatch.Vouched.{incoming, Brings, cleared-Vouched, step-Vouched}
use sleepy_hot_stuff.Consensus.Network.{
  Net, VoteSent, update, stamp, at, acted, Unforged, MayCome, Step, acts, Reach, here, next, Fresh,
}

VoteSent-later :
    (e : Env) (sent new : List (ℤ × Effect)) (id : ℤ) (hash : Bytes)
    → VoteSent e sent id hash
    → VoteSent e (sent ++ new) id hash
VoteSent-later e sent new id hash v = record {
  ballot = v.ballot;
  msg = v.msg;
  dest = v.dest;
  there = mem-append.1 (Or.inl v.there);
  written = v.written;
  kind = v.kind;
  by = v.by;
  voted = v.voted;
}

Vouched-map :
    (P Q : ℤ → Slice → Type 0) (ids : List ℤ) (sigs : List Slice)
    → ((id : ℤ) (sig : Slice) → P id sig → Q id sig)
    → Vouched P ids sigs
    → Vouched Q ids sigs
Vouched-map P Q [] [] f v = v
Vouched-map P Q [] (sig ∷ sigs) f v = v
Vouched-map P Q (id ∷ ids) [] f v = v
Vouched-map P Q (id ∷ ids) (sig ∷ sigs) f v = (f id sig v.0, Vouched-map P Q ids sigs f v.1)

weaker :
    (P Q : Bytes → ℤ → Slice → Type 0) (r : Replica)
    → ((h : Bytes) (id : ℤ) (sig : Slice) → P h id sig → Q h id sig)
    → VouchedVotes P r
    → VouchedVotes Q r
weaker P Q r f v = record {
  certified = record {
    agree = v.certified.agree;
    distinct = v.certified.distinct;
    vouched = λ h. Vouched-map (P h) (Q h) _ _ (f h) (v.certified.vouched h);
  };
}

module _ (e : Env) (sign : ℤ → Bytes → Bytes × Bytes) (faulty : List ℤ) where
  -- The signature verifies, and a replica that is not faulty has sent the vote.
  abbrev pub Backed : List (ℤ × Effect) → Bytes → ℤ → Slice → Type 0
  Backed sent h id sig = Signed e h id sig × (contains id faulty ≡ false → VoteSent e sent id h)

  Backed-later :
      (sent new : List (ℤ × Effect)) (r : Replica)
      → VouchedVotes (Backed sent) r
      → VouchedVotes (Backed (sent ++ new)) r
  Backed-later sent new r =
      weaker (Backed sent) (Backed (sent ++ new)) r
        (λ h id sig b. (b.0, λ ok. VoteSent-later e sent new id h (b.1 ok)))

  pub Unforged-Admitted :
      (s : Net) (i : ℤ) (clock : ℕ → ℤ) (content : HotStuffMessage)
      → Unforged e sign faulty s content
      → Admitted (Backed s.sent) (at e sign i clock) content
  unfolding verify_sig
  Unforged-Admitted s i clock content u h = (Signed-Admitted e content h, u h)

  brings :
      (s : Net) (i : ℤ) (clock : ℕ → ℤ) (ev : Event)
      → MayCome e sign faulty s ev
      → Brings (Backed s.sent) (at e sign i clock) ev
  brings s i clock (message input) m = λ q. Unforged-Admitted s i clock (incoming e input) (m q)
  brings s i clock (timer n) m = tt
  brings s i clock (monitor n) m = tt
  brings s i clock (request x) m = tt
  brings s i clock (requests xs) m = tt
  brings s i clock echo1_goes_on m = tt
  brings s i clock sleeps m = tt
  brings s i clock wakes m = tt
  brings s i clock (recovers mode) m = tt

  -- All votes that the replicas have collected are backed.
  abbrev pub AllBacked : Net → Type 0
  AllBacked s = (j : ℤ) → VouchedVotes (Backed s.sent) (s.site j)

  Step-AllBacked : {s t : Net} → Step e sign faulty s t → AllBacked s → AllBacked t
  unfolding update
  Step-AllBacked {s} (acts i clock ev ok live m) v j =
      let r = acted (at e sign i clock) ev (s.site i) in
      Backed-later s.sent (stamp i r.out) _ (
        if_rule (VouchedVotes (Backed s.sent)) (eq_ℤ i j)
          (λ _.
            step-Vouched (Backed s.sent) (at e sign i clock) ev (record (s.site i) { out = [] })
              (brings s i clock ev m) (record { certified = (v i).certified }))
          (λ _. v j))

  Reach-AllBacked : {s t : Net} → AllBacked s → Reach e sign faulty s t → AllBacked t
  Reach-AllBacked v here = v
  Reach-AllBacked v (next r st) = Step-AllBacked st (Reach-AllBacked v r)

  Fresh-AllBacked : (s : Net) → Fresh s → AllBacked s
  Fresh-AllBacked s f j =
      cleared-Vouched (Backed s.sent) (s.site j) (f.no_votes j) (f.no_certificate j)

  -- From a start without votes, whatever the replicas do in whatever order, each vote that one of them
  -- has collected verifies, and comes from a faulty replica or was sent by the one that signed it.
  pub Reach-Backed :
      (s t : Net) (j : ℤ)
      → Fresh s
      → Reach e sign faulty s t
      → VouchedVotes (Backed t.sent) (t.site j)
  Reach-Backed s t j f r = Reach-AllBacked (Fresh-AllBacked s f) r j
