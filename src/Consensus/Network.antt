-- ===== src/Consensus/Network.antt =====
-- Several replicas: each one acts on its events (`Consensus/Dispatch`), in any order, and what it
-- sends is noted. Messages may be lost, repeated and reordered, and faulty replicas and anybody else
-- may send what they like, but the signed votes of the others.
pub mod Voting
pub mod Agreement
use mathlib.Core.List.{Mem}
use sleepy_hot_stuff.Base.{
  ℕ, ◌≡◌, refl, true, false, some, List, [], ◌∷◌, ◌++◌, map, if◌then◌else◌, Bytes, ℤ, eq_ℤ, int_eq,
}
use sleepy_hot_stuff.Utils.Map.{contains}
use sleepy_hot_stuff.Utils.Values.{bytes_to_string}
use sleepy_hot_stuff.Message.{HotStuffMessage, qcrep}
use sleepy_hot_stuff.Env.{Env}
use sleepy_hot_stuff.Crypto.{verify_sig}
use sleepy_hot_stuff.Quorum.Buffer.{empty_certificate}
use sleepy_hot_stuff.Consensus.State.{Replica, Effect, send_to_node}
use sleepy_hot_stuff.Consensus.Dispatch.{Event, message, step}
use sleepy_hot_stuff.Consensus.Dispatch.Vouched.{incoming}

-- The replicas, and what they have sent, each entry with its sender.
pub record Net : Type 0 where
  pub site : ℤ → Replica
  pub sent : List (ℤ × Effect)

-- The replica has sent a vote for the hash.
pub record VoteSent (e : Env) (sent : List (ℤ × Effect)) (id : ℤ) (hash : Bytes) : Type 0 where
  pub ballot : HotStuffMessage
  pub msg : Bytes
  pub dest : ℤ
  pub there : Mem (id, send_to_node msg dest) sent
  pub written : e.marshal_message ballot ≡ some msg
  pub kind : ballot.mtype ≡ qcrep
  pub by : ballot.source ≡ id
  pub voted : bytes_to_string ballot.hash ≡ hash

unfoldable pub update : (ℤ → Replica) → ℤ → Replica → ℤ → Replica
update f i r j = if eq_ℤ i j then r else f j

-- What a replica has sent, in its name.
unfoldable pub stamp : ℤ → List Effect → List (ℤ × Effect)
stamp i [] = []
stamp i (x ∷ xs) = (i, x) ∷ stamp i xs

-- A replica's environment: its own key, and the time.
abbrev pub at : Env → (ℤ → Bytes → Bytes × Bytes) → ℤ → (ℕ → ℤ) → Env
at e sign i clock = record e { ecdsa_sign = sign i; clock = clock }

-- One step of a replica: its effects go to the network.
abbrev pub acted : Env → Event → Replica → Replica
acted e ev r = step e ev (record r { out = [] })

abbrev pub after : Net → ℤ → Replica → Net
after s i r = record { site = update s.site i r; sent = s.sent ++ stamp i r.out }

module _ (e : Env) (sign : ℤ → Bytes → Bytes × Bytes) (faulty : List ℤ) where
  -- Nobody can sign the vote of a replica that is not faulty: where such a vote verifies, the replica has
  -- sent one for the hash.
  abbrev pub Unforged : Net → HotStuffMessage → Type 0
  Unforged s content =
      verify_sig e content.source content.hash content.sig ≡ some true
      → contains content.source faulty ≡ false
      → VoteSent e s.sent content.source (bytes_to_string content.hash)

  abbrev pub MayCome : Net → Event → Type 0
  MayCome s (message input) = (incoming e input).mtype ≡ qcrep → Unforged s (incoming e input)
  MayCome s _ = Unit

  -- A replica that is not faulty and has not ended acts.
  pub data Step (s : Net) : Net → Type 0 where
    acts :
        (i : ℤ) (clock : ℕ → ℤ) (ev : Event)
        → contains i faulty ≡ false
        → (s.site i).halted ≡ false
        → MayCome s ev
        → Step s (after s i (acted (at e sign i clock) ev (s.site i)))

  pub data Reach (s : Net) : Net → Type 0 where
    here : Reach s s
    next : {t u : Net} → Reach s t → Step t u → Reach s u

-- Every replica starts without votes.
pub record Fresh (s : Net) : Type 0 where
  pub no_votes : (i : ℤ) → (s.site i).votes_pp ≡ []
  pub no_certificate : (i : ℤ) → (s.site i).cer ≡ empty_certificate
