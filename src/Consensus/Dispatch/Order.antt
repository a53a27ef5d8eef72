-- ===== src/Consensus/Dispatch/Order.antt =====
-- events.go: the requests of a history, from the queue to the proposals that are sent.
use mathlib.Core.Path.{subst}
use sleepy_hot_stuff.Base.{
  ℕ, ◌≡◌, refl, sym, ap, ◌∙◌, Bool, true, false, List, [], ◌∷◌, ◌++◌, arith, ℤ, Bool-cases, inl,
  inr,
}
use sleepy_hot_stuff.Message.{RawMessage}
use sleepy_hot_stuff.Env.{Env}
use sleepy_hot_stuff.Consensus.State.{Replica}
use sleepy_hot_stuff.Consensus.Dispatch.{Event, monitor, step, run}
use sleepy_hot_stuff.Consensus.Dispatch.Requests.{
  all_arrivals, all_batches, batch_of, proposes, run-halted, run-next, run-queue, true_is_not_false,
}
use sleepy_hot_stuff.Consensus.Dispatch.Turns.{Sent, Turn, waits, proposed, monitor_turn-Turn}

abbrev is_monitor : Event → Bool
is_monitor (monitor v) = true
is_monitor _ = false

-- The proposals that the turns of the monitor send along a history: the list has the batches of the
-- messages that have gone out, one after the other.
pub data Proposals (e : Env) : List ((ℕ → ℤ) × Event) → Replica → List RawMessage → Type 0 where
  at_end : (r : Replica) → Proposals e [] r []
  sends :
      (clock : ℕ → ℤ) (v : ℤ) (evs : List ((ℕ → ℤ) × Event)) (r : Replica)
      (batch rest : List RawMessage)
      → Sent (record e { clock = clock }) batch r (step (record e { clock = clock }) (monitor v) r)
      → Proposals e evs (step (record e { clock = clock }) (monitor v) r) rest
      → Proposals e ((clock, monitor v) ∷ evs) r (batch ++ rest)
  stands_by :
      (clock : ℕ → ℤ) (v : ℤ) (evs : List ((ℕ → ℤ) × Event)) (r : Replica) (rest : List RawMessage)
      → step (record e { clock = clock }) (monitor v) r ≡ r
      → Proposals e evs r rest
      → Proposals e ((clock, monitor v) ∷ evs) r rest
  something_else :
      (clock : ℕ → ℤ) (ev : Event) (evs : List ((ℕ → ℤ) × Event)) (r : Replica)
      (rest : List RawMessage)
      → is_monitor ev ≡ false
      → Proposals e evs (step (record e { clock = clock }) ev r) rest
      → Proposals e ((clock, ev) ∷ evs) r rest

step-running :
    (e : Env) (clock : ℕ → ℤ) (ev : Event) (evs : List ((ℕ → ℤ) × Event)) (r : Replica)
    → (run e ((clock, ev) ∷ evs) r).halted ≡ false
    → (step (record e { clock = clock }) ev r).halted ≡ false
step-running e clock ev evs r h =
    let s = step (record e { clock = clock }) ev r in
    elim (Bool-cases s.halted) [
      | inl on ↦
          let ended : run e ((clock, ev) ∷ evs) r ≡ s =
            run-next e clock ev evs r h ∙ run-halted e evs s on in
          absurd (true_is_not_false (sym on ∙ (ap (λ (t : Replica). t.halted) (sym ended) ∙ h)))
      | inr off ↦ off
    ]

no_batch : (e : Env) (v : ℤ) (r : Replica) → proposes e v r ≡ false → batch_of e (monitor v) r ≡ []
unfolding batch_of
no_batch e v r h = ground arith

turn :
    (e : Env) (v : ℤ) (r : Replica)
    → (step e (monitor v) r).halted ≡ false
    → Turn e v r (step e (monitor v) r)
unfolding step
turn e v r h = monitor_turn-Turn e v r h

after_turn :
    (e : Env) (clock : ℕ → ℤ) (v : ℤ) (evs : List ((ℕ → ℤ) × Event)) (r : Replica)
    (rest : List RawMessage)
    → Turn (record e { clock = clock }) v r (step (record e { clock = clock }) (monitor v) r)
    → Proposals e evs (step (record e { clock = clock }) (monitor v) r) rest
    → Proposals e
        ((clock, monitor v) ∷ evs)
        r
        (batch_of (record e { clock = clock }) (monitor v) r ++ rest)
after_turn e clock v evs r rest (waits off still) p =
    subst (λ (b : List RawMessage). Proposals e ((clock, monitor v) ∷ evs) r (b ++ rest))
      (sym (no_batch (record e { clock = clock }) v r off))
      (stands_by clock v evs r rest still (subst (λ (t : Replica). Proposals e evs t rest) still p))
after_turn e clock v evs r rest (proposed in_view leads was_ready few busy sent) p =
    sends clock v evs r (batch_of (record e { clock = clock }) (monitor v) r) rest sent p

after_event :
    (e : Env) (clock : ℕ → ℤ) (ev : Event) (evs : List ((ℕ → ℤ) × Event)) (r : Replica)
    (rest : List RawMessage)
    → (step (record e { clock = clock }) ev r).halted ≡ false
    → Proposals e evs (step (record e { clock = clock }) ev r) rest
    → Proposals e ((clock, ev) ∷ evs) r (batch_of (record e { clock = clock }) ev r ++ rest)
unfolding batch_of
after_event e clock (monitor v) evs r rest h p =
    after_turn e clock v evs r rest (turn (record e { clock = clock }) v r h) p
after_event e clock ev evs r rest h p = something_else clock ev evs r rest refl p

run-Proposals :
    (e : Env) (evs : List ((ℕ → ℤ) × Event)) (r : Replica)
    → (run e evs r).halted ≡ false
    → Proposals e evs r (all_batches e evs r)
unfolding all_batches batch_of step
run-Proposals e [] r h = at_end r
run-Proposals e ((clock, ev) ∷ evs) r h =
    let s = step (record e { clock = clock }) ev r in
    let rest =
      run-Proposals e evs s
        (ap (λ (t : Replica). t.halted) (sym (run-next e clock ev evs r h)) ∙ h) in
    after_event e clock ev evs r (all_batches e evs s) (step-running e clock ev evs r h) rest

-- In a history in which the process does not end, the batches of the messages with which the turns of the
-- monitor propose, one after the other, and then the queue that is left, are the requests that lay in
-- the queue at the start, and then those that arrived, in the order of their arrival: none is lost, and
-- none is sent twice by these turns.
pub run-in_order :
    (e : Env) (evs : List ((ℕ → ℤ) × Event)) (r : Replica)
    → (run e evs r).halted ≡ false
    → (batches : List RawMessage) × Proposals e evs r batches
      × (batches ++ (run e evs r).queue ≡ r.queue ++ all_arrivals evs)
run-in_order e evs r h = (all_batches e evs r, run-Proposals e evs r h, run-queue e evs r h)
