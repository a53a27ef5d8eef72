-- ===== src/Consensus/Dispatch/Advance.antt =====
-- A timeout certificate moves the replicas that receive it.
use sleepy_hot_stuff.Base.{
  ◌≡◌, refl, true, some, arith, if_rule, ℤ, pos, ◌≤ℤ◌, ltb_ℤ, eq_ℤ, add_int, ◌∙◌,
}
use sleepy_hot_stuff.Message.{HotStuffMessage}
use sleepy_hot_stuff.Env.{Env}
use sleepy_hot_stuff.Consensus.State.{Replica, is_recovering, persist}
use sleepy_hot_stuff.Consensus.Certificates.{verify_tqc}
use sleepy_hot_stuff.Consensus.View.{
  leader_id, set_view, start_view_change, view_change_in_recovery, handle_tqc_msg,
}
use sleepy_hot_stuff.Consensus.Dispatch.Kept.{SameView, same, then_same}
use sleepy_hot_stuff.Consensus.Dispatch.Moves.{
  hotstuff_start_vc-SameView, store_tqc-SameView, persist-SameView, armed-SameView,
}

-- The replica is in the view.
abbrev In : ℤ → Replica → Type 0
In v r = r.view ≡ v

set_view-In : (e : Env) (v : ℤ) (r : Replica) → In v (set_view e v r)
unfolding set_view persist
set_view-In e v r = refl

start_view_change-In :
    (e : Env) (v : ℤ) (r : Replica) → r.view ≤ℤ v → In (add_int v (pos 1)) (start_view_change e v r)
unfolding start_view_change
start_view_change-In e v r h =
    let next = add_int v (pos 1) in
    if_rule (In next) (ltb_ℤ v r.view) (λ late. absurd (ground (arith, late, h)))
      (λ _.
        let after = then_same (persist-SameView e _ _ _ _) (
          then_same (hotstuff_start_vc-SameView e _) (
            if_rule (SameView _) (eq_ℤ (leader_id e next) r.id) (λ _. same)
              (λ _. armed-SameView e _ _ _))) in
        after.view ∙ set_view-In e next _)

view_change_in_recovery-In :
    (e : Env) (v : ℤ) (r : Replica)
    → r.view ≤ℤ v
    → In (add_int v (pos 1)) (view_change_in_recovery e v r)
unfolding view_change_in_recovery
view_change_in_recovery-In e v r h =
    if_rule (In (add_int v (pos 1))) (ltb_ℤ v r.view) (λ late. absurd (ground (arith, late, h)))
      (λ _. set_view-In e _ r)

-- A timeout certificate that verifies, of the view of the replica or a later one, takes the replica to
-- the view after it, whether it recovers or not.
pub handle_tqc_msg-advances :
    (e : Env) (content : HotStuffMessage) (r : Replica)
    → verify_tqc e r.sizes.quorum content.view content.v ≡ some true
    → r.view ≤ℤ content.view
    → (handle_tqc_msg e content r).view ≡ add_int content.view (pos 1)
unfolding handle_tqc_msg
handle_tqc_msg-advances e content r ok h =
    let next = add_int content.view (pos 1) in
    rw ok (
      if_rule (In next) (ltb_ℤ content.view r.view) (λ late. absurd (ground (arith, late, h)))
        (λ _.
          (store_tqc-SameView e content _).view
          ∙ if_rule (In next) (is_recovering r.cur_status)
              (λ _. view_change_in_recovery-In e content.view r h)
              (λ _. start_view_change-In e content.view r h)))
