-- ===== src/Communication/Receiver.antt =====
-- communication/receiver/receiver.go: the services that others call. A handler that the source starts as
-- a goroutine is an effect of the replica. `consensus.MsgQueue` keeps the last messages received.
use sleepy_hot_stuff.Base.{
  ℕ, zero, suc, ◌+◌, ◌-◌, ◌≤◌, ◌≡◌, refl, sym, ap, ◌∙◌, Bool, true, false, Option, none, some, List,
  [], ◌∷◌, ◌++◌, map, arith, length, length-append, length-drop, drop, Bytes,
}
use mathlib.Core.List.{append-nil, append_assoc}
use sleepy_hot_stuff.Utils.Values.{Slice, bytes_to_string}
use sleepy_hot_stuff.Env.{Env}
use sleepy_hot_stuff.Db.{codes, persist_all}
use sleepy_hot_stuff.Queue.{Queue, raw, max_size, append, append_and_trim_to_max_size}
use sleepy_hot_stuff.Queue.Laws.{append_and_trim_to_max_size-bounded}
use sleepy_hot_stuff.Consensus.State.{Replica, persist, emit, loopback}
use sleepy_hot_stuff.Consensus.Dispatch.{handle_request, handle_batch_request}

pub record Receiver : Type 0 where
  pub replica : Replica
  pub msg_queue : Queue

-- A call whose context has ended is refused; the flag tells that the call is answered.
unfoldable pub hot_stuff_send_byte_msg : Env → Bool → Slice → Receiver → Receiver × Bool
hot_stuff_send_byte_msg e true input x = (x, false)
hot_stuff_send_byte_msg e false input x =
    let q = append_and_trim_to_max_size x.msg_queue input in
    (
      record {
        replica =
            persist e (codes "MsgQueue") (e.marshal_queue q) persist_all
              (emit (loopback (bytes_to_string input)) x.replica);
        msg_queue = q;
      },
      true,
    )

-- `HandleRequest` of the receiver, and its reply. `requests` is what `DeserializeRequests` returns.
unfoldable pub answer_request :
    Env → (Bytes → List Slice) → Bool → Slice → Replica → Replica × Bytes
answer_request e requests true request r =
    (handle_batch_request e (requests (bytes_to_string request)) r, codes "batch rep")
answer_request e requests false request r = (handle_request e request r, codes "rep")

unfoldable pub send_request :
    Env → (Bytes → List Slice) → Bool → Bool → Slice → Replica → Option (Replica × Bytes)
send_request e requests true is_batch request r = none
send_request e requests false is_batch request r =
    some (answer_request e requests is_batch request r)

-- Messages received one after the other.
unfoldable pub receive_all : Env → List Slice → Receiver → Receiver
receive_all e [] x = x
receive_all e (input ∷ inputs) x = receive_all e inputs (hot_stuff_send_byte_msg e false input x).0

drop-append : (n : ℕ) (xs ys : Queue) → n ≤ length xs → drop n xs ++ ys ≡ drop n (xs ++ ys)
drop-append zero xs ys h = refl
drop-append (suc n) [] ys h = absurd (omega arith)
drop-append (suc n) (x ∷ xs) ys h = drop-append n xs ys (omega arith)

abbrev no_messages : Queue
no_messages = []

drop-no_messages : (n : ℕ) → drop n no_messages ≡ no_messages
drop-no_messages zero = refl
drop-no_messages (suc n) = refl

drop-drop : (b a : ℕ) (xs : Queue) → drop a (drop b xs) ≡ drop (b + a) xs
drop-drop zero a xs = ap (λ n. drop n xs) (omega arith)
drop-drop (suc b) a [] = drop-no_messages a ∙ sym (drop-no_messages (suc b + a))
drop-drop (suc b) a (x ∷ xs) =
    let carried : suc (b + a) ≡ suc b + a = omega arith in
    drop-drop b a xs ∙ ap (λ n. drop n (x ∷ xs)) carried

-- The last entries of all that came.
abbrev pub newest : Queue → Queue
newest all = drop (length all - max_size) all

newest-snoc :
    (all : Queue) (input : Slice)
    → append_and_trim_to_max_size (newest all) input ≡ newest (all ++ raw input ∷ [])
unfolding append
newest-snoc all input =
    let old = length all - max_size in
    let more = length (newest all) + 1 - max_size in
    (append_and_trim_to_max_size-bounded (newest all) input).1
    ∙ ap (drop more) (drop-append old all (raw input ∷ []) (omega arith))
    ∙ drop-drop old more (all ++ raw input ∷ [])
    ∙ ap (λ n. drop n (all ++ raw input ∷ []))
        (omega (arith, length-drop old all, length-append all (raw input ∷ [])))

-- However many messages are answered, the queue of received messages holds the newest of them, at most
-- 400, in the order of arrival: if it was the newest part of the messages `all` before, it is that of
-- `all` and the new ones after.
pub receive_all-newest :
    (e : Env) (inputs : List Slice) (all : Queue) (x : Receiver)
    → x.msg_queue ≡ newest all
    → (receive_all e inputs x).msg_queue ≡ newest (all ++ map raw inputs)
unfolding receive_all hot_stuff_send_byte_msg
receive_all-newest e [] all x h = h ∙ ap newest (sym (append-nil all))
receive_all-newest e (input ∷ inputs) all x h =
    receive_all-newest e inputs (all ++ raw input ∷ []) (hot_stuff_send_byte_msg e false input x).0
      (ap (λ q. append_and_trim_to_max_size q input) h ∙ newest-snoc all input)
    ∙ ap newest (append_assoc all (raw input ∷ []) (map raw inputs))
