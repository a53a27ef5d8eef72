-- ===== src/Queue/Laws.antt =====
-- What the operations of the request queue promise.
use sleepy_hot_stuff.Base.{
  ℕ, ◌+◌, ◌-◌, ◌≤◌, ◌≡◌, ◌∙◌, sym, List, [], ◌∷◌, ◌++◌, map, arith, length, drop, length-append,
  length-take, length-drop, take-append-drop,
}
use mathlib.Core.List.{append-nil, append_assoc}
use sleepy_hot_stuff.Utils.Values.{Slice}
use sleepy_hot_stuff.Queue.{
  Queue, max_size, raw, append, append_and_trim_to_max_size, append_batch,
  grab_with_max_len_and_clear, grab_with_max_len,
}

-- A batch is at most `max` requests long, it is the front of the queue, and the rest stays, in order.
pub grab_with_max_len_and_clear-splits :
    (max : ℕ) (q : Queue)
    → ((grab_with_max_len_and_clear max q).0 ++ (grab_with_max_len_and_clear max q).1 ≡ q)
      × (length (grab_with_max_len_and_clear max q).0 ≤ max)
      × ((grab_with_max_len_and_clear max q).0 ≡ grab_with_max_len max q)
      × (length (grab_with_max_len_and_clear max q).1 ≡ length q - max)
unfolding grab_with_max_len_and_clear grab_with_max_len
grab_with_max_len_and_clear-splits max q =
    ground (arith, take-append-drop max q, append-nil q, length-take max q, length-drop max q)

-- Requests that arrive one by one or as a batch lie in the queue in the order of arrival.
pub append_batch-eq : (q : Queue) (items : List Slice) → append_batch q items ≡ q ++ map raw items
unfolding append_batch
append_batch-eq q [] = sym (append-nil q)
append_batch-eq q (item ∷ items) =
    append_batch-eq (q ++ raw item ∷ []) items ∙ append_assoc q (raw item ∷ []) (map raw items)

-- The trimmed queue keeps its newest entries, the new one among them, and never exceeds the bound.
pub append_and_trim_to_max_size-bounded :
    (q : Queue) (item : Slice)
    → (length (append_and_trim_to_max_size q item) ≤ max_size)
      × (append_and_trim_to_max_size q item ≡ drop (length q + 1 - max_size) (append q item))
unfolding append_and_trim_to_max_size append
append_and_trim_to_max_size-bounded q item = ground (
  arith,
  length-append q (raw item ∷ []),
  length-drop (length (q ++ raw item ∷ []) - max_size) (q ++ raw item ∷ []),
)
