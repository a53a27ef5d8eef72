-- ===== src/Queue.antt =====
-- consensus/queue.go: the queue of client requests, by its field `Q`. The mutex guards each call.
pub mod Laws
use sleepy_hot_stuff.Base.{
  ℕ, zero, suc, ◌+◌, ◌-◌, ◌<◌, ◌≡◌, Bool, true, false, ◌||◌, Option, none, some, List, [], ◌∷◌,
  ◌++◌, map, if◌then◌else◌, ltb, ◌==◌, length, take, drop, Bytes, bytes_eq,
}
use sleepy_hot_stuff.Utils.Values.{Slice, bytes_to_string}
use sleepy_hot_stuff.Message.{RawMessage}
use sleepy_hot_stuff.Env.{Env}
use sleepy_hot_stuff.Crypto.{gen_hash}

abbrev pub Queue : Type 0
Queue = List RawMessage

abbrev pub max_size : ℕ
max_size = 400

abbrev pub raw : Slice → RawMessage
raw item = record { msg = item }

unfoldable pub append : Queue → Slice → Queue
append q item = q ++ raw item ∷ []

unfoldable pub append_and_trim_to_max_size : Queue → Slice → Queue
append_and_trim_to_max_size q item =
    let q' = q ++ raw item ∷ [] in
    if ltb max_size (length q') then drop (length q' - max_size) q' else q'

unfoldable pub append_batch : Queue → List Slice → Queue
append_batch q [] = q
append_batch q (item ∷ items) = append_batch (q ++ raw item ∷ []) items

-- `config.MaxBatchSize()` is the argument `max`.
unfoldable pub grab_with_max_len : ℕ → Queue → List RawMessage
grab_with_max_len max q = if ltb max (length q) then take max q else q

-- The batch, and the queue that is left.
unfoldable pub grab_with_max_len_and_clear : ℕ → Queue → List RawMessage × Queue
grab_with_max_len_and_clear max q = if ltb max (length q) then (take max q, drop max q) else (q, [])

unfoldable pub grab_first : Queue → Option RawMessage
grab_first [] = none
grab_first (m ∷ q) = some m

-- `FetchFirst`: the hash of the first request, as a string.
unfoldable pub fetch_first : Env → Queue → Option Bytes
fetch_first e [] = none
fetch_first e (m ∷ q) = some (bytes_to_string (gen_hash e (bytes_to_string m.msg)))

abbrev pub same : RawMessage → RawMessage → Bool
same a b = bytes_eq (bytes_to_string a.msg) (bytes_to_string b.msg)

-- The loop of `Contains`, from index `i`.
contains_from : ℕ → Queue → RawMessage → ℕ × Bool
contains_from i [] item = (0, false)
contains_from i (m ∷ q) item =
    let rest = contains_from (suc i) q item in if same item m then (i, true) else rest

unfoldable pub contains : Queue → RawMessage → ℕ × Bool
unfolding contains_from
contains q item = contains_from 0 q item

unfoldable pub remove_first : Queue → Queue
remove_first [] = []
remove_first (m ∷ q) = q

-- The inner loop of `Remove`.
unfoldable pub is_among : RawMessage → List RawMessage → Bool
is_among m [] = false
is_among m (x ∷ msgs) = same x m || is_among m msgs

unfoldable pub remove : Queue → List RawMessage → Queue
remove [] msgs = []
remove (m ∷ q) msgs = let rest = remove q msgs in if is_among m msgs then rest else m ∷ rest

unfoldable pub remove_item : Env → Queue → Bytes → Queue
remove_item e [] hash = []
remove_item e (m ∷ q) hash =
    let rest = remove_item e q hash in
    if bytes_eq hash (bytes_to_string (gen_hash e (bytes_to_string m.msg))) then rest else m ∷ rest

unfoldable pub clear_fraction : Queue → ℕ → Queue
clear_fraction q size = if ltb size (length q) then drop size q else []
