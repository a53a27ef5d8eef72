-- ===== src/Examples/Setup.antt =====
-- An environment and a replica: four replicas, a codec that knows a few messages, and signatures that
-- verify if their second half starts with 9.
use sleepy_hot_stuff.Base.{
  ℕ, zero, suc, ◌==◌, refl, Bool, true, false, none, some, [], ◌∷◌, Bytes, ℤ, pos, length,
}
use sleepy_hot_stuff.Utils.Values.{Slice}
use sleepy_hot_stuff.Message.{
  MessageType, MessageWithSignature, HotStuffMessage, QcBlock, zero_message, zero_block,
}
use sleepy_hot_stuff.Env.{Env, SignaturesRoundTrip}
use sleepy_hot_stuff.Consensus.State.{Replica, ready}
use sleepy_hot_stuff.Examples.Codec.{encode, decode, decode-encode}

-- A signature that verifies, and one that does not.
abbrev zeros_before : ℕ → Bytes → Bytes
zeros_before zero bs = bs
zeros_before (suc n) bs = 0 ∷ zeros_before n bs

abbrev pub good_sig : Slice
good_sig = some (zeros_before 28 (9 ∷ []))

abbrev pub bad_sig : Slice
bad_sig = some (zeros_before 28 (8 ∷ []))

abbrev first_is_nine : Bytes → Bool
first_is_nine [] = false
first_is_nine (x ∷ bs) = x == 9

abbrev pub timeout_by : ℕ → MessageWithSignature
timeout_by n = record { msg = some (n ∷ []); sig = good_sig }

-- The empty bytes are a timeout certificate for view 4, others are a timeout of view 4.
abbrev pub message_of : Bytes → HotStuffMessage
message_of [] = record (zero_message MessageType.tqc) {
  view = pos 4;
  v = timeout_by 1 ∷ timeout_by 2 ∷ timeout_by 3 ∷ [];
}
message_of (x ∷ bs) = record (zero_message MessageType.timeout) { view = pos 4; source = pos x }

abbrev pub block_at : ℕ → QcBlock
block_at n = record zero_block { height = pos n; hash = some (n ∷ []) }

-- The environment at a persistence level.
abbrev pub test_env : ℤ → Env
test_env level = record {
  config = record {
    num_replicas = 4;
    max_batch_size = 2;
    eval_mode = pos 0;
    persist_level = level;
    num_of_mal = pos 1;
    num_of_sleepy = pos 0;
    view_change = false;
    gat = false;
    test_id = pos 0;
  };
  codec = record {
    marshal_message = λ m. some [];
    unmarshal_message = message_of;
    marshal_signed = λ m. some [];
    unmarshal_signed = λ b. record { msg = some b; sig = none };
    marshal_block = λ b. some [];
    unmarshal_block = λ b. block_at (length b);
    is_block = λ b. true;
    marshal_signatures = λ s. some (encode s);
    unmarshal_signatures = decode;
    marshal_request = λ q. some [];
    unmarshal_request =
        λ b. record { mtype = MessageType.write; id = pos 0; op = some b; ts = pos 0 };
    marshal_transaction = λ t. some [];
    unmarshal_transaction = λ b. none;
    marshal_blocks = λ m. some [];
    unmarshal_blocks = λ b. (pos 1, some b) ∷ [];
    is_blocks = λ b. true;
    unmarshal_view_change = λ b. record {
      mtype = MessageType.newview;
      view = pos (length b);
      seq = pos 0;
      source = pos 3;
      o = [];
      v = [];
    };
    marshal_numbers = λ m. some [];
    marshal_queue = λ q. some [];
  };
  sha256 = λ b. b;
  ecdsa_sign = λ b. (7 ∷ [], 9 ∷ zeros_before 27 []);
  ecdsa_verify = λ id msg a b. first_is_nine b;
  has_key = λ id. true;
  clock = λ n. pos n;
}

-- Its certificates are read back as they were written.
pub test_env-SignaturesRoundTrip : (level : ℤ) → SignaturesRoundTrip (test_env level)
test_env-SignaturesRoundTrip level s = (encode s, refl, decode-encode s)

-- Replica 1 leads view 1, has block 2 on top of block 1, and waits for a quorum of 3 in general.
abbrev pub test_replica : Replica
test_replica = record {
  id = pos 1;
  view = pos 1;
  leader = true;
  cur_status = ready;
  sequence = pos 2;
  cur_block = block_at 2;
  locked_block = block_at 1;
  cur_hash = none;
  voted_blocks = [];
  awaiting_blocks = [];
  awaiting_blocks_txs = record { m = []; v = []; c = [] };
  awaiting_decision = [];
  awaiting_decision_copy = [];
  committed_blocks = [];
  received_blocks = [];
  vc_awaiting_votes = [];
  vc_time = pos 0;
  buffer = [];
  timeout_buffer = record { int_buffer = []; v = [] };
  sizes = record {
    n = pos 4;
    f = pos 1;
    quorum = pos 3;
    rec_quorum = pos 0;
    squorum = pos 2;
    half = pos 0;
  };
  votes_pp = [];
  votes_cm = [];
  cer = record { certificate = []; identities = [] };
  intbuffer = record { int_buffer = []; v = [] };
  rec_buffer = [];
  req_hash = none;
  h_view = pos 0;
  queue = [];
  total_ops = pos 0;
  cur_ops = pos 0;
  begin_time = pos 0;
  last_time = pos 0;
  genesis_time = pos 0;
  force_print = true;
  connection = record { connection = []; connection_map = [] };
  disk = [];
  halted = false;
  out = [];
}

-- A vote for the hash 5 by the replica.
abbrev pub vote_by : ℕ → HotStuffMessage
vote_by n = record (zero_message MessageType.qcrep) {
  view = pos 1;
  seq = pos 3;
  source = pos n;
  hash = some (5 ∷ []);
  sig = good_sig;
}
