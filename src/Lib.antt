-- ===== src/Lib.antt =====
-- Sleepy-HotStuff: a replica of the chained HotStuff protocol whose members may fall asleep and come
-- back, from their disk or with the help of the others.
--
-- The program. src/consensus is the replica: a leader takes requests from its queue and proposes
-- them (StartHotStuff, driven by RequestMonitor), the replicas vote (HandleNormalMsg), the leader
-- certifies a quorum of votes (HandleNormalRepMsg), and the certificate, carried by the next proposal,
-- commits, locks and adopts blocks (ProcessQCInfo). Timeouts and timeout certificates change the view
-- (viewchange.go). A replica that slept recovers (sleepyRec.go). src/quorum counts votes and
-- keeps certificates, src/db persists values by level, src/utils has the containers, src/message and
-- src/cryptolib the wire formats, and src/communication sends and receives.
--
-- The files.
--   Base/      Boolean tests, lists, 64-bit integers (`add_int` and `sub_int` wrap), keys of maps
--   Utils/     src/utils: map.go, set.go and utils.go, over association lists (Utils/Map); Nested has
--              the maps of maps, Text the decimal numbers, and Containers the interface of a map
--   Communication/ Connection, ConnMap, Sender, Receiver and ClientSender, after the files of
--              src/communication, and Nodes, the tables of src/config/config.go
--   Message    the structs of src/message and of src/proto/communication
--   Env        what the replica calls and does not implement, and the configuration
--   Crypto     src/cryptolib/hash.go and ecdsa.go around the primitives; Crypto/Auth is auth.go
--   Db         src/db/def.go
--   Quorum/    src/quorum/quorum.go (Sizes, Api), def.go (Buffer, IntBuffer), and sets of replicas
--              (Intersection, Voters)
--   Queue      src/consensus/queue.go; Queue/Laws has its theorems
--   Consensus/ State      the package variables of src/consensus as one record, `Replica`
--              Status     the status buffer of hotstuff.go
--              Certificates  VerifyQC and VerifyTQC
--              View       viewchange.go: views, leaders, timeouts, view changes
--              Sequence   hotstuff.go: sequence numbers and the hash chain
--              NewLeader  viewchange.go: HandleQCVCMessage, HandleQCNewView
--              Block      hotstuff.go: HandleNormalMsg, ProcessQCInfo
--              Propose    hotstuff.go and events.go: StartHotStuff, RequestMonitor, HandleNormalRepMsg
--              Recovery   sleepyRec.go
--              Reports    hotstuff.go: what is written of the chain
--              Start      InitHotStuff, the choice of the quorum sizes, sleep and waking
--              Dispatch   HandleQCByteMsg, and the replica as a state machine (`step`, `run`)
--              SleepTest  test_sleepy_hotstuff.go: which replicas sleep, and what they go through
--              Boot       def.go: StartHandler
--              Network    several replicas, and what they send to each other, as a step relation
--              and, below each of them, one module per group of theorems
--   Threshprf/ src/threshprf, a threshold function that the replica does not call: Words (word/ and the
--              conversions), Curve (what it calls of P-256 and SHA-256), Share, Keys (the dealer and
--              util.go), Prf, and Node, a party with its stored keys
--   Examples/  a concrete environment and replica, and the theorems applied to them
--
-- The correspondence. A handler `HandleX` is a function `handle_x` from an environment, a message and a
-- replica to a replica; its early returns are branches that return the replica. The handlers hold locks
-- around what they read and write, and a call is one step here: interleavings inside a call are not
-- modelled. HandleEcho1Msg is cut at the loop in which it waits (`handle_echo1_msg`, `finish_echo1`),
-- HandleRec2Msg has no result while it waits, and RequestMonitor is one turn of its loop. What a call
-- sends, spawns or arms is appended to `out`. `log.Fatal` and a panic set `halted`, after which nothing
-- is written or sent. A slice is `Option Bytes`, with `none` for nil; a panic inside VerifySig is `none`.
--
-- The parameters. msgpack, SHA-256, ECDSA, the key files and the clock are functions of `Env`. Where a
-- theorem needs it, it assumes of them that the lists of a certificate are decoded as they were encoded
-- (`SignaturesRoundTrip`), that the numbers of a signature fit in 28 bytes and that a key is there, or
-- that the disk holds values that decode (`Stores`), or that empty containers can be serialized
-- (`Encodes`). LevelDB is a map, and only a missing key fails.
-- gRPC stands behind the arguments of the calls that use it: what dialling returns, and whether a call
-- gets a reply. HMAC, AES and padding are the record `Cipher`, of which `IsCipher` states what is
-- documented. A message in `out` becomes connections and calls by the functions of Communication/.
--
-- The curve is the record `Curve`, of which `IsGroup` states that its points form a cyclic group.
-- In a network, `Unforged` states that nobody makes up the signature of a replica that is not faulty;
-- apart from that, any message may come to any replica at any time. Random bytes are arguments. A slice
-- expression of Threshprf/ reaches as far as the array of the slice: what lies behind the slice is an
-- argument (`behind`), and behind the contents of a file it is `read_buffer` of them.
--
-- Bounds. The decimal text of an integer is computed on fuel 20, since a 64-bit integer has at most
-- nineteen digits. Everything else recurses on its data. Products and sums of the configured numbers of
-- replicas are exact.
--
-- Not modelled: serving and listening, logs, JSON and files, reading conf.json, dynamic membership,
-- Merkle trees, the key files, Verify_lagrange of src/threshprf, which prints, its folders and their
-- paths, and what returns a pointer into a container of src/utils.
pub mod Base
pub mod Utils
pub mod Message
pub mod Env
pub mod Communication
pub mod Crypto
pub mod Quorum
pub mod Db
pub mod Queue
pub mod Consensus
pub mod Threshprf
pub mod Examples
