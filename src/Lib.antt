-- ===== src/Lib.antt =====
-- Stopan is a deduplicating backup system that spreads protected chunks over a cluster of nodes.
-- This library models its core in Python, under src/stopan/ of the repository.
--
-- Parts and files:
--   Prelude     texts and bytes as lists of code points and bytes, Python's dictionaries, results
--               that carry an error, Boolean tests, and the lemmas on them
--   Sorting     stable insertion sort, for sorted() and for heapq as a priority queue
--   Placement   placement/hrw.py: rendezvous hashing, the choice of k nodes for a chunk
--               Epoch: placement/epoch.py, the identifier of the context of a placement
--   Cluster     cluster/view.py: the members, the candidates and the targets of a chunk
--   Erasure     Models: protection/ec/models.py, the validated records of a data pack
--               Codec: protection/ec/codec.py, the adapter of the zfec code
--               Packer: protection/ec/packer.py, building, reconstructing and unpacking a pack, with
--               _recover_pack_chunks of restore/ec_fetch.py
--               Placement: protection/ec/placement.py, which node gets which shard
--               Parity: a code of two blocks and their sum, on which the examples run
--   Membership  Validation, Settings: node/membership/validation.py and models.py
--               Manager: node/membership/manager.py, gossip.py and the identity file of
--               node/identity.py, as a state record and one function per method
--               Identity: node/identity.py, the start-up and the text of the file; Numerals: the
--               numbers in it; Lines: what is written and read
--               View, Addresses, Convergence, History: the beliefs about other nodes
--               Steps: the runs of a manager as a relation; SelfState, Overflow, Leaving: the node
--               itself
--   Node        Drain: NodeDrainController of node/lifecycle.py, one step for each method;
--               Admission, Callbacks, Idle: its runs
--   Protection  protection/policy.py: when the stored evidence about a chunk is enough
--               States: protection/ec/states.py and protection/replication/states.py
--   Replication protection/replication/placement.py: the nodes for the copies of one chunk, and the
--               plan for many
--   Objects     Json, Kinds: the values of json.loads and the object types
--               Envelope: decode_object_envelope and iter_object_refs of
--               metadata/objects/graph/walk.py
--               Walk: the walk from the catalog; Follow, Rounds, Reach, Ends, Correct: its proofs
--               Sample: a store of two objects, on which the examples run
--               Models: metadata/objects/models.py, each class a record with its __post_init__ as
--               new_*; Ordered: the loop over items that must be distinct and sorted
--               Codec: metadata/objects/codec.py; Hints: decoding by type hints; Equality: the
--               comparison of payloads; Payloads: all classes together; Encoding: envelopes and the
--               digest of a state; PackTiles: what the record of a pack says
--   Collection  Files: what is used of the file system, as a record of operations
--               PathSafety: gc/path_safety.py; Removal: the removal of one candidate
--               LocalFiles: gc/local_files.py; Sparing: what it leaves; DryRun: what it reports
--               ObjectSweep: metadata/objects/gc.py, the walk and the sweep of the stored objects
--   Chunking    chunking/planner.py and chunk_index.py: which chunks of a backup can be skipped; and
--               the loop of backup/worker.py over the chunks of a file
--               Recipes: chunking/recipes.py, the message whose digest names a recipe
--   Batching    common/batching.py
--   Sequences   common/sequences.py
--
-- How they interact: a chunk is packed with others (Packer), the pack is cut into shards (Codec), and
-- the cluster view (Cluster) chooses by rank (Placement) the nodes that store them; the view is made of
-- the nodes that a manager (Membership) lists as eligible. What is known of a chunk's copies decides
-- whether it is protected again (Protection). A node's controller (Node) decides what work it admits.
-- The metadata of every snapshot is a graph of objects under one catalog (Objects); what the walk from
-- the catalog does not reach is removed when it is old enough (Collection).
--
-- Conventions: a definition has the name of the function that it models, without leading underscores;
-- a constructor with checks, such as __post_init__, is make_* or, for metadata objects, new_*. A method takes the state and returns
-- the state after it, and what it raised as an error value. Sizes, offsets, counts and times are
-- natural numbers, so that the checks for a negative one reject nothing here; the numbers of Protection,
-- Membership.Settings, Objects.Json and Chunking are integers where the code takes any.
-- Incarnations are bounded where a message carries them, as uint64. A text holds no lone surrogates.
-- Loops are structural recursion on the list that they run over, but for the walk of the object graph:
-- it runs on fuel, and one round for each object and each reference in the store is enough. The digits
-- of a number n are written with fuel n, which is enough, too.
--
-- Parameters: the BLAKE3 digest (its hexadecimal form has 64 lower-case digits where a theorem needs
-- it), zfec (any K of the N shards, in the order of their indexes, decode to the blocks), json.loads and
-- json.dumps, Python's floats and the equality of numbers, the reading of a stored object, its storage
-- identifier, how the atomic write of a file ends, for the walk the check of a payload
-- (Objects/Codec/Encoding fills it with the decoder), whether gRPC registers a callback, and the file
-- system with what other programs do between two looks at a file. What is needed of them are hypotheses, and the examples fill them with concrete functions.
--
-- Not modelled: gRPC calls, threads and locks (each method is one step; what peers answer arrives as
-- events), SQL, files except the identity file and those that are collected, the command line, the
-- configuration, metadata packs and their encryption, the cut
-- points of chunks, and printed messages.
pub mod Prelude
pub mod Sorting
pub mod Placement
pub mod Cluster
pub mod Erasure
pub mod Membership
pub mod Node
pub mod Protection
pub mod Replication
pub mod Batching
pub mod Sequences
pub mod Objects
pub mod Collection
pub mod Chunking
