-- ===== src/Lib.antt =====
-- A model of the manager of distributed-fs, a small replicated file system.
--
-- The program. A `ManagedFileService` (distributed-fs/managed_file_service.go) takes the calls of
-- clients. It stages an upload into a temporary file with a manifest of its chunks, asks the
-- `MetadataCoordinator` (distributed-fs/coordinator.go) for a placement, writes the chunks to the
-- primary and commits. The coordinator works on a metadata backend (distributed-fs/metadata.go,
-- behind distributed-fs/metadata_backend.go) and a queue of copy tasks (distributed-
-- fs/replication.go). A `ReplicationWorker` (distributed-fs/worker.go) takes one task at a time,
-- copies the object with the `LocalObjectReplicator` (distributed-fs/object.go) and reports the
-- outcome to the coordinator. The manager process (distributed-fs/main.go) keeps its metadata and
-- its queue in a bbolt database (distributed-fs/metadata_disk.go, distributed-
-- fs/replication_disk.go), serves the clients over HTTP (distributed-fs/http_api.go), and reaches
-- the storage nodes, which serve HTTP themselves, with an object client (distributed-
-- fs/http_object_store.go). The commands of distributed-fs/main.go are clients of that HTTP server.
-- Beside it stands an earlier prototype, a `FileServer` (distributed-fs/server.go) whose peers
-- exchange encrypted files over plain connections (distributed-fs/p2p).
--
-- The files.
--   Common        shared names, tests, lists, integers, texts
--   GoMap         Go's maps; Sorting: `sort.Slice`; Action: errors and methods that change state
--   Metadata      metadata.go: records, `MetadataStore` and its methods. Commands: its calls as data
--   Replication   replication.go: planner, tasks, retry rules. Queue: `MemoryReplicationTaskQueue`
--   Backend       metadata_backend.go and the queue's interface, with the in-memory implementations
--   Coordinator   coordinator.go, over any backend and any queue. Repair: `PlanRepair`
--   Worker        worker.go
--   Objects       object.go: the interface of object stores and the replicator. Names: the keys of
--                 objects (Distinct: different chunks have different ones). Contract: what the service
--                 expects of an object store
--   Staging       managed_file_service.go: `stageReader`; its proofs: Chunks (manifests and cuts of bytes),
--                 Invariant and Loop, Finish (the last chunk), Delivery, Manifest (the whole)
--   Service       managed_file_service.go: the service, in the children Storage (objects of one version
--                 on one node), Files (`Put`, `Get`, `Delete`), Metrics (its proofs: Counts) and
--                 Delegates; the proofs on `Put` and `Get`: Storage.Writing, Storage.Versions and
--                 Storage.Reading (the chunks of one version and of others), Manifest, Putting (the
--                 branches of `Put`), RoundTrip, Failure, Success
--   Disk          metadata_disk.go (Metadata) and replication_disk.go (Queue), over an interface of bbolt
--                 and of JSON codecs; the proofs that they refine the stores in memory: Reads and
--                 Rewrites (transactions), Mirrors, Nodes, Files and Refinement (metadata), Tasks,
--                 QueueRefinement and Restart (tasks), Sweeps (changes of many entries)
--   Http          http_api.go: Manager and Storage (the two handlers), Keys and Routes (what they accept);
--                 http_object_store.go: Client; Network, Remote, RemoteStore and RemoteRefusal
--                 (client and handler together), RoundTrip (with the file store under the handler)
--   Manager       main.go: the -node flag and the background loop. Drain: its inner loop ends
--   Store         store.go, over an interface of the file system, and `LocalObjectStore` of object.go.
--                 Laws: reading what was written, and the end of `removeEmptyParents`
--   Encryption    crypto.go: the encryption of streams, over a cipher and any writer (Writers).
--                 RoundTrip: its inverse
--   Command       main.go: the client commands and the heartbeat of a storage node. Network: requests
--                 reach the manager's handler. Rounds: a put and a get
--   Peer          p2p: connections, `DefaultDecoder` and `TCPeer`. Transport: the loops of
--                 tcp_transport.go. Server: server.go, in the children Streams (streams of known length,
--                 and `WriteDecrypt` of store.go) and Handlers; the proofs: Frames and Pieces (what is
--                 read from a connection), Sending, Receiving, Exchange (`Store` and what a peer makes
--                 of it), Fetching (`Get`) and Serving (its answer)
--   Tests         a small cluster, on which the theorems are applied
-- A function of the source has the same name in snake case; a receiver is the last argument and
-- comes back beside the result. The loops of the source are functions named after the function they
-- are in. The other children of these files hold proofs.
--
-- How Go is modelled. A map is a list of entries with distinct keys, in the order in which a
-- `range` loop visits it; the theorems hold for every such order. A time is the number of
-- nanoseconds since the zero time; a store has a field for its clock, which one call reads once.
-- Versions are uint64 and wrap; `int` and `time.Duration` are 64-bit integers with their sign, and
-- wrap. Strings are compared by code points, which orders valid UTF-8 as Go's bytes do.
-- `sort.Slice` is an insertion sort; where it is used, elements have different keys. Values are not
-- shared, so the clones of the source are the values themselves. Every method of the store runs
-- under its mutex and is one step; the in-memory queue has no lock, and its calls are taken one
-- after the other; `Put` and `Delete` of the service exclude each other by its `writeLock`. A panic
-- is an error of its own. A connection of the prototype is the pieces in which the bytes of the
-- other side come in, and the writes made so far; a read returns bytes of one piece. The goroutines
-- of the transport and the event loop are functions that the theorems run in the order they state.
-- The error results of the source are values, and the state written before an error stays.
--
-- Bounds and fuel. The loop over the bytes of one read in Staging has the number of these bytes as
-- its fuel, and every round takes at least one while the chunk size is positive. The inner loop of
-- `managerLoop` takes any fuel, and one more than the number of tasks that are not done is enough.
-- `removeEmptyParents` has the length of its first path as fuel, since every parent is shorter. The
-- loop over the messages of a connection takes any fuel, and one more than the number of its bytes
-- and pieces is enough; the reads of a stream have the number of its bytes as fuel, since each
-- takes one at least. All other loops are structural.
--
-- What is assumed of code outside the repository, as hypotheses of the theorems that use it. bbolt:
-- a bucket is a map and a `ForEach` whose function puts nothing visits each key once; what one does
-- whose function puts into the same bucket bbolt leaves open, and the theorems on the operations
-- that do so name their assumption; a transaction that returns an error is rolled back; without
-- failures of the disk it commits, and puts every key but those it documents as invalid (an empty
-- one). JSON: every value can be encoded, which is so for times before the year 10000, and is
-- decoded to itself. The buckets of the store and of the queue are different, so each is modelled
-- on a database of its own. net/url: a URL that was put together from an escaped key is parsed to
-- that key. The network brings a request to the node at its address; its body arrives whole, or the
-- client gets an error; a response with a Content-Length is cut at it. A read of an object always
-- has a Content-Length here. The file system: a file that was created and written without an error
-- has the bytes written, other files keep theirs, and a parent's path is shorter. The cipher's
-- stream, at each position, undoes itself. The codec of messages decodes what it encoded. An object
-- store (a record in Objects.Contract) that reports a write as done has its bytes, finds what it
-- has, and no call changes another object. One write stands for those of `io.Copy` to a connection.
--
-- Outside the model. The results on the service, the worker and the commands are over the metadata
-- store and the task queue in memory; the manager process has them in its database, whose calls may
-- fail besides. SHA-256, SHA-1, the temporary files and the file system are parameters. The
-- `httpStore` of the manager's handler is taken to be the object store of its service, as in
-- `runManager`. Not modelled: of the prototype, the opening and closing of sockets (`Dial`,
-- `ListenAndAccept`, `Start`, `Stop`, `bootstrapNetwork`) and `GOBDecoder`, which nothing uses; the
-- making of keys, IDs and hashes in distributed-fs/crypto.go, which calls the random source and
-- MD5; and of the command line (distributed-fs/main.go) the parsing of flags, the opening of
-- servers and databases, the timers, the signals and the demo of the prototype.
pub mod Common
pub mod GoMap
pub mod Sorting
pub mod Action
pub mod Metadata
pub mod Replication
pub mod Backend
pub mod Disk
pub mod Http
pub mod Manager
pub mod Encryption
pub mod Store
pub mod Peer
pub mod Command
pub mod Coordinator
pub mod Worker
pub mod Objects
pub mod Staging
pub mod Service
mod Tests
