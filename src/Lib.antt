-- ===== src/Lib.antt =====
-- A model of Polar Express, a backup program. It looks at the files of a directory tree, records a
-- snapshot of each file that has changed, splits the file into chunks, packs new chunks into
-- bundles, encrypts and hashes each bundle, records it in a database and uploads it. Each of the
-- three stages is a state machine, and machines run in pools whose queues are bounded by weight.
--
-- The parts, and where their code is (paths from the repository's root):
--   StateMachine    src/state_machines/state-machine.h, the engine: an event queue, tasks on a strand,
--                   external callbacks that services invoke, the idle flag and the done callback.
--                   The fields of the class are those of the record Machine. A handler is a function
--                   from the object's fields to new fields and a list of commands: PostEvent,
--                   CreateExternalEventCallback, SetIdle, and calls of the owner's callbacks. `none`
--                   is a failed assertion. Steps of any order of tasks, callbacks and calls are the
--                   relations of StateMachine.Queue and StateMachine.Control; the latter has the
--                   interface Protocol, which a machine fills with what holds in each of its states.
--   BundleMachine   src/state_machines/bundle-state-machine.h and .cc: the table, all handlers and the
--                   public methods. The services that it waits for change its fields by the relation
--                   Served; the bundle and the compressor are the interface Services.
--   SnapshotMachine src/state_machines/snapshot-state-machine.h and .cc with src/util/snapshot-util.cc:
--                   the table, all handlers, and the comparison of snapshots.
--   Pool            src/state_machines/state-machine-pool.h and one-shot-state-machine-pool.h: the
--                   queue of weighted inputs, and one machine for each input. Its child Pipeline has
--                   snapshot-state-machine-pool.cc, whose results are inputs of the pool behind it;
--                   of that one it has the queue, and steps that take inputs off. Its child
--                   Persistent has persistent-state-machine-pool.h, whose machines move between the
--                   idle, the active and the terminated ones. A set is a list with no element twice,
--                   the map of weights a function, and Around what other pools answer to a call.
--   ChunkHasher     src/services/chunk-hasher-impl.cc and chunk-reader-impl.cc: the loop that splits a
--                   file into blocks and hashes them.
--   BundleHasher    src/services/bundle-hasher-impl.cc: the linear and the tree hash of a bundle.
--   Tar             src/file/tar-header-block.cc: a header block as a list of 512 bytes.
--   Bundle          src/file/bundle.cc with src/base/container-offset-ptr.h: the TAR archive that a
--                   bundle is. A header block is named by its offset, as it is in the code.
--   EncryptedFileHeaders  src/file/encrypted-file-headers.cc: the setters and the header block.
--   Http            src/proto/http.proto: requests and responses as records.
--   AmazonHttpRequest  src/util/amazon-http-request-util.cc: how a request is signed and authorized.
--   GlacierConnection  src/network/glacier-connection.cc: the operations on a vault, with the pending
--                   operation and its handler; JSON values are the data type Json. Its child Session
--                   has Open and Reopen over the HTTP connection, with the strands that
--                   src/base/asio-dispatcher.cc has for the kinds of use.
--   UploadMachine   src/state_machines/upload-state-machine.h and .cc: the table, all handlers and the
--                   public methods, over the operations and handlers of GlacierConnection. What the
--                   services answer is the relation Served, and a call of a public method is Call.
--                   Several of its events may be under way at once, so it fills the interface of
--                   StateMachine.Guide and not Protocol.
--   HttpConnection  src/network/http-connection.cc and the requests of http-client-connection.cc:
--                   headers and requests as text. What boost and curl do with strings is TextTools.
--   StreamConnection  src/network/stream-connection.h and .cc, tcp-connection.cc and ssl-connection.cc:
--                   a stream with one read and one write under way. How asio delivers the pieces of
--                   a read is the contract IsDelivered; that no terminator is split between two
--                   pieces, which the code does not handle, is the condition IsUnsplit. Whether a
--                   vector can be made is can_allocate, and `none` the use of an object that is gone.
--   HttpClientConnection  src/network/http-client-connection.cc: one request at a time over a stream,
--                   its handlers from the status line to the last chunk. Waiting is what the stream
--                   was asked for, Outcome how a handler ends, and Ends the runs of all deliveries
--                   in which no terminator is split.
-- Hash is the interface of the digest engines, and Base has the shared names and lemmas.
--
-- Numbers are natural numbers, and subtraction stops at 0. A sum or a difference of weights, which the
-- code may wrap in a pool, has its remainder written out. The bytes of the chunks that wait in a
-- bundle machine are those of one file, and not bounded. An octal field holds as many digits as the
-- code gives it; a number with more is a failed assertion.
-- Fuel bounds four loops. The loop over whole pieces in HashData has as much fuel as the vector has
-- bytes, and each round consumes at least one. The recursion of ComputeFinalTreeHash has one more
-- than there are digests, and each level has fewer of them. The loop over the blocks of a file is
-- given its fuel by the caller: more than the file has bytes is enough, since a block has one.
-- The loop over the lines of headers has enough fuel with one for each byte, which is what
-- parse_response_headers gives it.
-- A status code is an int32, and the size of a chunk a size_t: a stream reads a larger number as the
-- largest, and a negative size wraps.
--
-- Not modelled: libraries (Crypto++, protobuf, zlib, SQLite, boost) are parameters with what their
-- manuals promise; the dispatcher's threads, since the machines of one strand never run at once; the
-- sockets of asio and the TLS of OpenSSL; the HTTP server; key loading and options; the metadata
-- database, which is SQL; the bundle and upload pools, the cryptor and the compressor, the search for files,
-- the executor and the main program. Times of observation and log output are left out.
mod Base
pub mod Hash
pub mod Http
pub mod AmazonHttpRequest
pub mod StreamConnection
pub mod HttpConnection
pub mod HttpClientConnection
pub mod GlacierConnection
pub mod BundleHasher
pub mod StateMachine
pub mod BundleMachine
pub mod UploadMachine
pub mod Tar
pub mod Bundle
pub mod SnapshotMachine
pub mod EncryptedFileHeaders
pub mod ChunkHasher
pub mod Pool
