-- ===== src/Lib.antt =====
-- rdedup, a deduplicating backup store (lib/src, sgdata/src).
--
-- Data that is backed up is cut into chunks at edges that depend on its content (Chunking for
-- lib/src/chunking.rs). Each chunk is hashed (Hashing for lib/src/hashing.rs), looked up under its
-- digest in all generations, and, if it is new, compressed, encrypted and written (Processing for
-- lib/src/chunk_processor.rs with Processing/Encode; Compression and Encryption for the files of
-- those names). The digests come back from a pool of workers in any order and are put in order
-- (Sorting for lib/src/sorting_recv.rs and EnumerateU64 of lib/src/util/mod.rs). While there are
-- two or more, they are data of the next index level (Writing for chunk_and_write_data_thread and
-- write of lib/src/lib.rs), and the last one is stored under the name of the backup (Name for
-- lib/src/name.rs). Reading goes the other way (Reading for lib/src/reading.rs: IndexTranslator is
-- translate, read_recursively its recursion on the level, Reading/Accessors the accessors and
-- Reading/Decode the middle of read_chunk_into). Chunks of older generations are moved to the
-- newest one as they are met.
--
-- The other parts: SgData (sgdata/src/lib.rs), scattered data over the slices of owning_ref;
-- Generation (lib/src/generation.rs), the names of generations; Nesting (get_path of
-- lib/src/config/mod.rs), where a chunk lies; Config (lib/src/config, lib/src/pwhash.rs) and
-- Settings (lib/src/settings.rs), what a repository is configured with; Aio
-- (lib/src/aio/backend.rs), the interface of a backend and its laws over keys instead of paths;
-- Store, what it means that a store has a chunk and keeps it. Base and Io hold the shared types,
-- list lemmas and the state-passing monad. Tests holds stand-ins for the crates, a backend in
-- memory (Tests/Memory) and runs of the theorems.
--
-- Conventions. io::Result is Result, with panics for a failed assertion or unwrap, and stuck for a
-- loop that ran out of fuel. A byte is a number, a path the list of its components. u64 additions
-- wrap. The crates (rdedup_cdc, sha2, blake2, sodiumoxide, flate2, bzip2, hex, bytevec, serde_yaml,
-- owning_ref) are parameters, and what the code relies on in them is a record of laws: IsArcRef,
-- IsChunking, IsStreamHash, IsSodium, IsDecoders, IsCrates, IsYaml, IsConfigYaml, IsReader;
-- and in a backend IsBackend, IsDirs and KeepsConfig.
-- Random draws are arguments. The chunker's next has as fuel the bytes and buffers it has yet to
-- see, each round taking one off; all_chunks has two rounds more than bytes; the levels of an index
-- are bounded by 58, as chunks of 64 bytes at least halve the data at each level, which serves 2^63
-- bytes. In writing, the processors appear as the order in which the messages are handled, one
-- after the other and each whole.
--
-- The operations on names and generations are in Repository (lib/src/lib.rs with the listing of
-- lib/src/name.rs and the configurations of lib/src/generation.rs), Repository/Collect (gc),
-- Repository/Verify (verify, du and list_reachable_chunks, with Reading/Recording;
-- Repository/Verify/Noted for chunks that cannot be read) and
-- Repository/Stored (write). Input is the thread that reads what is backed up. Repository/Listing
-- is about what the listings depend on. Repository/Stands says what it means that a name stands in
-- a row of generations, which is what the operations are to keep. A row of generations is given
-- newest first: the theorems on names and chunks take the generations that read_generations has
-- returned.
--
-- Aio/Pool is the pool of threads of lib/src/aio/mod.rs: each thread is a state of its own, step is
-- what it does under the lock of the shared data or one call of the backend, and run lets the
-- threads step, and clients send messages, in any order that a list of events gives. The calls of
-- the backend are taken to return. The operations in Repository, Name and Reading wait for each
-- result, and call the backend itself: Aio/Pool/Client is about what such a call gets, and
-- Aio/Pool/Client/Schedule, with Aio/Pool/Client/Steps, about the orders in which the threads may
-- step meanwhile.
--
-- Disk is a file system, as far as Local uses it: files by path, directories, and calls that fail
-- only for what is or is not there. Local (lib/src/aio/local.rs) is the backend on it, each
-- operation of LocalThread a function of that name. Local/Shapes and Local/Names say which paths
-- are of files, directories and temporary files, Local/Sound which disks keep to that, and
-- Local/Backends makes the operations a backend over such disks: it refuses a call that would leave
-- another disk, which no call at the path of a key or of a directory does (Local/Through). The
-- crate walkdir, hex::encode (IsHex) and the extension that a thread draws are parameters.
--
-- The loops of Xz2 have fuel for as many empty writes in a row as the writer of lzma may make, and
-- those of SGReader a round for each part.
--
-- Repository/Opening makes, opens and changes a repository (init, open, change_passphrase of
-- lib/src/lib.rs with write and read of lib/src/config/mod.rs). Its file is beside the generations:
-- it is under no key, and Local/Configs is about LocalThread at its path.
--
-- Not modelled: the B2 backend (calls of a service), the locks, the choice of a backend from an
-- address, the shutdown of the pool, and the command line. Of the garbage collection the two parts
-- and the loop are modelled, and that the parts keep what stands is proved, not that the loop
-- does.
pub mod Base
pub mod SgData
pub mod Sorting
pub mod Chunking
pub mod Generation
pub mod Io
pub mod Hashing
pub mod Encryption
pub mod Compression
pub mod Nesting
pub mod Aio
pub mod Input
pub mod Name
pub mod Reading
pub mod Store
pub mod Processing
pub mod Writing
pub mod Config
pub mod Settings
pub mod Repository
pub mod Disk
pub mod Local
pub mod Tests
