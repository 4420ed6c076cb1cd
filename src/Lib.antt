-- ===== src/Lib.antt =====
-- A model of transmitic-core, the library of a peer-to-peer file sharing program, and the
-- theorems about it. Each file of the source has a module.
--
-- Common      tests, lists and slices, outcomes (`Ok`, `Err` or a panic), byte words and maps.
-- Base64      src/base64.rs. `encode` and `decode`; the build's debug assertions are the first
--             argument, and a panic is an outcome.
-- Stream      src/encrypted_stream.rs with the constants of src/core_consts.rs and
--             src/crypto.rs. `write` seals a header and, for a payload, a body; `read` undoes
--             it into the two buffers. Frames describes the bytes on the wire, Sending and
--             Receiving relate the code to them, and Sessions joins the two ends.
-- Paths       `file_contains_only_valid_chars` of src/config.rs, in a build for unix. Loops says
--             what its loops test of the parts, Pieces how the parts come from the pieces
--             between slashes, Kinds and Valid which paths these are.
-- SharedFile  src/shared_file.rs and `get_file_by_path` of src/utils.rs. It uses Paths to
--             clean a tree that came from a peer.
-- Logger      src/logger.rs. The clock is an argument and the file is part of the state.
-- AppAggregator  `app_loop` of src/app_aggregator.rs, one round as one step. It uses Logger,
--             and takes what starts a download on a connection as a parameter.
-- Config      src/config.rs: Sanitize and Verify for the checks, Changes for the operations of
--             `Config`, each of which returns the configuration, the disk and its result. It
--             uses Base64 to decode keys and Paths for the shared files; Consistent says what
--             a good file is, Ports what a port is.
-- Handshake   `TransmiticStream` of src/transmitic_stream.rs: what both sides send and check before
--             there is an encrypted stream. It uses Base64 for the public IDs; Steps says what
--             each step leaves behind, Signers whose signature a received key has.
-- Uploader    `SingleUploader` of src/incoming_uploader.rs: the messages it receives, and one
--             round of `run_loop`, which serves the file list and the files over Stream.
-- Downloader  `SingleDownloader` of src/outgoing_downloader.rs. QueueFile is the queue on the
--             disk, Receiver the messages from the app, Names the names of files on the disk,
--             and Transfer what goes over Stream: the file list, and `download_shared_file`.
--             Transfer/Kept shows what every step of a download leaves as it was.
-- FileList    the file list between the two: what the uploader sends over Stream is what the
--             downloader collects.
-- FileTransfer  a file between the two, from the first byte or from where an earlier download
--             stopped: Sent is the uploader's loop, Written the downloader's, Arrives joins them.
--
-- Numbers are native naturals with wrap-around written out; texts and paths are lists of
-- bytes, in UTF-8. A loop is structural recursion, or takes as fuel the length of what it
-- shortens in every round: `make_room` takes the number of lines, the loops that send take
-- more than the bytes that are left to send, and a loop that reads a frame in each round
-- takes the number of bytes that are left to read, and one.
--
-- Parameters: the cipher and the checksum (`Cipher`, with the law `IsSealing`), how `f64`
-- prints a size (`SizeFormat`), signatures and keys (`Crypto`), what the configuration takes from Unicode, ring, serde,
-- the encryption of its file and the file system (`Outside`), and what the uploader and the
-- downloader take from their machine (`Os`, `Host`). Not modelled: the parts of the
-- downloader and the uploader that start threads and connect, and the facade;
-- sockets, threads and locks as such (a message or a call is one step), name resolution, key
-- generation, the console.
pub mod Common
pub mod Base64
pub mod Stream
pub mod Paths
pub mod SharedFile
pub mod Logger
pub mod AppAggregator
pub mod Config
pub mod Uploader
pub mod Handshake
pub mod Downloader
pub mod FileList
pub mod FileTransfer
