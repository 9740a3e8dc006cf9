-- ===== src/Lib.antt =====
-- ByteHive: file synchronisation between a server and its clients, with the user store of the host.
-- The modelled crates are crates/filesync (the synchronisation) and crates/core (users.rs and
-- registry.rs).
--
-- How the parts interact. A client and the server exchange manifests and deletion ledgers when they
-- connect (crates/filesync/src/server.rs and client.rs), compute what each has to send
-- (compute_send_list), let the ledger veto files that were deleted (filter_resurrected), and stream
-- the rest as bundles and as the chunks of large files. The receiver applies bundles, chunks,
-- deletions and renames to its root by the sync engine, which asks the ledger before every write.
-- While a client is offline its actions go to the action journal, and they are replayed when it is
-- back. The user store authenticates whoever connects.
--
-- Files, and the code they model:
--   Base: tests, equality, lists, dictionaries (HashMap), trees (BTreeMap, BTreeSet), paths and their
--     order (std::path), for every other file.
--   Protocol, Hex: crates/filesync/src/protocol.rs, and the hexadecimal hashes of lib.rs and
--     manifest.rs.
--   Ledger: crates/filesync/src/ledger.rs. DeletionLedger has the two maps of the source; record is
--     record_tombstone, the step that record and merge_remote share is offer.
--   Manifest: crates/filesync/src/manifest.rs, compute_send_list, filter_resurrected and
--     diff_manifests; Scan has build_manifest with hash_one.
--   Bundler: crates/filesync/src/bundler.rs, stream_messages and stream_large_file; what goes into the
--     channel is the list `sent`.
--   ActionJournal: crates/filesync/src/action_journal.rs. State holds the entries and both indexes;
--     Disk has the operations on the file: append, rename, ack, write_compacted, open.
--   SyncEngine: crates/filesync/src/sync_engine.rs. SyncEngine is the engine's state; Paths has
--     safe_relative, staging_path and conflict_copy_name; Admission what it does with the ledger
--     (merge_ledger, veto_for, admit_record, ...); Bundle apply_bundle; LargeFile the staged
--     transfers; Deletes apply_deletes; Rename apply_rename_at; Operations all of them as a step
--     relation.
--   KnownHosts: crates/filesync/src/known_hosts.rs, the lists of known clients and pinned servers.
--   ManifestCache: crates/filesync/src/manifest_cache.rs.
--   Transport: crates/filesync/src/transport.rs and the framing of protocol.rs. FrameReader and poll;
--     Loop has io_loop, Heartbeat the Connection with send and heartbeat_maintenance.
--   Incoming: the clamps and the handle_recv_ functions of crates/filesync/src/common.rs.
--   Client: compute_deletes_to_push of crates/filesync/src/client.rs.
--   Server: apply_client_action, broadcast_to_others and recv_action_drain of
--     crates/filesync/src/server.rs.
--   Pending: PendingChanges of crates/filesync/src/common.rs.
--   Trash: crates/core/src/trash.rs; Trash/Covering has clear_ledger_covering.
--   Registry: crates/core/src/registry.rs, the applications of the host and the routing of requests to
--     them.
--   Users: crates/core/src/users.rs. UserStore is the store's state; Credentials has the comparison
--     and the verification of secrets; Sessions login, validation and authentication; Accounts users,
--     groups and API keys.
--   Tests: the theorems at concrete inputs, and runs.
--
-- Parameters. What the program takes from the operating system and from third-party crates is an
-- argument: Fs for the engine (files, clock, trash, blake3), JournalFile for the journal's file with
-- serde_json, CacheFile for the manifest cache's, Source for what the bundler reads, App for an
-- application of the host, Argon for argon2 and sha2, TrashFs for the trash's disk and its index file,
-- Codec for bincode and lz4_flex, Disk for what a scan reads. A socket is the list of the results of its reads, and a channel the
-- list of what is sent into it. A call of the file system
-- returns a new world and whether it succeeded, so that every failure is covered. What a theorem needs
-- of a parameter is a hypothesis of it.
--
-- Conventions. A hash map is an association list whose order stands for the unspecified iteration
-- order; a path is the list of its components. A mutex or a lock is held for a whole operation, so an
-- operation is one step, and other threads' steps come between operations. A timer that the engine
-- spawns is an entry of `timers`, which a step of its own fires. Unsigned 64-bit sequence numbers and
-- 32-bit chunk numbers wrap around where the code adds to them; times and sizes are plain numbers.
--
-- Bounds and fuel. send_chunks runs on fuel, one unit for each byte of the file; each round takes at
-- least one byte, so the fuel is enough. io_loop, which the source runs for ever, and the receive
-- loops run on the list of their rounds or messages. All other loops are recursion on lists. The
-- conflict copies' names print a number with at most 20 digits, which is enough for 64 bits.
--
-- Not modelled: rustls, the threads and the sockets themselves; of the sessions, the handshake, the
-- exchange of manifests, the client's drain and receive loop; the watcher's inotify and the exclusion
-- patterns; the graphical client, the stress bench, the web applications (core's http.rs, html.rs, the
-- file browser), logging, and the configuration file with its TOML sections.
pub mod ActionJournal
pub mod Base
pub mod Bundler
pub mod Client
pub mod KnownHosts
pub mod Ledger
pub mod Protocol
pub mod Hex
pub mod Incoming
pub mod Manifest
pub mod ManifestCache
pub mod Pending
pub mod Registry
pub mod Server
pub mod SyncEngine
pub mod Transport
pub mod Trash
pub mod Users
pub mod Tests
