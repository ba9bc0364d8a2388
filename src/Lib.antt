-- ===== src/Lib.antt =====
-- Models of the core of the timich agent, with theorems about them.
--
-- The agent keeps a registry of paired devices in a JSON file and lets apps in by three ways: a pairing
-- code shown on the host, a hosted (or review) session, and a request of a nearby device that an
-- administrator approves. A device holds a refresh token, of which the registry keeps a salted hash, and
-- gets signed access tokens. In the background a scheduler plans indexing work from cached counts.
--
-- Base: names passed on, tests on numbers, lists, strings and results. A Go string is the list of its
--   code points; invalid UTF-8 is not represented.
-- AtomicFile: internal/atomicfile/write.go. WriteFile over the outcomes of its system calls, each
--   `true` for success; Directory holds the target file and the temporary one.
-- Store: internal/store/device_registry.go and nearby_link.go. Store.Registry has the records, File the
--   writes of a document (Document) that Json writes by the structs' tags and Json.Reading reads by those of
--   the payloads (`persist_locked` for persistLocked, `commit` for the write that precedes the change in
--   memory), Cleanup cleanupExpiredLocked, Load LoadOrCreateDeviceRegistry and UnmarshalJSON with Tokens,
--   Pairing CreatePairingSession and RedeemPairingSession, Rotation RotateRefreshToken, Devices the
--   hosted and review devices, renaming and revocation, LinkCode and Links the nearby links, and
--   History sequences of calls of the exported methods. Every method holds the store's lock from its
--   first read to its return, so a run of concurrent callers is such a sequence.
-- Security: internal/security/token_manager.go, access tokens.
-- Service: internal/pairing/service.go, which puts the registry and the token manager together.
-- Lifecycle: internal/lifecycle/group.go. A run is a sequence of events under the group's lock; a
--   release function is a number, and calling it twice is two events. Lifecycle.Waits has a call of Wait as
--   steps of its own, its two selects, between which events come and the caller's context may end.
-- Scheduler: internal/runtime/scheduler_work_state.go and the publication threshold and batch sizes of
--   semantic_candidate_backfill.go; Scheduler.Snapshot has the two locked sections of
--   schedulerWorkStateSnapshot, between which other calls may come.
-- Foreground: internal/runtime/foreground_activity.go, the gate that stops background work while requests
--   run; its events are the atomic operations and the locked sections, in any interleaving.
-- Uploads: internal/store/upload_store.go, upload_ledger.go and upload_cleanup.go. Db has the tables, a list
--   of rows each; Uploads.Statements has the SQL statements as functions of it, and Uploads.Action the calls
--   of database/sql: an action takes a connection, with the outcome of each statement to come, where
--   further ones succeed, and a transaction that fails puts the database back. A violated constraint is a
--   failure too. Sessions, Commits and Cleanup have the methods; a cleanup does not hold its lock between
--   the reading of the candidates and their removal, each of which checks again. History is sequences of
--   calls of the methods; SQLite runs one writer at a time, so a run of callers is such a sequence of
--   calls, less their interleaving between two transactions of one call.
-- Leases: internal/webrtcmedia/authorization.go, the sessions of the media transport and the leases that
--   authorize them. Each section under the manager's lock is an event of a run, at an instant with a wall
--   and a monotonic clock; the timers and the renewal loop are what brings the events about. RevokeDevice
--   collects the device's sessions in one section, in the order of their creation where the code's map has
--   none, and closes each in a section of its own; other events may come in between.
-- Tests: runs on concrete inputs.
--
-- A function with an error returns the state after it and a Result. A time is the number of
-- nanoseconds since Go's zero time, which is 0; the clock, random bytes and the outcomes of system
-- calls are arguments. Counts, attempts and batch sizes are natural numbers, which the code keeps below
-- the range of its integers. The text of the registry's JSON is encoding/json's: the
-- model's document is the tree of objects, with a time as a value of its own, and an object with a tag twice
-- or in other capitals is not represented. Errors of marshalling, which only a time past the year 9999
-- causes, are left out. SHA-256, HMAC,
-- base64 and the JSON of claims are the fields of the instance records Digest and Crypto. There is no
-- fuel but the bound of 16 tries that the source itself puts on drawing a link code.
--
-- The tables' texts of times have a fixed width, so a comparison of texts is one of times. strings.ToLower
-- is the parameter to_lower. The columns last_error, message and the ids of the events are left out, and
-- what an error says.
--
-- Not modelled: the opening and migration of the upload store and its reads that sort by time; the catalog
-- and its database, media, the HTTP handlers, the network clients, configuration, the recomputation of the
-- scheduler's counts, and everything outside the Go agent.
pub mod Base
pub mod AtomicFile
pub mod Store
pub mod Security
pub mod Service
pub mod Lifecycle
pub mod Scheduler
pub mod Foreground
pub mod Leases
pub mod Uploads
mod Tests
