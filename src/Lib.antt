-- ===== src/Lib.antt =====
-- canvas-stored: the sync core, the replicas, the trash and what the facade decides.
--
-- A device mirror keeps a local folder equal to a backend of a workspace on a hub. Its engine
-- (src/sync/Mirror.js) compares, for each key, the local digest, the hub's digest and the base that
-- the two last agreed on. The base is kept by the ledger (src/sync/Ledger.js); what is decided
-- becomes a job of the durable queue (src/sync/JobQueue.js); keys are spelled and filtered by the
-- key functions (src/sync/keys.js). The index (src/index/index.js) is the view of both sides and
-- keeps the change log that mirrors tail. The replica service (src/sync/ReplicaService.js) places
-- copies of an owner's content on several backends, by durable operations that it executes one after
-- the other. The trash (src/trash.js) records what was deleted and brings it back. The facade
-- (src/index.js) plans copies and moves, and keeps the bytes that were overwritten or deleted, by
-- their digest. All keep their state in sub-databases of one LMDB environment.
--
-- Files:
-- - Prelude: numbers, tests, lists and strings. A string is the list of its code points, whose order
--   is that of the UTF-8 bytes LMDB compares; byte lengths are those of UTF-8.
-- - Lmdb: the interface of a sub-database (get, put, remove, range in key order), which is a
--   parameter of all that uses one, and a table in memory that meets it.
-- - Keys: src/sync/keys.js. Segments splits and joins; Normalize is normalizeKey; Validate is
--   validateKey; Scope is isIgnored and matchesPrefixes; Conflict is conflictKey. Unicode's NFC and
--   the package picomatch are parameters. Decimals are printed with fuel 20, more than the digits of
--   any date.
-- - Jobs: src/sync/JobQueue.js. Types has the rows, Rows the values written, Methods the methods, one
--   function each: the queue is the two sub-databases with the counter in memory, and the clock is an
--   argument.
-- - Ledger: src/sync/Ledger.js. Rows has the rows and their keys, Methods the methods.
-- - Index: src/index/index.js. Rows has the rows and the state; Log is #append, changes and
--   trimChanges; Entries is put, get, has, delete, #logLocationDiff and the end of a transaction;
--   Listing is locationsByBackend, findByBackend and clear. An entry has the fields that
--   the index itself reads.
-- - Mirror: src/sync/Mirror.js. Decide is decide and #direct; Settle says what the job of a decision
--   does to the two sides; Engine is the state with #inScope, #skip, #agree, #markDirty and #enqueue;
--   Reconcile is #reconcileKey; Redecide is #redecide, #localRenamed and #remoteRenamed. Answers has
--   what Stored's transfers and the hub's driver answer; Transfers, Conflicts and Renames are the
--   jobs, as functions of the engine, the view of the index and these answers; Execute is #drain's
--   round, #execute and the applied versions; Passes is #reconcileDirty and reconcileAll; Link is the
--   state word with the offline timer, a step per event. A job's steps are taken together: its awaits
--   are not interleaved with other work.
-- - Trash: src/trash.js. Types has the records, the calls and their answers; Rows is prepare, finish,
--   quarantine, hasReference and sweep; Remove is remove; Restore is get and restoreItem; Discard is
--   discardItem; Listing is importLegacy and list. A method leaves the sub-database, its calls in
--   order (the saving of a record is one), and its reply. Of a reply the fields are kept that a caller
--   decides by. What Stored.removeObject writes itself of the record it is given is not among the
--   changes of the sub-database.
-- - Replicas: src/sync/ReplicaService.js. Types has plans, operations and owners; Validate is safeKey
--   and validate; Service is submit, the look-ups, list, retry and retireOwner; Ingress the pinned
--   sources; Outcomes, Place, Stage, Retire and Apply are #apply with #stage and #otherClaims; Cleanup
--   is #cleanup, whose loop has fuel for one round more than there are operations; Drain is #drain;
--   Supersede is supersede, adopt and audit. The loop over numbered names runs over the answers of
--   stat, and ends at the first name that is free. The last look at the destinations is listed among
--   the calls. A cleanup is taken to go through, and a pass not to be stopped while it runs.
-- - Stored: src/index.js. Urls is #parseStoredUrl; Names is #normalizeKey and #isSafeKey, whose
--   isAbsolute is that of POSIX; Conditions is #checkPrecondition; Transfers is #planTransfer with
--   #resolveSourceLocation, #readableLocations and #freeKey, whose fuel is its 1000 tries. The
--   answers of backends and of the index while a plan is made are those of one moment, and a stat
--   that fails answers that nothing is there. Locations is #mergeLocations, #dropLocation,
--   #displace, #displaceTargets, #removeMissingLocations and the counts of #holdKeys, of the keys
--   left when the drivers that filter their own echoes are set aside. Retention has the entries of
--   retained bytes; Retained is #retain, getRetained and discardTrashBytes; Sweeps is listRetained,
--   sweepRetained and forgetRetained, where retention is on.
-- - Tests: runs at concrete inputs.
--
-- A method that throws returns none. Loops run over lists that were read before them, as the
-- sources' do, or over the rows of a range.
--
-- Not modelled: events, timers and logging; opening and closing the environment; the catch-up and
-- rebuild of a mirror's hub view; failed transactions of the index; the facade's writes, scans and
-- streams of bytes; the cache, the backends and the metadata extractors; the executor's lease and lock
-- file and recordRelocation of the replica service; the promise chains that keep calls apart.
pub mod Prelude
pub mod Lmdb
pub mod Keys
pub mod Jobs
pub mod Ledger
pub mod Index
pub mod Mirror
pub mod Trash
pub mod Stored
pub mod Replicas
pub mod Tests
