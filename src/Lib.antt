-- ===== src/Lib.antt =====
-- s3lite is an S3-compatible object store: an HTTP server over a metadata database and a directory of
-- content-addressed parts. This library models its metadata actor and its part store as a whole, and of
-- the S3 layer the operations on objects and multipart uploads, maintenance, object lock, checksums and
-- addressing. What is proved is listed at the end of this comment.
--
-- The program's parts, and where they are modelled
--
-- * The rows (src/storage/manifest.rs): Storage/Manifest.antt, a record or data type for each type of
--   the source under its own name, `encode` for ManifestKey::encode and `forbids_delete`. The order
--   that encoding gives is in Storage/Manifest/Key.antt.
-- * The embedded database (the crate redb): Storage/Engine.antt, an interface of four tables whose
--   laws say that a table is an ordered map. Storage/Engine/Sorted.antt fills it with sorted lists.
--   src/storage/db/tables.rs names the tables.
-- * The actor (src/storage/db/actor.rs): one thread owns the database and answers the messages of
--   src/storage/db/mod.rs one at a time. Storage/Actor/Ops.antt has the messages `Op`, the dispatch
--   `answer` and the loop `run`. The handlers keep their names: the PARTS table and the reference
--   counts in Storage/Actor/Parts.antt, single manifests in Manifests.antt, the completion of a
--   multipart upload in Multipart.antt, buckets and the dead-letter queue in Buckets.antt, the
--   scanned key ranges and unpaged scans in Scan.antt, list_objects in Listing.antt and
--   list_object_versions in Versions.antt. The proofs stand in child modules: Parts/Counts and
--   Parts/Freed, Multipart/Collected, Invariant, Release, Scan/Ranges, Scan/Latest, Scan/Stored, Ops/Invariant, Ops/Keyed,
--   and for list_objects Listing/Items, Page, Newest, Loop and Complete.
-- * The part store (src/storage/parts.rs): Storage/PartStore.antt, the files as a map from hashes, with
--   proofs in its module Content. The ETag of a manifest is in Storage/Manifest/Etag.antt.
-- * The state of a handler (src/s3/state.rs): S3/World.antt, the database, the files and the events
--   that were emitted; the functions of other crates are its record `External`.
-- * Objects (src/s3/object.rs): S3/Object.antt with what the operations share, and its modules Put, Get
--   and Delete. S3/Request.antt has the request headers, with the ranges in Request/Ranges. The proofs
--   are in Object/Intact, Rows, Stored, Fetched, RoundTrip, Safe, Served, Removed and Locked.
-- * The collector (gc_freed_parts of src/s3/object.rs and sweep_gc of src/s3/maintenance.rs):
--   S3/Collect.antt, with proofs in Kept and Swept.
-- * Maintenance (src/s3/maintenance.rs): S3/Maintenance.antt, with proofs in Rows, Steps and Locked.
-- * Multipart uploads (src/s3/multipart.rs): S3/Multipart.antt, with proofs in Chosen and Committed.
-- * Copies (src/s3/copy.rs): S3/Copy.antt, with proofs in Slices and Payload.
-- * Tagging (src/s3/tagging.rs): S3/Tagging.antt, with proofs in Last and Stored; its header parser is in
--   S3/Request.antt.
-- * Checksums (src/s3/checksum.rs): S3/Checksum.antt, with proofs in Laws.
-- * Percent coding and queries (of src/s3/listing.rs, src/s3/dispatch.rs, src/s3/copy.rs and
--   src/s3/tagging.rs): S3/Percent.antt, with the round trip in Percent/RoundTrip. Operations on texts
--   are in S3/Text.antt.
-- * Addressing (src/s3/addressing.rs): S3/Addressing.antt, with proofs in its modules Names and Styles.
-- * Object lock (src/s3/lock.rs, with its document types of src/s3/xml.rs): S3/Lock.antt and its
--   modules Objects and Buckets, with proofs in Extend and Keep.
-- * Error values (src/http/error.rs): S3/Error.antt, and `into_response` in S3/World.antt.
--
-- How the code is read
--
-- * A handler is a function from the database to a result and a database. A write transaction is
--   `commit`: an error before the commit leaves the database as it was.
-- * The rows are kept decoded, so that bincode is the identity. Failures of redb, of bincode and of
--   the disk, and a dead actor, do not happen in the model.
-- * A String is its bytes, and the order of strings is the order of bytes. OffsetDateTime is a number
--   of nanoseconds from the earliest date, and its overflow is not modelled. The clock's value is an
--   argument; where the source reads the clock twice, there are two.
-- * u32 counts saturate at 2^32 - 1 as in the source, and sums of sizes wrap at 2^64.
-- * A HashSet or BTreeMap is a list; of a HashSet only membership is used.
-- * Loops are recursions over lists and need no fuel.
-- * A handler of object lock that reads through the actor and later writes through it takes as an
--   argument the messages that the actor answers in between. The handlers of objects, uploads and
--   maintenance are modelled without another request in between.
-- * A handler of the S3 layer is a function from the server's state to a result and a state; the
--   result is a value, an error response, or a panic where the source indexes out of bounds.
-- * The sums of `u64` sizes in a copy wrap, as they do in a release build.
-- * Random version and upload ids and the clock's values are arguments.
-- * The digits of a `u64` are printed with fuel 20, which no `u64` exceeds.
-- * The readers of XML and dates, and the derived message texts, are the record `Formats`.
--
-- Not modelled: the CORS, listing and routing handlers of src/s3, of which the percent coding is
-- there; the delivery of events; the middleware of src/http;
-- configuration and start (src/config.rs, src/main.rs, src/admin.rs). Of src/s3/bucket.rs there is
-- map_meta_err alone. Failures of the disk are left out, and the rendering of XML is that of quick_xml.
pub mod Common
pub mod Storage
pub mod S3
