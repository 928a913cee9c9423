-- ===== src/Lib.antt =====
-- A model of the Silo comic pages plugin: the extraction of bounded comic pages from an archive
-- (internal/archive), the runtime that authorizes requests and serves extracted pages from a cache
-- (internal/silo), and the routes in front of it (internal/server).
--
-- The program. `archive.Extract` opens an archive under limits, copies every regular entry through
-- readers that charge its bytes, keeps the entries that are images, and names them in natural
-- order. It runs in a child process. The backend starts one such job per key under a reservation of
-- the page cache, commits what the child reports as an entry of the cache, and reads pages through
-- handles that pin their entry. All operations of the cache run under one lock.
--
-- The files.
--   Prelude             shared names, Boolean tests, lists, results, and integers over the
--                       naturals; Prelude/Strconv the conversions of numbers in Go's strconv
--   Archive/Errors      the errors of internal/archive/archive.go and `normalizeArchiveError`
--   Archive/Limits      `Limits`, `DefaultLimits`, `normalizeLimits`
--   Archive/Image       `checkImageDimensions`
--   Archive/Readers     `archiveLimitReader.Read`, `entryLimitReader.Read`; Readers/Copy the copy
--                       loop of `consumeEntry`, with what it writes in Copy/Written and the files
--                       that it leaves alone in Copy/Quiet
--   Archive/Zip         `preflightZIP` of internal/archive/zip_preflight.go; Zip/Search its search for
--                       the end record, Zip/End that record, Zip/Directory its walk
--   Archive/Names       `naturalCompare` of internal/archive/archive.go
--   Archive/Context     `contextFile` and `contextReaderAt` of internal/archive/archive.go
--   Archive/Formats     `imageName` and `imageMediaType` of internal/archive/archive.go
--   Archive/Inspect     `inspectImage` of internal/archive/archive.go
--   Archive/Entries     `consumeEntry` and the loops of `extractZIP` and `extractRAR`, with the
--                       files that an extraction tracks; Entries/Tracked what the tracking keeps
--   Archive/Pages       `materializePages`
--   Archive/Extract     `Extract`, its checks, and the frames of `extractZIP` and `extractRAR`;
--                       Extract/Kept and Extract/Cleanup the files that it makes and removes
--   Silo/Config         `normalizeConfig` of internal/silo/config.go; Config/Entries
--                       `ConfigFromEntries` and `validateBaseURL`, Config/Twice a second normalization
--   Silo/Requests       `validateRequest` of internal/silo/backend.go, and internal/silo/errors.go;
--                       Requests/Decode `UnmarshalJSON`
--   Silo/Jobs           fingerprints and the errors of an extraction, of internal/silo/backend.go
--   Silo/Client         internal/silo/client.go; Client/Answers what its answers establish
--   Silo/Authorize      `authorize` and `Health` of internal/silo/backend.go
--   Silo/Runtime        the admission of requests and jobs, their ends and `close`, of
--                       internal/silo/backend.go, with the goroutines as a step relation;
--                       Runtime/Counts and Runtime/Listing its invariants, Runtime/Refines its use
--                       of the cache
--   Silo/Lifecycle      `Configure` and `Close` of the backend, which replace a runtime by another;
--                       Lifecycle/Orderly and Lifecycle/Steps the invariant, Lifecycle/Exclusive
--                       what it establishes
--   Silo/Extractor      internal/silo/extractor.go and internal/silo/resource_limits_linux.go
--   Silo/Backend        `Pages`, `Page` and `waitForJob` of internal/silo/backend.go; Backend/Found
--                       the entries that they answer from
--   Silo/Extraction     `extractJob` of internal/silo/backend.go, the body of a job
--   Server              internal/server/server.go; Server/Answered the form of its answers
--   Silo/Constants      the constants of internal/silo/config.go
--   Silo/Keys           `normalizeKey` of internal/silo/backend.go
--   Silo/Cache          internal/silo/cache.go: State its types and owned paths, Entries and
--                       Pending its two maps, Remove `removeLocked`, Sweep `retryPendingLocked`,
--                       `sweepLocked`, `sweep` and `close`, Evict `evictUntilLocked`, `reserve` and
--                       a reservation's `release`, Lookup `lookup` and a handle's `release`, Commit
--                       `commit`, with what it stores in Commit/Stored, Start `newPageCache`, with
--                       what it may remove in Start/Spared, Closed what leaves the cache's end alone,
--                       Invariant the accounting of charges, System the cache with its callers
--   Silo/Page           the chunk of a page that `Page` of internal/silo/backend.go serves;
--                       Page/Chunk the bytes of one, Page/Reads a client that reads all of them
--   Main                main.go: the choice of a command and the extract command; Main/Flags its
--                       flags, Main/Arguments the arguments between parent and child,
--                       Main/Child the parent and its child together, Main/Configure the handler
--                       that decodes the host's entries for the backend
--   Examples            the properties at concrete inputs
--
-- The state. A Go map is an association list in the order of a `range` over it; a pointer to an
-- entry is its key with a serial number that no other entry has. A size of Go's int64 is an integer
-- without wrap-around: every size that the cache adds is bounded by its budget or by the page
-- limits. A time is a number of nanoseconds. The operating system is a record of answers that each
-- call is given anew, so a step can fail in any way that the system lets it fail. An error is its
-- identity under `errors.Is`, without its text. A path is the list of its elements below the root
-- directory.
--
-- Fuel. The eviction loop runs for as many rounds as there are entries: each round removes or
-- retires one candidate. The copy loop takes fuel above the page's budget: each round that goes on
-- takes at least one byte from it. The walk over a ZIP directory takes fuel above the directory's
-- length: every header takes at least 46 bytes of it. The loop of the natural comparison takes as
-- many rounds as the first name has bytes, since every round takes one. The loop over a RAR
-- archive's headers takes fuel above the entry limit, which ends it. For a reader that breaks the
-- contract of `io.Reader` and makes no progress the copy of an entry would not end; the model ends
-- it with an error. The attempts to make the owner marker take fuel, since another process may make
-- and remove it each time; an attempt out of fuel counts as refused.
--
-- What is not modelled: the lock file of the cache's root, the archive, image, HTTP and JSON
-- libraries, the plugin library's server with the signal handler, and the release tool
-- cmd/catalog-index. In a handler of Silo/Backend other goroutines change the
-- runtime while the host is asked and while a job is waited for; the body of a job in
-- Silo/Extraction finds the cache as it left it. What other goroutines do to the cache in between is
-- in Silo/Runtime, which leaves the order of a job's steps to its phases.
pub mod Prelude
pub mod Archive
pub mod Silo
pub mod Server
pub mod Main
mod Examples
