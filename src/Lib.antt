-- ===== src/Lib.antt =====
-- Verification of fa, a file agent: a Go server that stores, transfers, digests and backs up files.
--
-- The program's parts. The routers (web/routers) take requests and call the store
-- (internal/storage), which keeps uploads, backups and bills in a database through gorm. Uploads come
-- in parts, whose digests follow the convention of pkg/cipher. Downloads are counted by
-- internal/download and billed by internal/billing. Backups run through internal/backup, which limits
-- how many run at once and passes them to kopia, as jobs of internal/app. File contents are read
-- ahead by pkg/asyncreader into the buffers of pkg/pool. The other packages are helpers.
--
-- Which file models which part (the paths are from the repository's root):
--   Pool         pkg/pool/pool.go: New, Get, Put, Flush, flush, flushAged, kickFlusher,
--                updateMinFill. A step is one critical section of the mutex; a run is any list of
--                steps. The system's answers to allocations are arguments.
--   AsyncReader  pkg/asyncreader/asyncreader.go: New, init and its goroutine, fill, Read, SkipBytes,
--                StopBuffering, Abandon, Close, ReadFill, and WriteTo (Writing; Delivery says what it hands over). The channels are lists and
--                counters, the goroutine's round is a step, and the supplied reader and writer answer by
--                their contracts.
--   Cipher       pkg/cipher/md5.go: MD5Single, MD5ByChunk, MD5ByChunkConcurrent. MD5, hexadecimal
--                text and the text with the number of chunks are parameters (`Digest`).
--                Cipher/Chunks is the independent description: the chunks of a file, and its etag.
--   Upload       web/routers/uploader.go (uploadPart, completePart) with internal/storage/upload.go
--                (UploadPart, CompletePart). The database is a parameter (`Database`) with two laws:
--                an upsert of a part does not change which upload a token or a key finds.
--                hex.DecodeString is a parameter that reads what hex.EncodeToString writes.
--   Sessions     internal/storage/upload.go (InitUpload, UploadPart, the deletions, Clean, ScavengeUpload)
--                with initMultipartUpload of web/routers/uploader.go and doCleanUpload of
--                web/routers/file.go, on lists of rows (Sessions/Table). The database's LIKE is a parameter.
--   Throttle     internal/backup/default_provider.go: tryLockBackup, unlockBackup,
--                setMaxParallelBackupsLocked. A step is one critical section; the goroutines in the
--                condition's Wait and those released from it are counted.
--   Download     internal/download/cachemgr.go: Record, serve, publishOne, publishBatch, Close.
--   Stat         internal/backup/stat.go: the counters of RepoStat, modulo 2 ^ 32.
--   Providers    internal/backup/priority_queue.go: Less, Swap, Push, Pop, Get and the assignments of
--                update, as container/heap calls them.
--   Retry        pkg/retry/retry.go: WaitWithBackoffAndRetries and WaitWithBackoff, without the lengths
--                of the pauses.
--   Billing      internal/billing/usage.go: SendEfsUsage, SendBackupUsage, SendTransferUsage, with
--                internal/storage/bill.go and scanFailedUsage of web/routers/server.go. Billing/Samples has
--                sampleEfsUsage and sampleS3Usage of the same file.
--   Paths        pkg/iotools/file.go: SubElem, on Go's filepath.Clean and filepath.Rel for Unix, which the
--                module writes out. A path is its parts and whether it begins at the root.
--   Proc         the monad of the procedures below: each call of the operating system is recorded, and
--                the answers (`Os`) are a parameter that may depend on all the calls before.
--                Proc/Keeps says what all calls of a procedure satisfy, by its parts.
--   Files        pkg/iotools/file.go and pkg/iotools/ioctx.go: EnsureOwnDirR, EnsureOwnFileR, EnsureDir,
--                ChownDirR, ChownR, CreateOwn, Remove, RemoveFileR, ReplicateDir, Move2Dir, Move2File,
--                and the copies of files, links and directories.
--   CloudStorage web/routers/file.go: sanitizePath, rootPath, newDir, moveDir, renameFile, deleteFile,
--                copyFile (Copying), listFile with its pages and order (Listing), and the handlers
--                listFile (Listing/Handler), batchDelFile and the end of copyFile (Batches).
--   CopyLines    internal/storage/copyline.go: the lines of copies, with and without a group, and
--                ScavengeCopyLine; copyLineProcess of web/routers/file.go.
--   Balance      internal/billing/balance.go: newBalanceCache and its heartbeat, loop, query, Query,
--                QueryBalance, Close. An event is one critical section; the service's replies are
--                arguments, and a float32 is a parameter. Balance/Landed says which reply a balance comes
--                from, Balance/Staleness when the cache is stale, Balance/Callers what a call answers.
--   Jobs         internal/app/job_ctx.go: RegisterJobWithTimeout, GetJobCtx, DeRegister, scavenge, Stop, and
--                the goroutine of a job (Jobs/Actions). An event is one atomic action; a send or a
--                close that panics ends the run.
--   Transfers    internal/app/transfer_ctx.go: RegisterJobWithTimeout, GetJobCtx, block, DeRegister,
--                scavenge, Stop, in events as for Jobs. Transfers/Counting has the states and the wait
--                group, Transfers/Late the panics.
--   Dispatch     pkg/queue/queue.go: createDispatcher, Start, dispatch, the loop of a worker, SubmitJob,
--                Close, in events too. Dispatch/Effects says what each event changes, Dispatch/Delivery
--                where the channels of the workers are, Dispatch/Accounts where the jobs are,
--                Dispatch/Closing what is left when Close returns.
--   Backups      internal/backup/default_provider.go: CancelBackup, CancelRestore, CancelBackups,
--                CancelRestores, DeleteBackup, DestroyBackendRepo, Close; Backups/Attempts has BackupFile
--                and RestoreFile, Backups/Store the tables of internal/storage/backup.go, Backups/Hooks what jobs
--                write through the hooks of internal/backup/kopia_provider.go while Close waits.
--   Prelude      tests, lists and integers over the native numbers, Go's strings as lists of characters,
--                sorting by a key as Go's sort package does it, sums over lists (Totals), and what comes
--                of an event (Steps).
--
-- How they meet: Upload uses the digests of Cipher, and its completion is compared with MD5ByChunk
-- of the whole file. CloudStorage calls Files, Files asks Paths which directory holds which, and
-- both run in Proc; Batches ends the lines of CopyLines. Backups counts in Stat, and its select
-- reads the channels of a job of Jobs. AsyncReader takes its buffers from Pool, which it sees as a
-- count. Jobs, Transfers and Dispatch run events by the same helpers, of Prelude/Steps; Transfers has
-- the map of names of Jobs. A server submits the usages of Billing as jobs of Dispatch.
--
-- Bounds and fuel. Integers of Go are natural numbers or ℤ. Offsets of uploads are taken modulo
-- 2 ^ 64, and Seek refuses those from 2 ^ 63 on; sums of download sizes wrap at 2 ^ 64 and are
-- negative from 2 ^ 63 on. In Cipher the products of chunk sizes are those of files of less than
-- 2 ^ 62 bytes, which do not overflow. The loops of Cipher run on fuel, one round for each byte and
-- one more; the theorems state how much they are given. The loops of SkipBytes, WriteTo and ReadFill
-- run on fuel too, in the number of queued buffers and of bytes asked for. The copy of a directory runs on
-- the depth of the tree; a deeper tree ends it with an outcome of its own, and what is stated of its
-- calls holds for every depth. Sizes and numbers of pages wrap at 64 bits.
--
-- Paths are judged by their text, as the code judges them: symbolic links are calls and kinds of files,
-- but no path is resolved through one, so that `Confined` and `LiesIn` say nothing of where a link on a
-- path leads. A call on a path of a storage can change something outside it through such a link.
--
-- Not modelled: what is calls of libraries with little logic between them, which are the backup provider
-- of kopia with its streams and snapshots, the HTTP routers and middlewares on gin, the wiring and
-- refresh of the server, the commands, configuration, logging, metrics and audit records; zip archives,
-- the tail of a file, the handler batchCopyFile and the error path of MD5ByChunkConcurrent; and the small helper
-- packages for sampling jobs, exit hooks, mounts and memory maps. Times, the file system's failures
-- and the database's failures are left out of the parts that are modelled, except where an argument
-- stands for them.
pub mod Prelude
pub mod AsyncReader
pub mod Backups
pub mod Balance
pub mod Billing
pub mod Cipher
pub mod CloudStorage
pub mod CopyLines
pub mod Dispatch
pub mod Download
pub mod Files
pub mod Jobs
pub mod Paths
pub mod Pool
pub mod Proc
pub mod Providers
pub mod Retry
pub mod Sessions
pub mod Stat
pub mod Throttle
pub mod Transfers
pub mod Upload
