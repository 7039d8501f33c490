-- ===== src/Lib.antt =====
-- Verification library of the RouteViews cloud storage services.
--
-- The program moves archives of BGP updates from an FTP site into buckets of an object store, and
-- turns them into lines of JSON that BigQuery reads.
--   * cmd/archive_upload_server takes a file by gRPC and stores it with its project as metadata:
--     Server, with Server/Upload, Server/Idempotent, Server/Command for its start and
--     Server/Order for the order of its configuration.
--   * cmd/converter is told of that metadata and converts the archive with pkg/mrt_converter:
--     ConverterServer, with ConverterServer/Command for its start and ConverterServer/Repeat for
--     a message that is delivered twice; Converter, with a module for the collector's name, for
--     a BGP update, for the loop over the messages of an archive and for the archive as an
--     object. Pipeline joins an upload to its conversion. cmd/utils/convert_local converts a
--     file: ConvertLocal.
--   * pkg/synchronizer lists the FTP site and sends what is missing to the upload server:
--     Synchronizer, with modules for months, file names, directories, the listing (Compile,
--     with Compile/Covers for what it does not leave out) and the uploads, Synchronizer/Connection for its connection to the site, and Synchronizer/Schedule
--     for its goroutines. cmd/archive_synchronizer runs it: SyncCommand.
--   * cmd/archive_upload_mass_upload walks the whole site: MassUpload, with MassUpload/Channel
--     for its threads and MassUpload/Channel/Report for the metrics that they share, and
--     MassUpload/Url and MassUpload/Command for its flags and its client.
--   * cmd/archive_upload_client and pkg/utils/upload make requests and checksums: Client, and
--     UploadCommand for the command. pkg/auth makes the connections of the clients: Auth.
--   * Deployment has the upload server as its clients call it; Deployment/Archiving,
--     Deployment/Complete and Deployment/Service join it to the synchronizer, UploadCommand to
--     the upload client.
--   * cmd/utils/convert_all triggers the conversion of a bucket: ConvertAll, with
--     ConvertAll/Workers for its goroutines; Pipeline/Backfill joins it to the conversion.
--   * pkg/bq_transfer creates the transfers to BigQuery: BqTransfer, with BqTransfer/Fetch for
--     the search for month directories and BqTransfer/Dirs for the paths that it looks for. cmd/utils/transfer_all calls it: TransferCommand, with
--     TransferCommand/Command for its start.
--   * Historical-ROA keeps a history of route origin authorizations: Roa, with Roa/Merge for its
--     MERGE statement, Roa/Update for an update of the table, Roa/Results for what a search
--     shows, Roa/Journey for both together and Roa/Web for the start and the redirect; Migration
--     is movefromoldtonew, with Migration/Command for its transaction.
--   * cmd/pubsub_forwarder puts messages into a task queue: PubsubForwarder, with
--     PubsubForwarder/Command for its start.
--   * proto/rv.pb.go has the messages: Proto.
-- A Go function keeps its name in snake case; a function named for a stage, such as body_stage, is
-- the rest of a Go function after the call that it is named for. Base has what the modules share,
-- Strings and Time what the program uses of Go's strings, filepath and time.
--
-- Libraries outside the repository are parameters. Storage is the interface of the object store
-- with its documented laws, and Storage/Memory a store that has them; Converter/Interface has
-- gobgp and gzip, Backoff the retries. The checksum, bzip2, the JSON encoder, HTTP and FTP are
-- functions.
--
-- Numbers are natural numbers; the places where the code wraps around, the length in an MRT header
-- and the masks that the page of Historical-ROA shows, are taken modulo 2 ^ 32. The conversion
-- runs on fuel, one more than the bytes of the archive: each message that is read has a header, so
-- that the fuel never runs out. The loop over the days of a span has one round for each day that
-- begins in it. The search of pkg/bq_transfer runs on a given number of listings; on a bucket with
-- finitely many directories their number is enough.
--
-- Concurrency: Synchronizer/Schedule has the goroutines of Sync in any order, where a step is all
-- that one of them does with one file, retries included, and sync_dirs has one of these orders.
-- MassUpload/Channel has the walk, the channel and the workers in any order, where a step of a
-- worker is one round of its loop, and what logging in to the FTP site gave each worker is an
-- argument. ConvertAll/Workers has the listing and the workers in any order, where a step of a
-- worker is one call to the store; the notifications of the bucket are a list of the updates that
-- the store took.
--
-- The database client of Historical-ROA is the interface Warehouse, whose law says that its MERGE
-- does to the two tables what Roa/Merge says, once its job was run and waited for without an
-- error. The statements and the transaction of the migration are the interface Database, whose
-- queries yield rows with the errors of their scans and of their end, and the files of
-- convert_local the interface Disk, where several paths can lead to one file. Not modelled: what net/http and gRPC do with a request before its handler,
-- dialling beyond the options of Auth, generated code, the test program of Historical-ROA,
-- logging, and the values that error messages print.
pub mod Base
pub mod Proto
pub mod Storage
pub mod Strings
pub mod Server
pub mod Converter
pub mod Pipeline
pub mod ConverterServer
pub mod Client
pub mod Auth
pub mod PubsubForwarder
pub mod Migration
pub mod Time
pub mod Synchronizer
pub mod Deployment
pub mod MassUpload
pub mod Roa
pub mod ConvertAll
pub mod ConvertLocal
pub mod BqTransfer
pub mod Tests
pub mod Backoff
pub mod SyncCommand
pub mod TransferCommand
pub mod UploadCommand
