-- ===== src/Lib.antt =====
-- huskyCI: a model of the API of huskyCI, which scans repositories with security tools in
-- containers and reports their findings, with its database, its client and its command line.
--
-- A request (api/routes/analysis.go) is authorized by its token (api/token) and checked
-- (api/util/util.go); an analysis (api/analysis/analysis.go) then searches for the languages of the
-- repository and runs the scans for them side by side (api/securitytest/run.go), each of which runs
-- a container and turns the report of its tool into findings (api/securitytest), and stores what
-- they found.
--
-- Files:
--   Types: the records of api/types/types.go.
--   Input: the checks of api/util/util.go and api/util/zip.go on what a request holds.
--   Scan: one scan. State is `SecTestScanInfo` with the verdict of `prepareContainerAfterScan`,
--     Filing the loops that sort findings by level, one file for each analyser, Start the
--     function `Start`, Failure the scans that fail an analysis.
--   Run: all scans. Results is `RunAllInfo` and what changes it, Scans the goroutines of
--     `runGenericScans` and `runLanguageScans`, Join the channels by which they are waited for,
--     as a step relation without the results; Outcome, Progress, Errors, Panics and Races are about
--     its executions. Vulns, Verdict, Order and Start are about the results, which the effects of
--     the goroutines change one after another; Lost is about the appends to one slice that are not
--     synchronised.
--   Analysis: `StartAnalysis`, and what it stores.
--   Token: the tokens over an interface of their database (`TokenDb`, `DbLaws`), which Memory
--     fills. Mongo fills `TokenDb` with the calls of api/token/generator.go over MongoDB.
--   Database: api/db. Query are the builders of the statements for Postgres (Clauses and Columns
--     are about them), Arrays the reading of its arrays (Trims, Slices), Rows the columns,
--     Postgres the reading of rows, Requests the operations of `PostgresRequests` (Guards,
--     Answers), Mongo those of `MongoRequests`, and Stats the checks of the queries of the
--     statistics (Metrics).
--   Auth: api/auth, api/user and the handler `UpdateUser` of api/routes/user.go.
--   Docker: api/dockers. Pull is the pull of an image (Attempts), Run and Extract are the runs
--     of containers, with the calls that they make to the daemon (Leaves, Cleanup).
--   Config: Env are the values of api/context/context.go, Hosts is the choice of the Docker host
--     (Rotation, and Turns with the counter of MongoDB) and Requirements the checks before the
--     API starts, of api/util/api/api.go.
--   Routes: the handlers `ReceiveRequest`, `UploadZip`, `GetAnalysis`, `HandleToken` and
--     `HandleDeactivation`.
--   Client: the summary and the exit code of the client (client/analysis, client/cmd), which
--     polls the API until an analysis has ended; Sonar is the output for SonarQube of
--     client/integration/sonarqube (Rules).
--   Cli: the command line of cli. Targets are the targets of its configuration and the commands
--     that change them (Counts, Current, Commands), Wizard the questions of cli/cmd/setup.go; of
--     cli/analysis, Languages are the languages of a path (Found), Send is `SendZip` (Sent),
--     Poll is `CheckStatus` (Status), and Report are the findings that are printed (Groups).
--   Base: helpers; Tests: the models at concrete inputs.
--
-- Conventions. A Go error is an `Option String`, nil being `none`; `Reply` is a value or an error.
-- A run-time panic is the result `none` of a function that may panic. A struct that a method
-- changes is passed in and returned. Numbers of the reports are integers without wrap-around
-- (`ℤ`). Loops recur on their lists; only the decimal digits of a number and their count use fuel,
-- the number's value or one more, which is at least the number of divisions by ten that are made.
-- A wait that may have no end, for a container of the daemon or for an answer of the API, is a
-- result of its own. A map that is ranged over is the list of its entries in the
-- order of the visit. `Outcome` is a value, an error or a panic. The wrap-around of durations and
-- the longer texts of the errors of the command line are left out.
--
-- Parameters stand for what is not in the repository: the decoders of JSON and XML, the matches of
-- the regular expressions, PBKDF2 and base64, the random generators, the answers of the web
-- framework, the drivers of the databases, the answers of the Docker daemon, the environment, and
-- the outcome of Kubernetes.
--
-- Not modelled: logging, time stamps, the connections of the databases, the client of Kubernetes,
-- `HandleCmd`, the archives that the client packs and the API unpacks, what the client and the
-- command line print, and the rest of the command line.
pub mod Base
pub mod Types
pub mod Input
pub mod Scan
pub mod Run
pub mod Analysis
pub mod Token
pub mod Routes
pub mod Client
pub mod Database
pub mod Auth
pub mod Docker
pub mod Config
pub mod Cli
pub mod Tests
