-- ===== src/Lib.antt =====
-- The local malware engine of Avorax (formerly Zentor): what it concludes about a file, and which
-- parts of its input it can be given without harm.
--
-- The program. The native engine (core/zentor_native_engine/src) reads a file, analyses it
-- (analyzers), and asks several providers for evidence: signatures, rules, heuristics, a model,
-- the behaviour guard and the trust stores. Each item of evidence has a weight. RiskFusion::fuse
-- turns all of it into one verdict with a score, a confidence and an action, and the action policy
-- decides whether the file is quarantined without asking.
--
-- The guard service (core/zentor_guard_service/src) answers the driver about a file that is opened or
-- started: from the hashes and publishers it knows, and else with the verdict of the native engine.
-- It also watches for programs that start, stops those that the engine confirms as threats, and moves
-- their files into quarantine.
-- The local core (core/zentor_local_core/src) decides in application control whether a program runs,
-- scores files by heuristics of its own, keeps the allowlist of the user, and holds the files that
-- are quarantined. The update service (core/avorax_update_service/src) verifies a package, applies it,
-- and rolls back an update that fails.
--
-- The files.
--   Prelude       tests, lists, options, integers over the native numbers
--   Text, Path    Rust's str and std::path on Unix, as sequences of bytes
--   Outcome       a call ends with a value, an error or a panic; reads of slices that panic
--   Float         f64 as a parameter
--   Verdict       verdict/*.rs and the action mode of scan/scan_result.rs: fuse is Verdict.Fusion.fuse
--   Behavior      behavior/{file_activity,ransomware_guard,file_activity_window}.rs
--   Analysis      analyzers/*.rs: file type, entropy, strings, scripts, ZIP walk, PE parser
--   Heuristics    heuristics/{filename,location,scoring}.rs
--   Rules         rules/{rule,rule_vm,rule_compiler,rule_parser}.rs
--   Signatures    signatures/*.rs: byte patterns, matching, packs
--   Trust         trust/*.rs: allowlist, hash stores, publishers, the program's own files
--   Ml            ml/*.rs: features and the model over them
--   Engine        engine.rs: scan_bytes_at, process starts, the self-test; Engine.Move is
--                 quarantine/quarantine_store.rs
--   AppControl    core/zentor_local_core/src/app_control: ApplicationControlPolicy::evaluate
--   Allowlist     core/zentor_local_core/src/allowlist/allowlist_store.rs
--   Quarantine    core/zentor_local_core/src/quarantine: Quarantine.Checks reads and refuses,
--                 Quarantine.Store has the operations that change the disk
--   Driver        core/zentor_guard_service/src/{driver_ipc,preexecution_policy}.rs: what the guard
--                 service answers the driver, Driver.Answer.evaluate_driver_request
--   Guard         core/zentor_guard_service/src/main.rs: Guard.Started handles a process that started,
--                 Guard.Watch has the loops over listings, Guard.Commands is handle, and
--                 Guard.SelfTest what self_test.rs does with files
--   Protection    core/zentor_local_core/src/protection/ransomware_guard.rs
--   Scanner       core/zentor_local_core/src/scanner/{threat_result,heuristic_provider}.rs and risk/*.rs;
--                 Scanner.Native is what a scan of main.rs does with a verdict of the native engine;
--                 should_auto_quarantine of risk is Scanner.Score.should_auto_quarantine_risk
--   Update        core/avorax_update_service/src: the order of versions; its children Manifest,
--                 Package, Verifier, Rollback and Apply have the names of the files they model
--   Tests         the theorems at concrete inputs
--
-- How the code is rendered. A String, a str and a Path are their UTF-8 bytes. Integers are natural
-- numbers with the wrap-around written out where the source can reach it; i32 weights are
-- integers, whose sum wraps at 32 bits. A Result that the source returns and a panic are the two
-- failures of Outcome. HashMap is an association list, BTreeSet a sorted list. Instants are
-- numbers, and the clock is an argument, as is what the operating system says of a file's
-- signature. The loop over a ZIP archive runs on fuel, one more than the number of bytes; each
-- round moves at least 30 bytes further, so that the fuel is never used up.
--
-- Not modelled. SHA-256, JSON and floating-point arithmetic are parameters, of which nothing is
-- assumed. Reading files and directories is left out: packs are taken as they were parsed. Scans of
-- directories with their progress are not covered yet. What the file system answers to a write or a
-- removal is a parameter where a component writes (Engine.Move, Allowlist, Quarantine, Guard,
-- Update); the archive reader, Ed25519 and str::to_lowercase are parameters too. Of the guard
-- service, the driver port, the health probe, the files of hashes and the report of the self-test
-- are not covered, nor are the other scanners and the rest of the main program of the local core,
-- and the API. The loops of the guard run over the rounds that are given, each with what the system
-- lists.
pub mod Prelude
pub mod Text
pub mod Path
pub mod Outcome
pub mod Float
pub mod Allowlist
pub mod Analysis
pub mod AppControl
pub mod Behavior
pub mod Driver
pub mod Engine
pub mod Guard
pub mod Heuristics
pub mod Ml
pub mod Protection
pub mod Quarantine
pub mod Rules
pub mod Scanner
pub mod Signatures
pub mod Tests
pub mod Trust
pub mod Update
pub mod Verdict
