-- ===== src/Lib.antt =====
-- The verification kill chain of backstop-core: what a gate run decides, and why.
--
-- A gate run takes an ordered list of steps. Each step reports findings and a status; when all have
-- run, or one has signalled a configuration error, the per-dimension enforcement policy rewrites
-- the statuses, the results are summed up, and the sum decides the exit code. Two steps are only
-- placeholders that the run replaces: the waiver pass, which takes the findings out of the results
-- before it that an inline `@waiver` token suppresses, and the comparison of all findings so far
-- with the published baseline. The steps whose logic is modelled on their own are the polarity of
-- the traceability dimensions, the drift of artifact statuses, the verdicts on mandated tests and on
-- contracts, the coverage of changed files, the join of the mandated tests with the evidence of a
-- substantiveness pack, and the requirements of bundles that the specs support.
--
-- Apart from the gate stand the packs of a project. Its backstop.yml declares them, its lock records
-- their versions and digests, a provenance file records which settings they brought, and a directory
-- holds them. The pack commands read and write these: add, install, update, upgrade, remove, relock
-- and the verification of the lock.
--
-- Files, and the source files that they model:
--   Prelude                 the names that all share: native numbers, lists, Go maps and sets
--   Text, Text/Numbers,     what the program uses of Go's strings and strconv packages
--     Text/Split
--   FilePath                filepath.Clean and filepath.Rel, and NormalizePath of pkg/gate/scope.go
--   Gate/Violation          pkg/gate/result.go: Violation, StepResult, the names of the steps
--   Gate/Scope              pkg/gate/scope.go: newGateScope, Contains, Empty, filterViolations
--   Gate/Identity           pkg/gate/baseline.go: EnrichViolationIdentity
--   Gate/Baseline           pkg/gate/baseline.go: CompareBaseline, scopeTouches
--   Gate/Policy             pkg/gate/policy.go: blocksVerdict, StepVerdict, ApplyPolicy,
--                           applyScopedPolicy
--   Gate/Waivers            pkg/gate/step_waiver.go: computeWaiverResult, PrefilledWaiverToken
--   Gate/Result             pkg/gate/result.go: NewGateResultWithScope, tallyBySeverity
--   Gate/Run                pkg/gate/gate.go: Run, computeBaselineResult, ExitCode
--   Gate/Polarity           pkg/gate/traceability_polarity.go: ClassifyDimension,
--                           PolarityStepResult
--   Gate/StatusDrift        pkg/gate/artifact_status.go: ClassifyArtifactStatus, and
--                           pkg/gate/status_drift.go: ClassifyStatusDrift, SplitDriftResult
--   Gate/TestVerdict        pkg/gate/test_verdict_join.go: MandatedTestFailures, verdictNamesTest
--   Gate/Substantiveness    pkg/gate/substantiveness_join.go: NoTargetViolationForTest,
--                           ReferencedSetForTest, SubstantivenessEvidenceRefusal
--   Gate/Contract           pkg/gate/contract_verdict.go: VerifyContractVerdict, and
--                           pkg/gate/step_contract.go: StepContractSignatureScopedFunc
--   Gate/Coverage           pkg/gate/step_coverage.go: StepCoverageThresholdScopedFunc, and what it
--                           uses of pkg/gate/classification.go and pkg/check/coverage.go
--   Gate/Traceability       pkg/gate/requirement_traceability.go: StalePinVerdict,
--                           ClassifyRequirementTraceability, SplitTraceabilityResult
--   Waiver/Calendar         what pkg/waiver uses of Go's time package
--   Waiver/Token            pkg/waiver/waiver.go: ParseToken, Expired, DefaultDuration
--   Waiver/DeclaredPolicy   pkg/waiver/policy.go: NewDeclaredPolicy, Waivable
--   Waiver/Adjudicate       pkg/waiver/adjudicate.go: Adjudicate and its helpers
--   Waiver/Unbound          pkg/waiver/unbound.go: HarvestTokens, Unbound
--   Distribution/Versions   pkg/pack/distribution/versionresolver.go: ResolveLatestCompatible,
--                           IsMajorBump
--                           All files named below are of pkg/pack/distribution.
--   Distribution/Reference  add.go: parsePackRef, IsLocalPath; identity.go: ResolveEffectiveVersion;
--                           pkg/pack/manifest.go: ValidatePackName
--   Distribution/Identity   identity.go: ValidateRemoteIdentity
--   Distribution/Tree       add.go: copyDirRecursive; hash.go: ComputeContentHash
--   Distribution/Lockfile   lockfile.go: LockEntry; identity.go: CoordinateForEntry
--   Distribution/Verify     verify.go: VerifyLock
--   Distribution/Install    install.go, and the Run of InstallCommand in command.go
--   Distribution/Project    the files of a project; list.go: computeLockStatus
--   Distribution/Remove     remove.go: Remove
--   Distribution/Relock     relock.go: Relock
--   Distribution/Config     config_merge.go: MergeToolConfig
--   Distribution/Tamper     tamper.go: DetectTamper
--   Distribution/Services   the interfaces of add.go, update.go and upgrade.go; command.go:
--                           RunValidationOnScratchCopy
--   Distribution/Update, Distribution/Upgrade, Distribution/Add
--                           command.go: the Run of each command
--   Tests                   the theorems at concrete inputs, and runs of the definitions
-- The children of these modules hold proofs, each named for what it proves; Gate/Policy/Dimension,
-- Gate/Waivers/Report and Thresholds, Judge and Step of Gate/Coverage hold definitions.
--
-- How the code is modelled. A Go struct is a record and an operation of it a function with the
-- source's name in snake case; a nil pointer, interface or map is `none` or the empty list; a map is
-- an association list with one entry for each key, whose order stands for one run of `range`. Code
-- that writes into the results of earlier steps returns them. A step function is a function on a
-- world of any type, so what a step may read and change is not restricted; the time it took is
-- `elapsed`. The digest of an identity (`hash_string`), the reader of source lines, the listing of
-- tags and the format verb `%q` (`quote`) are arguments, of which nothing is assumed. Texts are
-- native strings: columns count characters where the source counts bytes, which changes no result
-- but the numbers in keys, and case is folded for ASCII letters. Line numbers are natural numbers,
-- and the counts of coverage are `int`s of 64 bits, written without sign, that wrap around.
--
-- A directory of a pack is the list of its files by path, each readable or not; a directory without
-- files is not told from one that is absent below a pack. The packs directory holds directories
-- `org/pack`, as the name rule of a pack wants it. A copy that fails leaves the target in any state,
-- chosen by an argument, and so does a removal; a write of backstop.yml, the lock, the provenance or
-- a configuration file that fails leaves the file as it was. The creation of directories and of
-- temporary files succeeds. The removal and the copy of the rollback of an install come out as an
-- argument says; that of an add restores what it wrote. The SHA-256 digest, the clones, the validators, the resolver, the scanner and the readers of a manifest are arguments.
--
-- Loops are structural recursion. The decimal digits of a number are computed on fuel `n + 1`, enough
-- because a tenth of a positive number is smaller; the year of a day on the number of the day, and
-- the month on twelve rounds, which a year has.
--
-- Not modelled: reading and writing files, JSON and YAML, git and the directory walk, the rendering
-- of results, and the fields of records that only the rendering reads.
pub mod Prelude
pub mod Text
pub mod FilePath
pub mod Gate
pub mod Waiver
pub mod Distribution
mod Tests
