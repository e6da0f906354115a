-- ===== src/Lib.antt =====
-- ctfd-crossplane-provider: a Crossplane provider that keeps the challenges, the pages and the
-- configuration of a CTFd instance as the managed resources of a cluster describe them.
--
-- The managed reconciler (crossplane-runtime, not part of the repository) calls four handlers per
-- resource: Observe compares what CTFd reports with the desired parameters, Create and Update send
-- them, Delete removes the object. Every handler talks to CTFd through the go-ctfd client, which
-- the repository does not contain: its operations are the fields of a record that the handlers
-- take as a parameter (`CtfdClient`, `PageClient`, `ConfigClient` of Settings/Handlers), and what
-- a theorem relies on of CTFd is a record of named hypotheses beside it (`FlagServer`,
-- `HintServer`, `ChallengeServer`, `PageServer`, `ConfigServer`, `ConfigKeeper`, `Patched`; that
-- calls succeed, `Succeeds` and `HintCalls`; that calls do not panic and list no nil pointer,
-- `ClientReturns`; `New` for a new challenge). They say what a call that succeeds has done, and of
-- one that fails at most that a read changes nothing. Records of go-ctfd have the fields that the
-- repository reads or writes (Ctfd).
--
-- Files and the code that they model:
--   Prelude, Result, Exec, Session, GoMap, Strconv: numbers, lists, Go's errors and panics, calls
--     with a state, the resource beside the world, maps, and strconv's Itoa and Atoi at 64 bits
--   Apis: the resources of apis/resources/v1alpha1 and the configurations of apis/v1alpha1
--   Challenge/Keys, Challenge/Multiset, Challenge/Pool: the keys of flags and hints and the maps
--     from a key to IDs of internal/controller/challenge/flagshints.go, with sameIntSet of
--     conversion.go
--   Challenge/Flags: flagsUpToDate and syncFlags of flagshints.go
--   Challenge/Prereqs: validateHintPrereqs and detectHintCycle of flagshints.go
--   Challenge/Hints, Challenge/HintSync: planHints, hintsUpToDate, challengeHints and syncHints of
--     flagshints.go
--   Challenge/Conversion: internal/controller/challenge/conversion.go
--   Challenge/Controller: the handlers of internal/controller/challenge/challenge.go
--   Page: internal/controller/page/page.go
--   Settings/Config, Settings/Handlers: internal/controller/settings/conversion.go and settings.go;
--     Settings/Config/Wanted is the reference table of the keys and of the texts that CTFd keeps
--   Clients: internal/clients/ctfd.go, and Connect of the three controllers
--   Registration: Setup and SetupGated of the three controllers, of
--     internal/controller/config/config.go and of internal/controller/register.go, and the options
--     that cmd/provider/main.go makes for them
--   Examples: the theorems at concrete inputs, over instances of CTFd in memory
--
-- A handler is a function from the resource and the world to a result and the resource and the
-- world after it, so that what was done before an error stays done. An index out of range and a
-- nil pointer that is dereferenced are the result `panic`: the pointers of a listing and the
-- reference of a provider configuration may be nil, while a call that returns a single object
-- without an error is taken to return a pointer that is not. The order in which `range` walks a
-- map is not fixed by Go: where calls are made in that order, it is a parameter `walk`, and the
-- theorems hold for every one that permutes the entries. The context arguments, the logger and the
-- HTTP responses that the code discards are left out.
--
-- The search for a cycle of hint prerequisites recurses on fuel: the number of hints and one. It
-- is enough, since each level of the recursion turns a white hint gray; the theorems on the
-- validation show that `out_of_fuel` does not arise.
--
-- Not modelled: the flag parsing, the loggers and the manager of cmd/provider, the scheme
-- registration, generated code and test/e2e, which call libraries or carry no logic of the
-- provider.
pub mod Prelude
pub mod Result
pub mod Exec
pub mod GoMap
pub mod Strconv
pub mod Ctfd
pub mod CtfdClient
pub mod PageClient
pub mod Apis
pub mod Session
pub mod Challenge
pub mod Page
pub mod Settings
pub mod Clients
pub mod Registration
pub mod Examples
