-- ===== src/Lib.antt =====
-- A model of the policy manager and proofs about it.
--
-- The program keeps policies in a database, compiles their Rego code into an embedded OPA engine, and
-- evaluates requests: each enabled policy whose labels match is run in order on the request, and may
-- reject it, patch it, select a service provider, and set constraints on what later policies may do.
--
-- The parts, and the files of the repository that they model:
--   Base                          helpers: tests, Go's results, texts, integers, maps with text keys
--   Base.Base64, Base.Decimal     what internal/store/policy.go uses of encoding/base64 and strconv
--   Json, Json.Go                 `any` values, and the calls of libraries that the program makes on them
--   Service.Labels                internal/service/labelmatcher.go
--   Service.Errors                internal/service/errors.go
--   Service.Patch                 internal/service/evaluation.go, mergePatch
--   Service.Patch.Rfc7396         RFC 7396, as the reference for it
--   Service.Constraints.Copy      internal/service/constraints.go, the copies of schemas
--   Service.Constraints.Values    the same file: numbers, equality and intersections of values
--   Service.Constraints.Keywords  the same file: mergeSchemaKeywords; Names has the keywords of JSON Schema
--                                 that it is held against
--   Service.Constraints.Context   the same file: the context, MergeConstraints, the maps for the input
--   Service.Constraints.Providers the same file: MergeSPConstraints, ValidateServiceProvider
--   Service.Constraints.Validate  the same file: ValidatePatch and the cache of compiled schemas
--   Service.Converter             internal/service/converter.go
--   Service.OrderBy               internal/service/orderby.go
--   Service.Filter                internal/service/filter.go
--   Service.Policies.Listing      internal/service/policy.go, getListOptions and ListPolicies
--   Service.Policies.Validation   internal/service/policy.go, the checks of a new policy and of a patch
--   Service.Policies.Identifiers  the same file: idPattern and getPolicyID
--   Service.Policies.Operations   the same file: the operations over the store and the engine; its module
--                                 Overlap has a creation as the steps that other requests may come between
--   Service.Errors.Mapping        internal/service/errors.go, internal/service/engine_errors.go
--   Service.Evaluation            internal/service/evaluation.go, evaluatePolicy and EvaluateRequest
--   Opa.Decision, Opa.Engine      internal/opa/evaluation.go, internal/opa/engine.go, internal/opa/errors.go
--   Api.Types                     api/v1alpha1/types.gen.go, the policy and the error
--   Http                          net/http's response writer, and what is received of a response
--   Api.Codec                     encoding/json at the types of the API
--   Api.Server, Api.Engine        internal/api/server/server.gen.go and internal/api/engine/server.gen.go:
--                                 their types; the modules Visits, Strict and Wrapper have the writing of
--                                 responses, the strict handlers, and the binding of parameters
--   Store.Model                   internal/store/model/policy.go and the types of internal/store/policy.go
--   Store.Interface               internal/store/policy.go, its interface and its errors
--   Store.Database                the calls of gorm.io/gorm that the same file makes
--   Store.Policies                the same file: the queries and writes, the errors of unique constraints;
--                                 Listing.Wanted has what a listing is asked for, without its queries
--   Handlers.Conversions, Handlers.Errors, Handlers.Policies
--                                 internal/handlers/v1alpha1: converters.go, errors.go and policy.go; the
--                                 module Reached has the steps of a server from its start on, Paging a
--                                 client that follows page tokens
--   Handlers.Evaluation           internal/handlers/engine
--   Client                        pkg/client/client.gen.go: Responses and their parsers, Requests and the
--                                 calls; Client.Engine is pkg/engineclient/client.gen.go
--   Main.Config, Main.Logging     internal/config/config.go and internal/logging
--   Main.Database                 internal/store/db.go and internal/store/store.go
--   Main.Startup                  cmd/policy-manager/main.go, run
--   Main.Servers                  the same file, runServers, with the Run of internal/apiserver/server.go and
--                                 internal/engineserver/server.go
--   Examples                      concrete inputs, and the theorems applied to them
--
-- How code becomes definitions. A Go map is the list of its entries in the order in which a `range`
-- visits them; Go fixes no order, so statements quantify over all such lists. A nil map is the empty one.
-- Operations take the state and return it, errors are values of `Result`, and log calls are left out.
-- Type assertions are the functions `as_bool`, `as_string`, `as_items` and `as_object`.
--
-- The parts call each other as in the program: the handlers work on a record of the service's functions,
-- the service on a record of the store's, and the store on a record of the database's. The theorems about
-- the service take the laws of its store, `IsTransactional`, `IsTable` and `IsErasable`, as hypotheses;
-- Service.Policies.Operations.Stored is about the modelled store under these laws.
--
-- Parameters. Float64 arithmetic, json.Marshal, the verb %v, regexp.MatchString and brunoga/deep are the
-- fields of `Go`; santhosh-tekuri/jsonschema is `JsonSchema`; open-policy-agent/opa is `Rego`; the calls of
-- gorm.io/gorm are `Database`; the verb %d is `decimal`, strings.ToUpper is `to_upper`, strings.ToLower is
-- `to_lower`, and the generated UUID is `uuid`. What is assumed of these is a hypothesis of the theorem
-- that needs it: `Copies` (a deep copy is the value), `Meaning` (what the keywords of JSON Schema accept,
-- with a predicate for the values that are no number that float64 rounds), `Decoded` (the JSON of a body is
-- decoded to the body), `IsRelational` (queries answer with the rows that meet their conditions, in any
-- order that the ORDER BY allows, which is the same for all queries only where the ORDER BY ends in the
-- identifier, and they do not fail), `IsWritable` (what statements do to the rows, and that undoing a
-- statement does not fail). The definitions follow a read or an undoing that fails too; statements under
-- these hypotheses leave it out. kelseyhightower/envconfig is `Envconfig`, the opening of a database by
-- gorm is `Gorm`; for the clients and servers, encoding/json is `Codec` and `EngineCodec`, net/url with
-- oapi-codegen/runtime is `Urls` and `Binding`, and chi's choice of a route, with what arrives of a
-- request, is `Network`. The modules under Examples instantiate them.
--
-- Fuel. Only the loop over the pages of policies takes fuel, one unit for a page of 1000 policies; one unit
-- for each 1000 enabled policies is enough, for as many policies as an offset of 64 bits can count.
--
-- Processes. Main.Servers has the goroutines of runServers as a step relation on their common state: each
-- server's Run, the goroutine that calls Shutdown, the requests in flight, the buffered channel, the
-- WaitGroup and the loop that receives. What net/http, the operating system and the clients do are moves
-- that may or may not come; what is said to hold at the end holds for each order of the steps.
--
-- Not modelled: the middlewares of chi, the options of the generated code that the program leaves at their
-- defaults, its stubs and the errors that nothing constructs, the embedded OpenAPI documents, log lines
-- other than those of runServers, the timeout of the shutdown, and the mutexes of the engine: a call of the
-- engine is a single step. The requests of the API follow one another, except in Overlap.
pub mod Base
pub mod Json
pub mod Http
pub mod Opa
pub mod Api
pub mod Store
pub mod Service
pub mod Handlers
pub mod Client
pub mod Main
pub mod Examples
