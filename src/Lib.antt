-- ===== src/Lib.antt =====
-- Verification library of the C3X pricing API, a server that answers GraphQL queries for cloud
-- prices out of PostgreSQL, and a scraper that fills the database.
--
-- A request to /graphql passes the recovery from panics, the rate limiter, the API key and the
-- in-flight limit, in internal/server/server.go. handleGraphQL checks each query of a batch and
-- gives it to the graphql-go library, which calls the products resolver of
-- internal/graphql/schema.go. The resolver spends the request's budget (internal/graphql/limits.go)
-- and runs the SQL that buildProductQuery of internal/db/queries.go renders. runOneScrape of
-- cmd/server/main.go writes the products of one vendor in batches, marks them seen, and deletes the
-- vendor's stale products at the end. The products come from the vendor's scraper in
-- internal/scraper, which reads its price list page by page, calls the handler for each service, and
-- reports how many services failed.
--
-- Files, and the code they model:
--   Base           numbers, lists and texts: what the program uses of Go's strings package. A text
--                  is a sequence of characters; Go's byte offsets become splits of it.
--   Db/Types       the structs and limits of internal/db/queries.go
--   Db/Pattern     parseRegexForPostgres, normalizeRegexForPrefix
--   Db/Query       buildProductQuery. The SQL is a list of texts and placeholders; Conditions says
--                  what a filter asks for, and Binding, Numbering, Shape and Refusal prove against it.
--   Db/Regex       MatchRegexPattern, matchWithNegativeLookahead, matchWithNegativeLookbehind, and the
--                  cache of compileRegex, over an engine that stands for package regexp
--   Db/Prices      FilterPrices, normalizePurchaseOption
--   Db/Store       UpsertProducts, upsertBatch, MarkSeen, DeleteStaleProducts: SQL statements as
--                  functions on lists of rows. Whether a statement succeeds is an input.
--   Db/Snapshots   RecordPriceSnapshots
--   Db/Runs        the statements on scrape_runs (internal/db/db.go) and ClearSeen
--   Graphql/Value, Graphql/Filter   decoded arguments, parseProductFilter, parsePriceFilter,
--                  validateProductFilter
--   Graphql/Budget RequestBudget: reserve and refund; Interleaving runs the resolvers of a request
--                  in any order, as the mutex allows.
--   Graphql/Resolver   the products resolver. The database is a parameter.
--   Scrape         runOneScrape, emptyScrapeError, deleteStaleIfSeenSetComplete, seenSetComplete
--                  of cmd/server/main.go. A run is a list of handler calls and of what
--                  happens between them: crashes of PostgreSQL, the ClearSeen of other runs and the
--                  reaper. What the database and the scraper answer is the record Env. Retention
--                  is scrapeRunRetention.
--   Server/Access  authMiddleware, clientIP, rateLimitMiddleware
--   Server/Document    computeQueryDepthFromAST, astContainsIntrospection; Paths is an independent
--                  description of the fields of a document
--   Server/Gzip        gzipResponseWriter of internal/server/gzip.go, as a state machine, and
--                      clientAcceptsGzip; the connection, whose writes may fail, is a parameter
--   Server/Handler     handleGraphQL, graphQLResultIsEmpty, encodeGraphQLResponse
--   Server/Inflight    inflightLimit, inflightMiddleware
--   Server/Limiter     getLimiter, evictIdleLimiters
--   Server/Recovery    recoverMiddleware, responseTracker, statusWriter
--   Server/Status      vendorStatus, handleStatus
--   Server/Middleware  corsMiddleware, securityHeadersMiddleware, requestIDMiddleware, handlerLabel
--   Catalog            BundleJSON of catalog/bundle.go, over the embedded files
--   Server/Catalog     handleCatalog of internal/server/catalog.go
--   Config             Load, Validate and ConcurrencyForVendor of internal/config/config.go, over an
--                      environment; Sslmode describes connection strings by their pairs
--   Base/Strconv       decimal integers and Booleans, as package strconv parses them
--   Scraper/Hash       ProductHash and PriceHash of internal/scraper/hash.go
--   Scraper/Attributes string maps; Scraper/Keyed and Scraper/Order hold what the proofs share
--   Scraper/Fetch      retryWithBackoff and fetchPage (azure.go), fetchGCPPage (gcp.go), and the
--                      loops over pages of both
--   Scraper/Group      the tasks of a scrape, in the order in which they end: ScrapeWithHandler of
--                      azure.go, scrapeServices and streamEC2ByRegion of aws.go
--   Scraper/Azure      the rows of azure.go, their regions and attributes, and azureProductBuilder
--   Scraper/Aws        buildProductList and normalizeAWSAttributes of aws.go, aws_regions.go
--   Scraper/Gcp        transformSKU, indexCPURAMPrices, synthesizeMachineTypes,
--                      resolveDiscoverableServices and ScrapeWithHandler of gcp.go
-- Modules named Tests hold the theorems at concrete inputs.
--
-- Bounds and fuel: Go's ints are mathematical integers (Base/Int), since limits, budgets and counts
-- stay far below 2^63; the Duration of Scrape/Retention wraps around. The walks over a document have fuel for fragments inside each other, one
-- for each definition; a path that enters no fragment twice has no more of them, and the
-- theorems on both walks hold with exactly this fuel. The rounds of UpsertProducts are bounded by
-- the number of products, and each round takes at least one. The loop over lookaheads has a round
-- for each character of the pattern, and consumes some in each. A retried request has as many
-- rounds as attempts; a number of 64 bits has at most 19 decimal digits; the pages of a list need as much fuel as there are pages.
--
-- Parameters, being code that is not in the repository: PostgreSQL's answers, the vendors' answers,
-- the JSON, GraphQL and regex libraries, lower case of letters, SHA-256, packages net and net/url,
-- float64 (a value is its 64 bits), and token buckets. Times are readings of a clock in seconds. The
-- scrapers call the handler from several goroutines; here its calls come one after the other. Where
-- the code walks a map, in an order that Go leaves open, the model walks a list.
--
-- Not modelled: the streaming decoder of AWS's offer files, metrics, logs, and start-up.
pub mod Base
pub mod Catalog
pub mod Config
pub mod Db
pub mod Graphql
pub mod Scrape
pub mod Server
pub mod Scraper
