-- ===== src/Lib.antt =====
-- A verification library of the catalog service of the city (app-catalogo): an API and a worker that
-- gather public services, courses and jobs into one catalog, search it, and keep it synchronised.
--
-- The parts and the files that model them, with the code's paths from the repository's root:
--   Resilience: internal/clients/resilience.go. Breaker is `circuitBreaker` (allow, onSuccess,
--     onFailure, onAbandon are allow, on_success, on_failure, on_abandon, and `run` is any
--     interleaving of them in the order of the mutex); Backoff is `backoff` and `randomJitter`;
--     Caller is `resilientCaller.do`, whose loop runs on as much fuel as the configured
--     attempts, each of which is one round. The HTTP clients call their services through it.
--   Query: internal/query/expander.go. `expand` is `Expand`, over the table of Query/Rules; the
--     Unicode tables of the standard library and of golang.org/x/text are the record `Unicode`.
--   Webhook: internal/repository/salesforce_webhook_repository.go in Webhook/Queue, where each SQL
--     statement is a function on the rows of the table, and
--     internal/services/salesforce_webhook_service.go in Webhook/Service, which calls them. The
--     rows that other transactions hold, the instants NOW() and the errors of the store are
--     arguments, so that a run of statements (Webhook/Queue/Runs) is any schedule of any number of
--     replicas. An instant and a duration count nanoseconds.
--     Webhook/Handler is `WebhookHandler.SalesForce` of
--     internal/api/handlers/v1/webhook_handler.go: every check in order, and what it stores.
--   Sources: internal/datasource/manager.go: `ParseSyncMode` and `syncFunc` in Mode, `RetryPolicy` in
--     Policy, the registry and its triggers in Registry, and `syncWithRetryMode` in Retry, whose
--     loop runs on as much fuel as the policy has attempts.
--   Access: `ExtractUserContext`, `RequireAuth` and `RequireAdmin` of
--     internal/api/middleware/user_context.go in Context, `normalizeCPF` in Cpf, and the verifier
--     of internal/api/middleware/jwt_verifier.go, with its cache of keys, in Verifier. The token
--     library and the requests for the keys are arguments.
--   Search: internal/models/search.go in Request, internal/services/search_vectors.go in Vectors,
--     where concurrent calls share the store of Vectors/Converge, and the search of
--     internal/services/search_service.go in Pipeline, with its reranking in Rerank.
--   Sync: internal/services/salesforce_sync_service.go: `normalizeHomeFeatured` in Featured,
--     `MapCartaServiceDetail` in Mapping, the selection of services in Listing, `runSync` in Run and
--     `SyncRecord` in Record, whose results are the calls of the repository in order. What the
--     Carta's API and the repository answer is the environment of a run, and so is the outcome of
--     `listAndPersistHierarchy`, which Collect models with its two groups of goroutines, and whose
--     listings are the loops of Pages, on as much fuel as there are pages. Canonical is
--     `GetServiceCanonical` of internal/clients/carta_servicos_client.go, whose loop is by recursion
--     on the hops left. Effect, Moved and Themes run the calls of a synchronisation on the tables of
--     Catalog and Carta.
--   Catalog: internal/repository/catalog_item_repository.go: the statements on the table
--     catalog_items as functions on its rows, whose active items by key are the abstract view of
--     Catalog/View, any sequence of statements in Runs, and the readers in Reads.
--     Events has the tables of the sync events and of the cursor.
--   Carta: internal/repository/carta_repository.go: the aliases of slugs in Aliases, with Acyclic for
--     any sequence of their changes, the themes and subthemes with their counts in Hierarchy, the
--     pages of the listings in Pages, the featured services in Home, the organs in Units, the services of a subtheme in Services, and `GetServiceDetail` in Detail.
--   Recommend: internal/services/recommendation_service.go, with its scores in Score. Numbers of type
--     float64 and the sort are arguments.
--   Common: the names that the other parts share. Int has Go's 64-bit integers with the
--     wrap-around of their doubling, Text the functions of the package strings on runes, Go the
--     error values with errors.Is and errors.As, and Doubling the loop that doubles a wait.
--
-- Not modelled: log lines, tracing, metrics other than those that a part's state names, the wording
-- of errors, and what the libraries do (pgx, Redis, gin, SHA-256), which are arguments. The HTTP
-- clients but for the loops named above, the ranked searches of the search repository, the handlers
-- but that of the webhook, the configuration and the programs under cmd are not modelled: they read
-- parameters, call the network and write answers around these parts. The profiles of citizens, the
-- sources other than Salesforce and the backfill of embeddings are not modelled.
pub mod Common
pub mod Resilience
pub mod Query
pub mod Webhook
pub mod Sources
pub mod Access
pub mod Search
pub mod Sync
pub mod Recommend
pub mod Catalog
pub mod Carta
