-- ===== src/Lib.antt =====
-- The webhook service and its dashboard: the GraphQL interface under apps/dashboard/src/server, the
-- packages under packages/node that it stands on, the consumer of Stripe's events under
-- packages/node/services/stripe-webhook, the pages under apps/dashboard/src/app and components with their
-- client, and the moving parts of the public site under apps/web/src.
--
-- How the parts interact. A request is authenticated (`requireAuth`), which yields the user. Most
-- resolvers then ask for a subscription (`requireStripeSubscription`), which reads the user's
-- checkout session from the database and the session at Stripe through a Redis cache. A user without
-- a subscription goes through `createCheckoutSession`. The webhook resolvers read and write the rows
-- of the user; an activation also runs a Lua script on the Redis cluster of each blockchain. Stripe
-- sends events, which a plugin verifies and puts on a Redis stream; a consumer reads them,
-- invalidates the cache, removes sessions of deleted customers, and acknowledges. The dashboard shows a
-- user's webhooks page by page: a search gives filters, the buttons give the cursor of the next request,
-- checked rows are activated or deleted, and two dialogs create and edit webhooks. Its client turns the
-- errors of the interface into a page to go to.
--
-- Files:
--   Prelude, Js/Map        shared names, lists, tests; the built-in `Map` by insertion order
--   Promise                asynchronous code: a result and the world it leaves, with rules for both
--   Caching/Lru            packages/node/caching/src/core/lru.cache.ts (`createLruCache`): the closures over
--                          the `Map`, against a history of uses that forgets nothing
--   Caching/RedisCache     packages/node/caching/src/core/redis.cache.ts (`createRedisCache`) and utils.ts
--   Db                     packages/node/db: rows (Schema), the query builder as an interface with laws
--                          (Table), a table in memory that satisfies them (Memory)
--   Stripe                 packages/node/providers/stripe, and the resolvers of schema/stripe
--   Graphql                graphql/errors.ts, types.ts, env.ts and the two middlewares
--   Webhooks               schema/webhooks: input schemas, the six handlers, the resolvers
--   Redis                  packages/node/providers/redis/src/scripts: the Lua scripts
--   Checkout               schema/stripe/handlers/create-checkout-session.ts: `resolveCheckoutSession`
--                          (Resolve), the handler (Session), its transaction (Transaction)
--   StripeWebhook          packages/node/services/stripe-webhook: event handlers (Events), replies of
--                          Redis (Reply), `consume` (Consumer), the producer, and the request plugin
--   Client                 apps/dashboard/src/client: errors.ts, the retry rule and the dispatch of errors
--                          (Errors); apps/dashboard/src/middleware.ts (Middleware); client.ts and
--                          hooks (Requests)
--   Providers              packages/node/providers: the caches and the checks of the constructors
--   Dashboard              apps/dashboard/src: app/page.tsx with the search form (Search, Paging), and in
--                          components/home webhooks-table.tsx (Table), the forms (Forms), webhooks-creator.tsx
--                          and the dialog of the table (Dialogs)
--   Web                    apps/web/src/components: the counter, the type writer and the contact page
--   Examples               concrete worlds at which the theorems are applied
--
-- Correspondence. A handler is a function of its context that returns a result and the next world;
-- a `throw` is the result `err`, an `await` the bind of Promise. The steps of a long function are
-- functions of their own, in the order of the source, so that every early return is a clause. A
-- `where` clause of a query is the Boolean function of a row that the code builds. A component is a
-- record of its state with a step for each event: what its inputs, buttons, timers and mutations call.
--
-- Parameters. The database, Redis and its commands, Stripe's client, `zod`, `jsonwebtoken`, JSON coding,
-- the checks of a browser on the inputs of a form, `fetch`, the query library, and the sources of
-- randomness are arguments; the theorems name what they rely on of each of them (`IsTable`, `IsStore`,
-- `IsRedis`, `IsStream`, `IsCrypto`, `IsTransaction`, `IsBrowser`). The laws say nothing of the
-- effects of calls that fail, but where a failed statement or transaction is rolled back.
--
-- Bounds. Recursion is structural throughout. The loop of the consumer, which ends only when it is
-- aborted, runs for a given number of rounds, and the theorems hold for every number. Numbers of the
-- inputs are whole numbers of any size; a page limit is a natural number. The promises of one
-- `Promise.allSettled` run one after another; those of an activation are also run in any order, by a
-- schedule of their turns (Webhooks/Activate/Interleaved), of which that is one (Sequential).
--
-- Not modelled: components that only lay out text, links and images; the store of the query library, so
-- `resetPagination` and when a page is fetched again; the construction of servers, processes and
-- connections from the environment; logging, the expiry of cache entries, the Go services, generated code
-- and test utilities.
pub mod Prelude
pub mod Js
pub mod Promise
pub mod Caching
pub mod Db
pub mod Stripe
pub mod Graphql
pub mod Webhooks
pub mod Redis
pub mod Checkout
pub mod StripeWebhook
pub mod Client
pub mod Providers
pub mod Web
pub mod Dashboard
pub mod Examples
