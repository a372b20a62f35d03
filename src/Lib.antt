-- ===== src/Lib.antt =====
-- FluxSwap DEX: the TypeScript parts of the exchange that carry its own logic.
--
-- The exchange is a set of contracts on a chain. A subgraph follows the contracts' events and keeps
-- entities of tokens and pairs; the web application sends signed limit orders and route queries through
-- its API routes to a gRPC service, and keeps the user's orders in the browser; the administration
-- drafts governed operations of the treasury, records them and executes them later, and it creates and
-- updates farms and distributes rewards to them.
--
-- Which file models what:
--   Common      helpers: Boolean tests, lists, integers, and texts with `trim`, `toLowerCase`,
--               `BigInt(text)` and `toString()` as the programs use them.
--   Subgraph    subgraph/src/flux-swap-factory.ts and flux-swap-pair.ts. `Entities` has the schema's
--               entities, `Factory` and `Pairs` one function per handler (`handlePairCreated`,
--               `handleMint`, `handleBurn`, `handleSwap`, `handleSync`, `handleTransfer`), and `Trace`
--               a run over the events of a chain in any order; `Outsiders` is about
--               events of contracts that the factory has not announced. The store of entities and
--               graph-ts are parameters (`Tables`, `GraphTs`): what is saved last under an id is what is loaded.
--   Amounts     `parseAmount` of frontend/src/lib/amounts.ts and admin-frontend/src/lib/amounts.ts.
--   Treasury    admin-frontend/src/components/treasury. `Forms`, `Plans` and `Draft` are
--               `buildTreasuryOperationDraft`, one function per kind of operation; `Execution` is
--               `buildTreasuryExecutionRequest`; `MetadataStore` is the hook `useTreasuryMetadataStore`
--               with the storage functions of TreasuryUtils.ts; `Allocation` is
--               `submitTreasuryAllocation`; `Utils` and `Ordering` are helpers of TreasuryUtils.ts.
--   Api         frontend/src/app/api. `Values` has the values of JavaScript that a request may hold and
--               the failures of promises; `Orders` is orders/route.ts with its checks, the mapping of
--               orders (`Records`), the query of a listing (`Query`) and the handlers `GET`, `POST` and
--               `DELETE` (`Handlers`); `BestRoute` is routes/best/route.ts. `Fields` and the
--               two modules `Sources` say how a payload comes from the fields of a body.
--   LocalOrders frontend/src/lib/localLimitOrders.ts: `Merging` is about recording an order, `Patching`
--               about updating one, and `Sync` is `syncLocalLimitOrdersWithChain`.
--   LimitOrders frontend/src/lib/limitOrders.ts: the trigger price (`Price`), and parts of what is signed.
--   Portfolio   frontend/src/app/portfolio/page.tsx: the orders of the wallet. `Requests` is
--               `fetchLimitOrdersPage`, with its query as the route reads it (`Requests.Laws`), `Pages` is
--               `fetchAllLimitOrders`, `Keys` is about `mergeLimitOrders`.
--   SwapQuotes  frontend/src/components/SwapWidget.tsx: `fetchBestRoute`, through the route to the service
--               (`Requests`), the comparison of route states (`Paths`), and the effect that asks for the
--               route of a trade, with its flag `cancelled` and responses in any order (`Effects`).
--   Pools       frontend/src/lib/subgraph/client.ts and pools.ts (`Reading`, and `Indexed` for what
--               the handlers of the subgraph have logged), and the reserves over time of
--               frontend/src/app/pool/[pairAddress]/page.tsx (`Reserves`, `Rewinding`).
--   Farm        admin-frontend/src/components/farm: `Tokens` and `Reading` are its readers of the chain,
--               `Derived` is `useFarmDerivedState`, `Actions` has the handlers and `runTransaction`, `Edits`
--               is what loading the data does to what is edited; `Distribution` and `Updates` follow a
--               reward and a weight through them.
--   ErrorMessages  frontend/src/lib/errors.ts: `Causes` is about the loop of `collectErrorMessages`.
--
-- Parameters stand for what is not in the repository: viem's `isAddress` and `parseUnits`, the answers
-- of contracts and of a node, the gRPC service, the engine's `Number(value)` of texts and objects, and
-- the subgraph's host. An Option or a `Promised` is what a promise comes to. The hypotheses on them are
-- those of the theorems: an empty text is no address, and a selected token has an address.
--
-- `fetch` is given by its answers; the requests of a loop have one answer each, and the promises of an
-- effect settle in steps of a relation, once each and in any order. `Array.sort`, which is stable, is
-- an insertion sort; `localeCompare` is a parameter, and what is said of an order asks that it is
-- consistent. Reads of the chain that start together are taken in their order.
--
-- Numbers are natural numbers or integers without a bound, as `bigint` is; numbers of JavaScript are whole
-- up to 2 ^ 53, and any other stands by its text. The digits of a number are
-- emitted on fuel (`Common.BigInt.emit`), one more than the number and so above the count of its
-- digits; the search along the causes of an error runs on fuel too, and two more than the steps that
-- the causes take to their end are enough. The pages of orders are read with the program's own bound of
-- ten.
-- Lower case is that of ASCII, which addresses and hashes are written in.
--
-- Not modelled: the views, the encoding of a query in a URL, the JSON text of the browser's storage (the
-- model keeps the records that are read back), the events to other tabs, the deadlines of calls (a late
-- call is a failure), the contracts in Solidity and the services in Go.
pub mod Common
pub mod Subgraph
pub mod Amounts
pub mod Treasury
pub mod Api
pub mod LocalOrders
pub mod Portfolio
pub mod SwapQuotes
pub mod Pools
pub mod Farm
pub mod ErrorMessages
pub mod LimitOrders
