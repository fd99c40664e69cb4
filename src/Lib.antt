-- ===== src/Lib.antt =====
-- AllasCode Blueprint: the commerce example under Blueprint/examples/commerce, where the paths that
-- the comments of these files name begin.
--
-- The program sells products. A checkout sells one product in one call (use-cases/buy-one-product);
-- a choreography of actions over a shared state moves stock, books sales and purchases and issues
-- invoices (actions, runtime); security services bind access tokens to keys and keep versioned
-- encryption keys (security).
--
-- Prelude holds what the parts share: Booleans and tests over the native numbers, lists, signed
-- integers (Prelude.Int), JavaScript's Map with string keys (Prelude.Dict) and text (Prelude.Text),
-- calls that may throw (Prelude.Attempt), sets and sorting (Prelude.Sets) and statements about every
-- member of a list (Prelude.Members).
--
-- Checkout models use-cases/buy-one-product/runtime: its records (types.ts) in Checkout, the
-- functions over the state in Checkout.Steps and BuyOneProductRuntime in Checkout.Execute
-- (executor.ts), the sandbox provider in Checkout.Sandbox (sandbox.ts). A call takes the world
-- (state, provider, emitted events, number of random draws) and returns the result and the next
-- world; the payment capability is a record of operations that Checkout.Sandbox implements.
--
-- Commerce models runtime/types.ts and runtime/state.ts; Commerce.Stock the actions
-- increase-stock, decrease-stock and decrease-stock-verified, Commerce.Sales the actions
-- resolve-sale-products, associate-customer-to-sale, close-sale, register-purchase,
-- record-purchase-expense and authorize-operator-intent, Commerce.Accounting issue-sale-invoice and
-- record-accounting-effect (actions/<name>/implementation/implementation.ts). An action takes the
-- state and a payload and returns its result and the next state; its `for` loops are recursion on
-- the list of items.
--
-- Security.PostQuantum models security/post-quantum.ts: the key repository in Security.PostQuantum,
-- createKeySet, rotate, retire and describeKey in Security.PostQuantum.Service, encrypt, decrypt,
-- sign and verify in Security.PostQuantum.Envelopes. Security.Dpop models security/dpop.ts: the
-- replay store in Security.Dpop, DpopVerifier.verify in Security.Dpop.Proofs and
-- DpopSecurityService in Security.Dpop.Tokens. Security.Sessions models security/auth-session.ts and
-- Security.Manager the token that security/auth-manager-agent.ts issues from a session.
-- Cryptography, JSON, base64 and URLs are fields of the records Crypto and Platform, whose documented
-- behaviour stands as hypotheses of the theorems that need it; clocks and random values are
-- arguments.
--
-- Runtime models what executes actions: Runtime.Registry the registries of actions and tools
-- (runtime/action-registry.ts, runtime/tool-registry.ts), Runtime.Actors the actors with their
-- mailboxes and the agents (runtime/actor-system.ts, runtime/agent-runtime.ts). A call alone is one
-- function; calls that wait for one another are steps that enter and leave the mailbox.
--
-- Healing models the healing of failed actions: HealingStoreBase of runtime/healing-store.ts in
-- Healing.Store, and of runtime/semantic-healing.ts the look-ups in the semantic graph in
-- Healing.Graph, diagnoseHealing in Healing.Diagnosis, executeWithSemanticHealing and
-- resumeHumanHealing in Healing.Run.
-- The calls of a store one after the other are a step relation in Healing.Cases. The world in which
-- actions run is a type of its own, and an execution is a function on it.
--
-- Flow models runtime/flow-runtime.ts and runtime/event-bus.ts: what the graph says of a flow and the
-- helpers over payloads in Flow.Contracts, the event bus, runQueue and execute in Flow.Queue, resume
-- in Flow.Resume. A run joins the parts: it takes its events from the graph, executes each action by
-- the agents of Runtime.Actors under the healing of Healing.Run, and keeps the world, the healing
-- cases and the history of events. A payload is a record of the fields that the actions read, "" where
-- a field is missing.
--
-- Graph models SemanticGraph and validateSemanticGraph of runtime/semantic-graph.ts with JSON
-- metadata. Evidence models runtime/content-addressed-evidence.ts: its data in Evidence, the canonical
-- JSON text in Evidence.Canonical, the closures over the graph in Evidence.Closures,
-- compileRequirements in Evidence.Requirements (files, names and inputs in its children),
-- compileEvidencePlan in Evidence.Plans, emitPassport in Evidence.Passports and
-- enrichEvidenceGraph in Evidence.Enriched. Files, paths, hashes, localeCompare, JSON.stringify and
-- the parsers of configuration and manifests are fields of a record.
--
-- Inventory models inventory/inventory-management.ts: register, the movements (mutate under the lock
-- of its product, adjust, applyDomainMovement), the alerts and the reconciliation.
--
-- Release models the decisions of release/final-release-gate.ts and runtime/semantic-ci-policy.ts.
--
-- Most loops of the modelled code are recursion on a list or a text. The retry loop of Healing.Run
-- has as fuel one more than the largest number of attempts that a node of the graph allows, and every
-- retry takes one of these attempts. The search of Evidence.Closures has twice the number of edges
-- plus two: every round but the last finds an end of an edge that was not seen. The loop of
-- Flow.Queue counts the 64 transitions down that the code counts up.
--
-- Numbers of JavaScript are integers here: money counts hundredths, times count milliseconds, and
-- quantities are whole. The details that errors carry for a reader are left out.
--
-- Not modelled: the loading and validation of the YAML files (semantic-loader, semantic-validator,
-- runtime-graph, test-graph), governance and impact of changes, the other domain services, the
-- client side of DPoP, adapters over I/O (persistence, integrations, HTTP, files), user interface,
-- scripts and datasets.
pub mod Prelude
pub mod Checkout
pub mod Commerce
pub mod Runtime
pub mod Healing
pub mod Inventory
pub mod Security
pub mod Flow
pub mod Graph
pub mod Evidence
pub mod Release
