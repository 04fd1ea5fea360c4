-- ===== src/Lib.antt =====
-- The poker engine of the holdem repository: cards, betting, pots, the evaluator of hands, and the use cases
-- that start a hand, apply an action and finish the hand; the table manager's tables and seats; the wallet with its
-- ledger, its accounts and the worker that watches the chain; the engine's database; and the sign-in with its sessions.
--
-- How the parts work together. A use case loads a `GameState`, checks and applies an action of the betting
-- rules, and either passes the turn on, advances the street (bets into pots, cards onto the board) or
-- finishes the hand: bets into pots, the rake out of them, the winners of each pot by the evaluator, the
-- payout onto the stacks. It stores the state and publishes events.
--
-- A stored state is rows of six tables, which `Save` replaces and `FindByID` reads back. A user signs in with a password
-- and gets a refresh token, which each use replaces by another one.
--
-- Which file models what; paths from the root of the repository, E for services/engine/internal:
--   Prelude    shared helpers: Boolean tests on numbers, lists, maps as association lists, and `Outcome`, the
--              ways in which a call ends (a value, an error, a panic)
--   Cards      E/domain/card.go; Cards/Parser: E/infrastructure/repository/card_parser.go;
--              Cards/Deck: E/domain/deck.go
--   Game       E/domain/player.go, action.go, game.go, and the data of betting.go and pot.go
--   Betting    E/domain/betting.go: ValidateAction is validate_action, ApplyAction apply_action, and so on
--   Pots       E/domain/pot.go, and CollectBets and mergePots of betting.go
--   Rake       E/domain/rake.go
--   Evaluator  E/infrastructure/evaluator: combinations.go, rank.go, evaluator.go
--   Hand       E/application: Hand/Start is start_hand.go, Hand/Act apply_action.go, Hand/Finish
--              finish_hand.go, and Hand/Events E/domain/events.go with the calls to the world outside
--   Tables     services/table-manager/internal/domain/domain.go; Tables/Service: ../application/service.go, with
--              its calls of the wallet, the engine and the repository in Tables/World, and the chips at a table and what a player
--              who comes again sends in Tables/Service/Money and Again
--   Database   statements, transactions and rows of a PostgreSQL database, over any tables, with a child for each
--              kind of lemma on them; the wallet, the engine's repository and the auth service stand on it
--   Storage    services/engine/migrations; Storage/Repository: E/infrastructure/repository/postgres,
--              game_state_repository.go and the *_queries.go files; Storage/Mappers: its mappers.go; Storage/Saved: the tables
--              after a save; Storage/RoundTrip and Storage/Others: what is found then, of the hand and of the others
--   Auth       services/auth-service/internal, A: A/domain/domain.go; Auth/Repository:
--              A/infrastructure/repository/postgres/repository.go; Auth/Service: A/application/service.go; Auth/Kept,
--              Sessions, Held and Reachable: what holds in every state; Auth/Registered, Refreshing and Race: what calls rest on
--   Tokens     services/auth-service/internal/security/token.go, IssueAccessToken and JWKS, and
--              services/wallet-service/internal/auth/jwt.go
--   Wallet     services/wallet-service/internal, W: W/domain/domain.go; Wallet/Database: the tables, statements and
--              transactions; Wallet/Repository: W/infrastructure/repository/postgres/repository.go, and
--              Wallet/Repository/Chain and Payouts: repository_chain.go; Wallet/Service: W/application/service.go;
--              Wallet/Runner: W/chain/runner.go, with a child for each of its two cycles; Wallet/Ledger: what a posting does; Wallet/Kept: what every call
--              and cycle keeps; Wallet/Joins: the table manager's idempotency keys in the wallet
--
-- How state and calls are modelled. A method that changes the state through a pointer returns the new state.
-- Ids are strings in the source that are only compared; here they are numbers. Amounts, indices and counters
-- are Go ints that the program keeps at zero or above; they are natural numbers, without the overflow of
-- 64-bit machine integers, and negative inputs are outside the model, but for those of StartHand, whose numbers are
-- signed until they are checked. Where the source subtracts, the model
-- adds first and subtracts last, so that the two agree whenever Go's result is not negative. An index out of
-- range is `panic`. A Go map is an association list; where the source ranges over a map and the order shows,
-- the order is the parameter `order`. The float product of the rake is the parameter `percent_of`. A repository,
-- a publisher and the clock are the record `World`: whether each call fails, what the clock reads, and the
-- state that is stored; a job is an outcome with the list of its effects. An event's id, the text of the hand
-- id and the sequence number, is the pair of them. `sort.Ints` is insertion sort.
--
-- The tables of a database are lists of rows. A statement is a function of the tables that may fail: the record `Env` says
-- which statements fail in which state, what the clock reads and which ids are fresh; nothing is assumed of them unless
-- a theorem says so. A transaction that does not end well leaves the tables as they were, and transactions run one after
-- another, as the row lock of a balance makes those of one user. A constraint of a table that the source relies on is a
-- test of the statement. In the wallet, ids, keys and addresses are texts of ASCII bytes, amounts are integers
-- of either sign, and times are numbers; int64 does not overflow on the supply of the chain's coin in gwei. The worker's
-- state is the tables and what it handed to the chain; the chain's client is the record `Client`, which may answer by what
-- was sent; one cycle of the worker is one step. The key library is the record `Crypto`.
--
-- The rows of a saved hand stand behind those that were there, and equal positions keep that order. The order of the text ids
-- of players, which the database has by its collation, is the parameter `id_before`. A column's range is not modelled, as a
-- value out of it is a statement that fails. In the auth service the token and the password library are the record `Library`,
-- LIKE is a parameter, and the users that the publisher took are a list beside the tables. Its calls interleave: a step is a
-- whole call or one of the transactions of a call, with whatever that call read before.
--
-- Bounds. The rounds of `calculate` are as many as the contributions, since each round removes at least one;
-- a search for the next seat makes one round for each seat, as the source does.
--
-- Not modelled: metrics and tracing, the texts of errors around an error value, the gRPC, HTTP and Kafka layers, the
-- SQL of the table manager, the random shuffle, the clients of the table manager and of the chain, the tickers of
-- the wallet's worker, and the analytics service.
pub mod Auth
pub mod Betting
pub mod Cards
pub mod Database
pub mod Evaluator
pub mod Game
pub mod Hand
pub mod Pots
pub mod Prelude
pub mod Rake
pub mod Storage
pub mod Tables
pub mod Tokens
pub mod Wallet
