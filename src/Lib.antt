-- ===== src/Lib.antt =====
-- The Lino blockchain: its application logic, as a library of models and theorems.
--
-- The program is a Cosmos SDK application. Each part under x/ has a manager with a store of records,
-- and handlers that compose managers. What is modelled, and where:
--
-- - types/coin.go, types/common.go: Types/Coin.antt (amounts, `NewCoinFromInt64`, `Plus`, `Minus`,
--   `IsGT`, `IsGTE` and so on, each with its worth as an integer) and Types/Accounts.antt
--   (`FindAccountInList`). Types/Errors.antt names the errors by the function that makes them.
-- - x/reputation/internal: Reputation/Records.antt and Reputation/Store.antt (store.go: the records of
--   users, posts, rounds, with the defaults for what is not stored; Store/TopPosts.antt is the update
--   of a round's top posts), Reputation/Keys.antt (`numKeysCanBuy`), Reputation/Score.antt
--   (reputation.go: `GetSettledCustomerScore`, `DonateAt`, `ReportAt`, `Update`, and what they call).
-- - x/validator: Validator/Store.antt (model/), Validator/Lists.antt (manager.go:
--   `TryBecomeOncallValidator`, `RemoveValidatorFromAllLists`, `AdjustValidatorList`,
--   `updateLowestValidator`, `getBestCandidate`), Validator/Penalty.antt (`PunishOncallValidator`,
--   `FireIncompetentValidator`, `PunishValidatorsDidntVote`), Validator/Deposits.antt
--   (`RegisterValidator`, `Deposit`, `ValidatorWithdraw` and so on), Validator/Signing.antt
--   (`UpdateSigningValidator`, `GetUpdateValidatorList`). Validator/Invariant.antt states the
--   invariant, Validator/Keeps.antt how methods keep it, Validator/Rest.antt what a punishment leaves of
--   a deposit, Validator/Reachable.antt the step relation.
-- - x/vote: Vote/Store.antt (model/) and Vote/Manager.antt (manager.go); Vote/Delegations.antt,
--   Vote/Withdrawals.antt, Vote/SelfDelegation.antt and Vote/Voting.antt hold the proofs.
-- - x/account, the part about keys: Account/Store.antt (model/) and Account/Signing.antt (manager.go:
--   `AuthorizePermission`, `RevokePermission`, `RecoverAccount`, `CheckSigningPubKeyOwner`);
--   Account/Grants.antt, Account/Owners.antt and Account/Permissions.antt hold the proofs. The part
--   about coin days: Account/CoinDay.antt (`updateTXFromPendingCoinDayQueue`,
--   `addPendingCoinDayToQueue`, and the loops over the queue of `MinusSavingCoin` and
--   `MinusSavingCoinWithFullCoinDay`), with the proofs in Account/Queue.antt;
--   Account/Bank.antt (`AddSavingCoin`, `MinusSavingCoin`, `AddBalanceHistory`), with the proofs in
--   Account/Balance.antt and Account/Income.antt; Account/Frozen.antt (`AddFrozenMoney`,
--   `cleanExpiredFrozenMoney`). The rationals in which the queue counts its coin day are
--   a parameter with no laws; nothing is proved of that count.
-- - the rest of x/account: Account/Profile.antt (manager.go: sequence numbers, times, rewards, relations),
--   Account/Opening.antt (`CreateAccount`, the payments with full coin day, `CheckUserTPSCapacity`),
--   Handlers/Account.antt (handler.go).
-- - x/auth/ante.go: Auth/Ante.antt. Auth/Counts.antt, Auth/Sequences.antt, Auth/Replay.antt and
--   Auth/Once.antt follow the sequence numbers through it.
-- - x/account/event.go: Account/CoinReturn.antt (`CreateCoinReturnEvents`, `Execute`).
-- - x/global: Global/Store.antt (model/), Global/Clock.antt (manager.go: times and timed events),
--   Global/Stakes.antt (stakes, frictions and `GetInterestSince`), Global/Inflation.antt (inflation,
--   pools, rewards, load; of param/holder.go `UpdateGlobalGrowthRate`). Global/Supply.antt and
--   Global/Issue.antt prove what the pools add up to, Global/Interest.antt, Global/Growth.antt and
--   Global/Schedule.antt the rest.
-- - x/developer: Developer/Manager.antt (manager.go, model/); Developer/Registry.antt states the set of
--   developers that the list and the records stand for, Developer/Refinement.antt the proofs.
-- - x/infra: Infra.antt. x/reputation: Reputation/Manager.antt.
-- - x/proposal: Proposal/Store.antt (model/; the structs of param/param.go that a proposal may change are a
--   type parameter) and Proposal/Manager.antt (manager.go, with `strconv.FormatInt`); Proposal/Votes.antt and
--   Proposal/Life.antt hold the proofs.
-- - x/post: Post/Store.antt (model/) and Post/Manager.antt (manager.go). Post/Sources.antt states what holds
--   of the sources of reposts; Post/Originals.antt, Post/Reposts.antt and Post/Operations.antt prove it of
--   every operation.
-- - x/*/msg.go: Messages/Check.antt (types/msg.go and the checks that the messages share, with the two
--   regular expressions of types/const.go for user names), Messages/Account.antt, Messages/Vote.antt,
--   Messages/Validator.antt, Messages/Infra.antt, Messages/Developer.antt, Messages/Post.antt and
--   Messages/Proposal.antt (the fields of each message and its `ValidateBasic`), Messages/Lino.antt (those
--   that ask for a name of a legal length, all but those of x/post); Messages/Signers.antt holds the proofs.
-- - Handlers/Store.antt puts the stores of all managers beside each other, as the handlers see them;
--   Handlers/Vote.antt, Handlers/Validator.antt and Handlers/Developer.antt are the handlers of x/vote,
--   x/validator and x/developer, with the start of a block of x/validator/tick.go. Handlers/Return.antt,
--   Handlers/Withdraw.antt and Handlers/Blocks.antt hold the proofs. A handler takes the fields of its
--   message; an amount of LNO is the string that the message holds.
--
-- How the code corresponds. A name of the source stands in snake_case. A store is a record of tables
-- (Prelude/Table.antt), functions from what the source makes a key of to what is stored there; a
-- method of a manager takes the store and gives a result or an error and the store it leaves
-- (Prelude/Exec.antt), so that what was written before an error stays written, as in the code, where
-- the SDK undoes it only for a failed transaction. A Go panic is the error `panicked`, or `none` in
-- Reputation. The time of a block is an argument. An int64 wraps around where the code computes with
-- it (Prelude/Int64.antt); math/big and sdk.Int are integers of any size.
--
-- What is a parameter: Sdk.antt collects the integers and rationals of the Cosmos SDK and the public
-- keys of Tendermint with the laws that the code relies on, and the parsing of decimals. Whether a
-- signature verifies is an argument of Auth/Ante.antt. Beyond 255 bits sdk.Int panics; such runs
-- are outside the model.
--
-- Bounds: the binary search of `numKeysCanBuy` runs on 34 units of fuel, since the range it halves is
-- at most 10000000001 wide, which is below 2 ^ 34; that it finds the right number with them is part of
-- the theorem about it. `format_int` has 19 units for the digits of an int64, which has no more. The other
-- loops are recursions on lists, on the texts of names, or on the number of rounds that they have.
--
-- Not modelled: the encodings of keys and values as bytes and their failures; `EvaluateConsumption` of
-- x/global, which computes in floating point; the registration of codecs; the `String` and
-- `GetSignBytes` of messages; the handlers and events of x/post and x/proposal, and three messages of
-- x/proposal that change parameters; the export of genesis in x/account; the wiring in app/ and the
-- command line.
pub mod Prelude
pub mod Sdk
pub mod Types
pub mod Reputation
pub mod Validator
pub mod Vote
pub mod Account
pub mod Global
pub mod Developer
pub mod Infra
pub mod Handlers
pub mod Auth
pub mod Proposal
pub mod Post
pub mod Messages
mod Tests
