-- ===== src/Lib.antt =====
-- Verification library of the backend (src/ of the repository: a NestJS server for rock, paper,
-- scissors matches with matchmaking, squads, friends and wallets).
--
-- The parts and how they interact. The game service keeps the rooms; its gateway submits moves and
-- announces results; a finished match writes statistics, awards badges, adds jobs for the blockchain
-- and tells the squads. The matchmaking gateway takes pairs out of a queue and has the game service
-- make a room for each. A squad has members and invites in the database, and a queue of players who
-- meet in rooms of the same game service, the winner staying on. The friend service keeps who is
-- online, and the friendships that invites want; it tells users through the notification service.
-- Requests pass a guard that reads tokens, the list of revoked tokens and the cached status of an
-- account; the services of accounts, passwords and wallets write the user table and the Redis store.
--
-- Files, and the code they model (paths from the repository's root):
--   Common              tests, lists, texts, Map as an association list, results and exceptions
--   Effects             runs: a state, and a result that may be thrown; invariants that runs keep
--   Redis               src/core/redis/redis.service.ts
--   Users               the User table of prisma/schema.prisma with src/modules/user/repository and
--                       src/modules/auth/repository
--   Users/Service       src/modules/user/service/user.service.ts: one account
--   Users/Listing       the same file and the repository: pages of accounts
--   Auth                src/modules/auth/service/token.service.ts
--   Auth/Guard          src/core/guard/jwt-auth.guard.ts, src/core/guard/roles.guard.ts
--   Auth/Password       src/modules/auth/service/password.service.ts
--   Auth/Sessions       src/modules/auth/service/auth.service.ts: register, login, logout
--   Auth/WalletSignIn   the same file: the sign-in by wallet
--   Records             the tables and jobs that a finished match touches
--   Achievement         src/modules/achievement/service/achievement.service.ts
--   Leaderboard         src/modules/leaderboard/service/leaderboard.service.ts
--   Pagination          src/core/dto/pagination.dto.ts
--   Game/Engine         src/modules/game/engine/rps.engine.ts
--   Game/Room           src/modules/game/service/game.service.ts: createRoom, submitMove, resolveRound
--   Game/Results        the same file: the statistics of finalizeMatch
--   Game/Finalization   the same file: finalizeMatch
--   Game/Gateway        src/modules/game/gateway/game.gateway.ts
--   Game/Gateway/Declines  handleInviteDecline of the same gateway
--   Notification        src/modules/notification/service/notification.service.ts
--   Friend/Online       src/modules/friend/service/friend.service.ts: onlineUsers
--   Friend/Service      the same file: requests, answers, friends, removals, invites
--   Friend/Friendships  the Friendship rows of prisma/schema.prisma
--   Matchmaking         src/modules/matchmaking: the service and the gateway
--   Wallet              src/modules/wallet: the service and the repository
--   Squad/Store         the squad tables of prisma/schema.prisma
--   Squad/Service       src/modules/squad/service/squad.service.ts
--   Squad/Listing       the same file: getUserSquads, getSquadMembers
--   Squad/Hill          src/modules/squad/gateway/squad.gateway.ts: the state of a squad's game
--   Squad/Gateway       the same file: the handlers
--   Chat                src/modules/chat: the service and the gateway
-- A function has the source's name in snake case. Children of a file hold its lemmas; Tests hold runs.
--
-- Conventions. Identifiers, addresses, tokens and times are natural numbers; 0 is the empty string
-- where the code tests truthiness. Texts that are taken apart are lists of character codes. An
-- exception is the err of a result; a run of Effects keeps what was written before it. A player
-- object is a reference into a table of players, since rooms and queues share and mutate the objects;
-- new identifiers, salts, the clock and the answers of the database are arguments. A handler that
-- awaits is split there where others may run between: what was taken before the await is in a list
-- (pending, starting) until its second half runs. A table is the list of its rows, and a row that
-- violates a unique index or a foreign key is the error of the write. The database may also reject
-- any write of a finished match for reasons of its own (the field refused of Records); reads, and the
-- other components' writes, fail only as said here. Third-party code is a
-- parameter: Crypto for jsonwebtoken, bcrypt and node's crypto, Ethers for ethers, with the laws that
-- their documentation states. All functions are total: recursion is on lists, and no fuel is used.
--
-- Not modelled: logging, socket rooms and broadcasts, validation by decorators, texts of
-- notifications and mails, columns for display, replays, the verification endpoints, and what only
-- calls a library (job queues, email, contracts).
pub mod Common
pub mod Effects
pub mod Redis
pub mod Users
pub mod Auth
pub mod Records
pub mod Achievement
pub mod Leaderboard
pub mod Pagination
pub mod Game
pub mod Notification
pub mod Friend
pub mod Matchmaking
pub mod Wallet
pub mod Squad
pub mod Chat
