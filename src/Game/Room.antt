-- ===== src/Game/Room.antt =====
-- src/modules/game/service/game.service.ts: rooms, moves and rounds. Player objects live in a store,
-- since a room holds references to the objects that its creator passes and writes to them. The
-- writes that the service issues and the finalizations that it starts are kept as a log.
pub mod Validity
pub mod Rounds
pub mod Acceptance
pub mod Bookkeeping
pub mod Service
pub mod Submission
pub mod Replay
use swafri_backend.Common.{
  ℕ, ◌+◌, ◌≡◌, refl, Bool, true, false, not, ◌&&◌, ◌||◌, Option, none, some, String, List, [], ◌∷◌,
  ◌++◌, ◌==◌, if◌then◌else◌, is_some, find, filter, map, length, lookup, insert, values, Result, ok,
  err, ◌>>=◌, ◌>>◌, guard, or_throw, bad_request, not_found, database_failure,
}
use swafri_backend.Game.Engine.{
  Move, RoundResult, RoundOutcome, MatchOutcome, resolve_match, is_valid_move,
}
use swafri_backend.Game.Engine

pub data GameStatus : Type 0 where
  waiting in_progress completed abandoned : GameStatus

pub record PlayerState : Type 0 where
  pub user_id : ℕ
  pub username : String
  pub socket_id : ℕ
  pub wallet_address : Option ℕ
  pub wallet_verified_at : Option ℕ
  pub move : Option Move

pub record Round : Type 0 where
  pub round_number : ℕ
  pub player1_move : Move
  pub player2_move : Move
  pub winner_id : Option ℕ
  pub completed_at : ℕ

-- `player1` and `player2` are references into the store of player objects.
pub record GameRoom : Type 0 where
  pub room_id : ℕ
  pub match_id : ℕ
  pub player1 : ℕ
  pub player2 : ℕ
  pub status : GameStatus
  pub rounds : List Round
  pub current_round : ℕ
  pub player1_wins : ℕ
  pub player2_wins : ℕ
  pub winner_id : Option ℕ
  pub on_chain_hash : Option ℕ
  pub is_ranked : Bool
  pub created_at : ℕ

-- What the service sends to the database, and the calls of `finalizeMatch`, in order.
pub data Effect : Type 0 where
  create_match : (match_id room_id player1_id player2_id : ℕ) → Bool → Effect
  create_match_move : (match_id : ℕ) → Round → Effect
  finalize_match : (room_id : ℕ) → Effect

abbrev pub Players : Type 0
Players = ℕ → PlayerState

-- `next` is the first reference that no object has yet.
pub record GameService : Type 0 where
  pub rooms : List (ℕ × GameRoom)
  pub players : Players
  pub next : ℕ
  pub effects : List Effect

abbrev pub is_in_progress : GameStatus → Bool
is_in_progress in_progress = true
is_in_progress _ = false

abbrev pub is_completed : GameStatus → Bool
is_completed completed = true
is_completed _ = false

-- A new player object; its reference is the old `next`.
unfoldable pub new_player : GameService → PlayerState → GameService
new_player s p = record s {
  players = λ q. if s.next == q then p else s.players q;
  next = s.next + 1;
}

-- `object.move = move`.
abbrev pub set_move : Players → ℕ → Option Move → Players
set_move players r m q = if r == q then record (players q) { move = m } else players q

-- The room object that `createRoom` builds.
abbrev pub new_room : Players → (room_id match_id player1 player2 now : ℕ) → GameRoom
new_room players room_id match_id player1 player2 now = record {
  room_id = room_id;
  match_id = match_id;
  player1 = player1;
  player2 = player2;
  status = in_progress;
  rounds = [];
  current_round = 1;
  player1_wins = 0;
  player2_wins = 0;
  winner_id = none;
  on_chain_hash = none;
  is_ranked =
      is_some (players player1).wallet_verified_at && is_some (players player2).wallet_verified_at;
  created_at = now;
}

-- `room-${uuid}` and the match's identifier are arguments, and so is whether the insert of the match
-- row succeeds; a rejected insert leaves no room behind.
unfoldable pub create_room :
    GameService
    → (room_id match_id player1 player2 now : ℕ) → Bool
    → Result (GameRoom × GameService)
create_room s room_id match_id player1 player2 now stored = do
  let room = new_room s.players room_id match_id player1 player2 now
  let row =
      create_match match_id room_id (s.players player1).user_id (s.players player2).user_id
        room.is_ranked
  guard stored database_failure
  ok (room, record s { rooms = insert room_id room s.rooms; effects = s.effects ++ row ∷ [] })

-- What a submission leaves: the room, the player objects and the effects that it adds.
pub record Turn : Type 0 where
  pub room : GameRoom
  pub players : Players
  pub effects : List Effect

abbrev pub add_win : RoundResult → RoundResult → ℕ → ℕ
add_win Engine.player1 Engine.player1 n = n + 1
add_win Engine.player2 Engine.player2 n = n + 1
add_win _ _ n = n

abbrev pub id1 : Players → GameRoom → ℕ
id1 players room = (players room.player1).user_id

abbrev pub id2 : Players → GameRoom → ℕ
id2 players room = (players room.player2).user_id

abbrev pub outcome_of : Players → GameRoom → Move → Move → RoundOutcome
outcome_of players room m1 m2 = Engine.resolve_round m1 m2 (id1 players room) (id2 players room)

-- The entry that `resolveRound` pushes onto `room.rounds`, and stores.
abbrev pub played_round : Players → GameRoom → Move → Move → ℕ → Round
played_round players room m1 m2 now = record {
  round_number = room.current_round;
  player1_move = m1;
  player2_move = m2;
  winner_id = (outcome_of players room m1 m2).winner_id;
  completed_at = now;
}

-- The room after the push and the two counters.
abbrev pub tallied : Players → GameRoom → Move → Move → ℕ → GameRoom
tallied players room m1 m2 now = record room {
  rounds = room.rounds ++ played_round players room m1 m2 now ∷ [];
  player1_wins = add_win Engine.player1 (outcome_of players room m1 m2).result room.player1_wins;
  player2_wins = add_win Engine.player2 (outcome_of players room m1 m2).result room.player2_wins;
}

unfoldable pub decision : Players → GameRoom → MatchOutcome
decision players t = resolve_match t.player1_wins t.player2_wins (id1 players t) (id2 players t)

-- The moves of a match that is complete stay on the player objects.
unfoldable pub resolve_round : Players → GameRoom → Move → Move → ℕ → Turn
resolve_round players room m1 m2 now =
    let t = tallied players room m1 m2 now in
    let stored = create_match_move room.match_id (played_round players room m1 m2 now) in
    if (decision players t).is_complete
    then record {
      room = record t { status = completed; winner_id = (decision players t).winner_id };
      players = players;
      effects = stored ∷ finalize_match room.room_id ∷ [];
    }
    else record {
      room = record t { current_round = room.current_round + 1 };
      players = set_move (set_move players room.player1 none) room.player2 none;
      effects = stored ∷ [];
    }

-- `if (room.player1.move && room.player2.move) this.resolveRound(room)`.
unfoldable pub settle : Players → GameRoom → ℕ → Turn
settle players room now = elim (players room.player1).move [
  | none ↦ record { room = room; players = players; effects = [] }
  | some m1 ↦ elim (players room.player2).move [
    | none ↦ record { room = room; players = players; effects = [] }
    | some m2 ↦ resolve_round players room m1 m2 now
  ]
]

unfoldable pub get_room : GameService → ℕ → Result GameRoom
get_room s room_id = or_throw (lookup room_id s.rooms) (not_found "Room not found")

-- The part of `submitMove` that works on the room it has found.
unfoldable pub submit : Players → GameRoom → ℕ → String → ℕ → Result Turn
submit players room user_id raw now = do
  guard (is_in_progress room.status) (bad_request "Game not in progress")
  move ← or_throw (is_valid_move raw) (bad_request "Invalid move")
  let is_p1 = (players room.player1).user_id == user_id
  let is_p2 = (players room.player2).user_id == user_id
  guard (is_p1 || is_p2) (bad_request "Player not in this room")
  let mover = if is_p1 then room.player1 else room.player2
  guard (not (is_some (players mover).move)) (bad_request "Move already submitted")
  ok (settle (set_move players mover (some move)) room now)

unfoldable pub submit_move : GameService → ℕ → ℕ → String → ℕ → Result (GameRoom × GameService)
submit_move s room_id user_id raw now = do
  room ← get_room s room_id
  turn ← submit s.players room user_id raw now
  ok (
    turn.room,
    record s {
      rooms = insert room_id turn.room s.rooms;
      players = turn.players;
      effects = s.effects ++ turn.effects;
    },
  )

unfoldable pub get_room_count : GameService → ℕ
get_room_count s = length s.rooms

pub record RoomSummary : Type 0 where
  pub room_id : ℕ
  pub player1 : String
  pub player2 : String
  pub round : ℕ
  pub is_ranked : Bool

abbrev pub summary : Players → GameRoom → RoomSummary
summary players r = record {
  room_id = r.room_id;
  player1 = (players r.player1).username;
  player2 = (players r.player2).username;
  round = r.current_round;
  is_ranked = r.is_ranked;
}

unfoldable pub list_active_rooms : GameService → List RoomSummary
list_active_rooms s =
    map (summary s.players) (filter (λ (r : GameRoom). is_in_progress r.status) (values s.rooms))

abbrev pub plays_in : Players → ℕ → GameRoom → Bool
plays_in players user_id r =
    is_in_progress r.status
    && ((players r.player1).user_id == user_id || (players r.player2).user_id == user_id)

unfoldable pub find_active_room_by_user_id : GameService → ℕ → Option GameRoom
find_active_room_by_user_id s user_id = find (plays_in s.players user_id) (values s.rooms)
