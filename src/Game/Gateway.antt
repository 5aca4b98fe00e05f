-- ===== src/Game/Gateway.antt =====
-- src/modules/game/gateway/game.gateway.ts. A handler takes the decoded payload and returns the new
-- state with the events that it emits, in order.
pub mod Moves
pub mod Declines
use swafri_backend.Common.{
  ℕ, ◌+◌, ◌-◌, Bool, true, false, ◌&&◌, ◌||◌, Option, none, some, String, List, [], ◌∷◌, ◌++◌, ◌==◌,
  if◌then◌else◌, get_last?, is_some, Result, ok, err, HttpException, lookup, insert,
}
use text.Mathlib.Text.{◌==◌ as str_eq}
use swafri_backend.Friend.Online.{OnlineUsers, get_socket_id}
use swafri_backend.Game.Room.{
  GameStatus, PlayerState, Round, GameRoom, Players, GameService, RoomSummary, is_completed,
  in_progress, id1, id2, submit_move, get_room, list_active_rooms, find_active_room_by_user_id,
  create_room, new_player,
}

-- Where an event goes: the socket that called, everybody in a room, everybody in a room but the
-- caller, or one socket.
pub data Target : Type 0 where
  client : Target
  to_room : ℕ → Target
  others_in : ℕ → Target
  to_socket : ℕ → Target

pub data Event : Type 0 where
  move_received : (room_id round : ℕ) → Event
  opponent_moved : (room_id : ℕ) → Event
  round_result : Round → (player1_wins player2_wins : ℕ) → Event
  next_round : (round_number : ℕ) → Event
  match_result :
      (winner_id : Option ℕ) (player1_wins player2_wins : ℕ) (on_chain_hash : Option ℕ)
      (match_id : ℕ)
      → Bool
      → Event
  rematch_requested : (socket_id : ℕ) → Event
  spectate_joined : GameRoom → Event
  reaction_received : (room_id : ℕ) (emoji username : String) → Event
  rooms : List RoomSummary → Event
  reconnected : GameRoom → (opponent : PlayerState) → Event
  matched : GameRoom → (opponent : PlayerState) → Event
  thrown : HttpException → Event
  game_error : String → Event

pub data Action : Type 0 where
  emit : Target → Event → Action
  join : (socket_id room_id : ℕ) → Action

-- The last round's number is one below the room's round counter; `undefined` equals no number.
abbrev pub numbered_before : ℕ → Option Round → Bool
numbered_before current none = false
numbered_before current (some r) = r.round_number + 1 == current

-- `room.rounds.at(-1)?.roundNumber === room.currentRound - 1 || room.status === 'completed'`.
unfoldable pub round_resolved : GameRoom → Bool
round_resolved room =
    numbered_before room.current_round (get_last? room.rounds) || is_completed room.status

-- The announcements of a round; with no round, the access `last.roundNumber` throws.
unfoldable pub announce : ℕ → GameRoom → Option Round → List Action
announce room_id room none = emit client (game_error "TypeError") ∷ []
announce room_id room (some last) =
    emit (to_room room_id) (round_result last room.player1_wins room.player2_wins)
    ∷ emit (to_room room_id) (
        if is_completed room.status
        then match_result room.winner_id room.player1_wins room.player2_wins room.on_chain_hash
            room.match_id room.is_ranked
        else next_round room.current_round)
    ∷ []

-- What `handleMove` sends once the submission is in.
unfoldable pub report_move : ℕ → GameRoom → List Action
report_move room_id room =
    if round_resolved room
    then announce room_id room (get_last? room.rounds)
    else emit client (move_received room_id room.current_round)
      ∷ emit (others_in room_id) (opponent_moved room_id)
      ∷ []

unfoldable pub handle_move :
    GameService → (room_id user_id : ℕ) → String → ℕ → GameService × List Action
handle_move s room_id user_id move now = elim (submit_move s room_id user_id move now) [
  | ok (room, s') ↦ (s', report_move room_id room)
  | err e ↦ (s, emit client (thrown e) ∷ [])
]

unfoldable pub handle_rematch : (room_id socket_id : ℕ) → List Action
handle_rematch room_id socket_id = emit (others_in room_id) (rematch_requested socket_id) ∷ []

unfoldable pub handle_spectate : GameService → (room_id socket_id : ℕ) → List Action
handle_spectate s room_id socket_id = elim (get_room s room_id) [
  | ok room ↦ join socket_id room_id ∷ emit client (spectate_joined room) ∷ []
  | err e ↦ emit client (game_error "Room not found or match has ended") ∷ []
]

-- An absent room identifier is 0, an absent emoji or name the empty text.
unfoldable pub handle_spectate_reaction : (room_id : ℕ) → String → String → List Action
handle_spectate_reaction room_id emoji username =
    if room_id == 0 || str_eq emoji ""
    then []
    else emit (to_room room_id)
        (reaction_received room_id emoji (if str_eq username "" then "Spectator" else username))
      ∷ []

unfoldable pub handle_list_rooms : GameService → List Action
handle_list_rooms s = emit client (rooms (list_active_rooms s)) ∷ []

-- `room.player1.socketId = client.id`, or the second player's.
abbrev pub set_socket : Players → ℕ → ℕ → Players
set_socket players r socket_id q =
    if r == q then record (players q) { socket_id = socket_id } else players q

abbrev pub seat_of : Players → GameRoom → ℕ → Option ℕ
seat_of players room user_id =
    if id1 players room == user_id
    then some room.player1
    else if id2 players room == user_id
    then some room.player2
    else none

abbrev pub reseat : Players → Option ℕ → ℕ → Players
reseat players none socket_id = players
reseat players (some r) socket_id = set_socket players r socket_id

unfoldable pub handle_reconnect : GameService → (user_id socket_id : ℕ) → GameService × List Action
handle_reconnect s user_id socket_id =
    if user_id == 0 then (s, []) else elim (find_active_room_by_user_id s user_id) [
      | none ↦ (s, [])
      | some room ↦
          let players = reseat s.players (seat_of s.players room user_id) socket_id in
          let opponent = if id1 players room == user_id then room.player2 else room.player1 in
          (
            record s { players = players },
            join socket_id room.room_id ∷ emit client (reconnected room (players opponent)) ∷ [],
          )
    ]

-- The columns that `findUnique` selects.
pub record StoredUser : Type 0 where
  pub username : String
  pub wallet_address : Option ℕ
  pub wallet_verified_at : Option ℕ

abbrev pub player_of : ℕ → ℕ → StoredUser → PlayerState
player_of user_id socket_id u = record {
  user_id = user_id;
  username = u.username;
  socket_id = socket_id;
  wallet_address = u.wallet_address;
  wallet_verified_at = u.wallet_verified_at;
  move = none;
}

-- The rows that the query returns, whether the inviter's socket is still connected, and whether the
-- match row can be stored are arguments.
unfoldable pub start_friend_game :
    GameService
    → (room_id match_id from_user to_user inviter_socket socket_id now : ℕ) → StoredUser
    → StoredUser
    → (connected stored : Bool) → GameService × List Action
start_friend_game s room_id match_id from_user to_user inviter_socket socket_id now inviter
      responder connected stored =
    let p1 = player_of from_user inviter_socket inviter in
    let p2 = player_of to_user socket_id responder in
    let s' = new_player (new_player s p1) p2 in
    elim (create_room s' room_id match_id s.next (s.next + 1) now stored) [
      | err e ↦ (s', emit client (thrown e) ∷ [])
      | ok (room, s'') ↦ (
        s'',
        (if connected then join inviter_socket room_id ∷ [] else [])
            ++ join socket_id room_id
              ∷ emit (to_socket inviter_socket) (matched room p2)
              ∷ emit client (matched room p1)
              ∷ [],
      )
    ]

unfoldable pub handle_invite_accept :
    GameService
    → OnlineUsers
    → (room_id match_id from_user to_user socket_id now : ℕ) → (ℕ → Option StoredUser)
    → (connected stored : Bool) → GameService × List Action
handle_invite_accept s online room_id match_id from_user to_user socket_id now find_user connected
      stored =
    elim (get_socket_id online from_user) [
      | none ↦ (s, emit client (game_error "Inviter is no longer online") ∷ [])
      | some inviter_socket ↦ elim (find_user from_user) [
        | none ↦ (s, emit client (game_error "User not found") ∷ [])
        | some inviter ↦ elim (find_user to_user) [
          | none ↦ (s, emit client (game_error "User not found") ∷ [])
          | some responder ↦
              start_friend_game s room_id match_id from_user to_user inviter_socket socket_id now
                inviter responder connected stored
        ]
      ]
    ]
