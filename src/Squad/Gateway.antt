-- ===== src/Squad/Gateway.antt =====
-- src/modules/squad/gateway/squad.gateway.ts: the handlers. `startSquadMatch` awaits the creation of the
-- room: until then the pair is in `starting`.
pub mod Failure
use swafri_backend.Common.{
  ℕ, Bool, Option, none, some, String, List, [], ◌∷◌, ◌++◌, ◌==◌, if◌then◌else◌, is_some, find, map,
  false, lookup, insert, delete, ok, err,
}
use swafri_backend.Game.Room.{PlayerState, Players, GameService, new_player, create_room}
use swafri_backend.Matchmaking.{WalletRow, address_in, verified_in}
use swafri_backend.Squad.Store.{SquadDb}
use swafri_backend.Squad.Service.{get_member_role}
use swafri_backend.Squad.Hill.{
  SquadGameState, Starts, empty_state, is_winner, handle_match_end, handle_player_disconnect,
  join_queue, leave_queue,
}

-- A pair whose room is being created, and its squad.
pub record Starting : Type 0 where
  pub squad_id : ℕ
  pub champion : ℕ
  pub challenger : ℕ

pub record SquadGateway : Type 0 where
  pub squad_game_states : List (ℕ × SquadGameState)
  pub socket_to_squad : List (ℕ × ℕ)
  pub starting : List Starting
  pub game : GameService

pub data Answer : Type 0 where
  done : Answer
  error : String → Answer

abbrev pub or_empty : Option SquadGameState → SquadGameState
or_empty none = empty_state
or_empty (some s) = s

abbrev pub starts_of : ℕ → Starts → List Starting
starts_of squad_id [] = []
starts_of squad_id ((c, d) ∷ rest) =
    record { squad_id = squad_id; champion = c; challenger = d } ∷ starts_of squad_id rest

abbrev pub put_state : SquadGateway → ℕ → SquadGameState × Starts → SquadGateway
put_state g squad_id (s, starts) = record g {
  squad_game_states = insert squad_id s g.squad_game_states;
  starting = g.starting ++ starts_of squad_id starts;
}

-- The handler after its two reads; the entry is a new player object. A state is made for the squad
-- even if the user is refused.
unfoldable pub handle_join_queue :
    SquadGateway
    → SquadDb
    → (squad_id user_id : ℕ) → String
    → (socket_id : ℕ) → Option WalletRow
    → SquadGateway × Answer
handle_join_queue g db squad_id user_id username socket_id row =
    if is_some (get_member_role db squad_id user_id)
    then (let entry : PlayerState = record {
      user_id = user_id;
      username = username;
      socket_id = socket_id;
      wallet_address = address_in row;
      wallet_verified_at = verified_in row;
      move = none;
    } in
        let s = or_empty (lookup squad_id g.squad_game_states) in
        let game = new_player g.game entry in
        elim (join_queue game.players s g.game.next) [
          | none ↦ (
            record g { squad_game_states = insert squad_id s g.squad_game_states },
            error "You are already in the queue or playing",
          )
          | some moved ↦ (
            put_state
                (record g {
                  game = game;
                  socket_to_squad = insert socket_id squad_id g.socket_to_squad;
                })
                squad_id moved,
            done,
          )
        ])
    else (g, error "You are not a member of this squad")

unfoldable pub handle_leave_queue :
    SquadGateway → (squad_id user_id socket_id : ℕ) → SquadGateway × Answer
handle_leave_queue g squad_id user_id socket_id = elim (lookup squad_id g.squad_game_states) [
  | none ↦ (g, error "Squad queue not found")
  | some s ↦ (
    record g {
      squad_game_states =
          insert squad_id (leave_queue g.game.players s user_id) g.squad_game_states;
      socket_to_squad = delete socket_id g.socket_to_squad;
    },
    done,
  )
]

-- The end of `startSquadMatch` for a pair that was starting between `before` and `after`. If the
-- creation throws, the state stays as it is: in progress, and without a room.
unfoldable pub room_created :
    SquadGateway
    → (before : List Starting) → Starting
    → (after : List Starting) → (room_id match_id now : ℕ) → (stored : Bool) → SquadGateway
room_created g before p after room_id match_id now stored =
    elim (create_room g.game room_id match_id p.champion p.challenger now stored) [
      | err e ↦ record g { starting = before ++ after }
      | ok (room, game) ↦ record g {
        starting = before ++ after;
        game = game;
        squad_game_states =
            insert p.squad_id
              (record (or_empty (lookup p.squad_id g.squad_game_states)) {
                current_room_id = some room_id;
              })
              g.squad_game_states;
      }
    ]

-- The squad whose running room this is.
abbrev pub squad_of_room : ℕ → List (ℕ × SquadGameState) → Option (ℕ × SquadGameState)
squad_of_room room_id = find (λ e. is_winner e.1.current_room_id room_id)

unfoldable pub notify_match_end : SquadGateway → (room_id : ℕ) → Option ℕ → SquadGateway
notify_match_end g room_id winner = elim (squad_of_room room_id g.squad_game_states) [
  | none ↦ g
  | some (squad_id, s) ↦ put_state g squad_id (handle_match_end g.game.players s winner)
]

unfoldable pub handle_disconnect : SquadGateway → (socket_id : ℕ) → SquadGateway
handle_disconnect g socket_id = elim (lookup socket_id g.socket_to_squad) [
  | none ↦ g
  | some squad_id ↦
      let gone = record g { socket_to_squad = delete socket_id g.socket_to_squad } in
      let state = lookup squad_id g.squad_game_states in
      if squad_id == 0 then g else elim state [
        | none ↦ gone
        | some s ↦ put_state gone squad_id (handle_player_disconnect g.game.players s socket_id)
      ]
]

-- Who is shown: an identifier and a name.
abbrev pub shown : Players → ℕ → ℕ × String
shown players p = ((players p).user_id, (players p).username)

abbrev pub shown_seat : Players → Option ℕ → Option (ℕ × String)
shown_seat players none = none
shown_seat players (some p) = some (shown players p)

pub record QueueStatus : Type 0 where
  pub champion : Option (ℕ × String)
  pub challenger : Option (ℕ × String)
  pub queue : List (ℕ × String)
  pub is_match_in_progress : Bool

abbrev pub status_of : Players → Option SquadGameState → QueueStatus
status_of players none = record {
  champion = none;
  challenger = none;
  queue = [];
  is_match_in_progress = false;
}
status_of players (some s) = record {
  champion = shown_seat players s.champion;
  challenger = shown_seat players s.challenger;
  queue = map (shown players) s.queue;
  is_match_in_progress = s.is_match_in_progress;
}

unfoldable pub handle_get_queue : SquadGateway → (squad_id : ℕ) → QueueStatus
handle_get_queue g squad_id = status_of g.game.players (lookup squad_id g.squad_game_states)
