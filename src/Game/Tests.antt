-- ===== src/Game/Tests.antt =====
-- Tests of the game, and the theorems at concrete inputs.
use swafri_backend.Common.{
  ℕ, ◌+◌, ◌≡◌, refl, inl, inr, true, false, none, some, String, [], ◌∷◌, get_last?, ◌++◌, ◌↔◌,
  Result, ok, err, bad_request, arith,
}
use swafri_backend.Game.Engine.{scissors, resolve_round, resolve_match, is_valid_move}
use swafri_backend.Game.Engine.Laws.{resolve_match_open}
use swafri_backend.Game.Room.{
  in_progress, completed, PlayerState, Round, GameRoom, Players, Turn, GameService, new_player,
  new_room, create_room, submit, settle, submit_move, get_room, set_move, decision, id1, id2,
}
use swafri_backend.Game.Room
use swafri_backend.Game.Room.Validity.{IsValid}
use swafri_backend.Game.Room.Service.{
  new_service, Reach, start, add, create, submission, Reach-IsSound,
}
use swafri_backend.Game.Room.Bookkeeping.{IsSound, commit}
use swafri_backend.Game.Room.Submission.{
  MayMove, submit-ok_iff, stale_player, ties, ties_endless, IsBetween,
}
use swafri_backend.Game.Gateway.{announce, handle_move}
use swafri_backend.Game.Gateway.Moves.{first_report, handle_move-first, handle_move-last, IsAwaited}

abbrev alice : PlayerState
alice = record {
  user_id = 1;
  username = "alice";
  socket_id = 11;
  wallet_address = some 7;
  wallet_verified_at = some 50;
  move = none;
}

abbrev bob : PlayerState
bob = record {
  user_id = 2;
  username = "bob";
  socket_id = 12;
  wallet_address = none;
  wallet_verified_at = none;
  move = none;
}

abbrev nobody : Players
nobody q = record {
  user_id = 0;
  username = "";
  socket_id = 0;
  wallet_address = none;
  wallet_verified_at = none;
  move = none;
}

abbrev lobby : GameService
unfolding new_service new_player
lobby = new_player (new_player (new_service nobody) alice) bob

abbrev state_of : GameService → Result (GameRoom × GameService) → GameService
state_of s (ok r) = r.1
state_of s (err e) = s

abbrev room_of : GameService → Result (GameRoom × GameService) → GameRoom
room_of s (ok r) = r.0
room_of s (err e) = new_room s.players 0 0 0 1 0

abbrev opened : GameService
unfolding lobby create_room
opened = state_of lobby (create_room lobby 10 20 0 1 100 true)

abbrev play : GameService → ℕ → String → Result (GameRoom × GameService)
play s user_id raw = submit_move s 10 user_id raw 101

abbrev turn1 : GameService
unfolding opened submit_move get_room submit settle Room.resolve_round decision resolve_round
    resolve_match is_valid_move
turn1 = state_of opened (play opened 1 "rock")

abbrev turn2 : GameService
unfolding turn1
turn2 = state_of turn1 (play turn1 2 "scissors")

abbrev pub turn3 : GameService
unfolding turn2
turn3 = state_of turn2 (play turn2 2 "paper")

abbrev turn4 : GameService
unfolding turn3
turn4 = state_of turn3 (play turn3 1 "scissors")

opened-Reach : Reach opened
unfolding opened
opened-Reach =
    create {s = lobby} {room = new_room lobby.players 10 20 0 1 100} 10 20 0 1 100 true
      (record {
        fresh = refl;
        player1_exists = omega arith;
        player2_exists = omega arith;
        distinct = omega arith;
      })
      refl (add bob (add alice (start nobody)))

turn1-Reach : Reach turn1
unfolding turn1
turn1-Reach =
    submission {s = opened} {room = room_of opened (play opened 1 "rock")} 10 1 "rock" 101 refl
      opened-Reach

turn2-Reach : Reach turn2
unfolding turn2
turn2-Reach =
    submission {s = turn1} {room = room_of turn1 (play turn1 2 "scissors")} 10 2 "scissors" 101 refl
      turn1-Reach

turn3-Reach : Reach turn3
unfolding turn3
turn3-Reach =
    submission {s = turn2} {room = room_of turn2 (play turn2 2 "paper")} 10 2 "paper" 101 refl
      turn2-Reach

finished : Reach turn4
unfolding turn4
finished =
    submission {s = turn3} {room = room_of turn3 (play turn3 1 "scissors")} 10 1 "scissors" 101 refl
      turn3-Reach

Reach-IsSound_example : IsSound turn4
Reach-IsSound_example = Reach-IsSound finished

abbrev last_room : GameRoom
unfolding turn4
last_room = room_of turn3 (play turn3 1 "scissors")

alice_wins :
    (last_room.winner_id ≡ some 1) × (last_room.status ≡ completed) × (last_room.player1_wins ≡ 2)
unfolding last_room
alice_wins = (refl, refl, refl)

resolve_match_open_example :
    ((resolve_match 1 1 1 2).is_complete ≡ false) × ((resolve_match 1 1 1 2).winner_id ≡ none)
resolve_match_open_example = resolve_match_open 1 1 1 2 (omega arith) (omega arith)

-- The room before the last submission, and what that submission leaves.
abbrev pub room3 : GameRoom
unfolding turn3
room3 = room_of turn2 (play turn2 2 "paper")

submit-ok_iff_example :
    ((t : Turn) × (submit turn3.players room3 1 "scissors" 101 ≡ ok t))
    ↔ MayMove turn3.players room3 1 "scissors"
submit-ok_iff_example = submit-ok_iff turn3.players room3 1 "scissors" 101

abbrev pub last_turn : Turn
unfolding turn4 room3
last_turn = settle (set_move turn3.players 0 (some scissors)) room3 101

pub last_submission : submit turn3.players room3 1 "scissors" 101 ≡ ok last_turn
unfolding last_turn
last_submission = refl

pub last_completed : last_turn.room.status ≡ completed
unfolding last_turn
last_completed = refl

pub room3_players : (room3.player1 ≡ 0) × (room3.player2 ≡ 1)
unfolding room3
room3_players = (refl, refl)

pub last_users :
    ((last_turn.players 0).user_id ≡ 1)
    × ((last_turn.players 1).user_id ≡ 2)
    × ((last_turn.players 2).user_id ≡ 0)
unfolding last_turn
last_users = (refl, refl, refl)

stale_player_example :
    submit last_turn.players
      (new_room last_turn.players 11 21 0 1 200)
      (last_turn.players 0).user_id
      "paper"
      200
    ≡ err (bad_request "Move already submitted")
unfolding last_turn
stale_player_example =
    stale_player turn3.players room3 1 "scissors" 101 last_turn refl refl 0 1 11 21 200 (inl refl)
      "paper" refl

-- In a new room of the same two objects nobody can move.
both_refused :
    (submit last_turn.players (new_room last_turn.players 11 21 0 1 200) 1 "paper" 200
      ≡ err (bad_request "Move already submitted"))
    × (submit last_turn.players (new_room last_turn.players 11 21 0 1 200) 2 "paper" 200
        ≡ err (bad_request "Move already submitted"))
unfolding last_turn submit is_valid_move
both_refused = (refl, refl)

abbrev fresh_room : GameRoom
unfolding opened
fresh_room = room_of lobby (create_room lobby 10 20 0 1 100 true)

fresh-IsBetween : IsBetween opened.players fresh_room
unfolding opened fresh_room
fresh-IsBetween = record {
  playing = refl;
  unmoved1 = refl;
  unmoved2 = refl;
  two_objects = omega arith;
  two_users = omega arith;
  wins1 = omega arith;
  wins2 = omega arith;
}

ties_endless_example :
    (t : Turn) × (ties 9 opened.players fresh_room "rock" 101 ≡ ok t)
    × (t.room.status ≡ in_progress)
    × (t.room.current_round ≡ fresh_room.current_round + 9)
unfolding is_valid_move
ties_endless_example = ties_endless 9 opened.players fresh_room "rock" 101 fresh-IsBetween refl

-- Between the first and the second round.
abbrev room2 : GameRoom
unfolding turn2
room2 = room_of turn1 (play turn1 2 "scissors")

room2-IsValid : IsValid turn2.players room2
unfolding turn2 room2
room2-IsValid = (IsSound.kept {s = turn2} (Reach-IsSound turn2-Reach) 10 room2 refl).valid

room2-IsBetween : IsBetween turn2.players room2
unfolding turn2 room2
room2-IsBetween = record {
  playing = refl;
  unmoved1 = refl;
  unmoved2 = refl;
  two_objects = omega arith;
  two_users = omega arith;
  wins1 = omega arith;
  wins2 = omega arith;
}

-- The first move of the second round.
handle_move-first_example :
    (handle_move turn2 10 2 "paper" 101).1 ≡ first_report 10 room2 (get_last? room2.rounds)
unfolding turn2 room2
handle_move-first_example =
    handle_move-first turn2 10 2 "paper" 101 room2 refl room2-IsValid room2-IsBetween (inr refl)
      refl

room3-IsAwaited : IsAwaited turn3.players room3 1
unfolding turn3 room3
room3-IsAwaited = record {
  playing = refl;
  seated = inl refl;
  two_objects = omega arith;
  unmoved = refl;
  laid = refl;
}

handle_move-last_example :
    (t : Turn) × (last : Round) × (handle_move turn3 10 1 "scissors" 101
      ≡ (commit turn3 10 t, announce 10 t.room (some last)))
    × (t.room.rounds ≡ room3.rounds ++ last ∷ [])
    × (last.round_number ≡ room3.current_round)
unfolding turn3 room3
handle_move-last_example =
    handle_move-last turn3 10 1 "scissors" 101 room3 refl room3-IsAwaited refl
