-- ===== src/Squad/Hill/Tests.antt =====
-- Tests of the squads' game queue, and the theorems at concrete inputs.
use swafri_backend.Common.{
  ℕ, ◌+◌, ◌≡◌, refl, sym, ap, Option, none, some, [], ◌∷◌, arith, err, bad_request,
}
use swafri_backend.Game.Engine.{Move, is_valid_move}
use swafri_backend.Game.Room.{Players, submit, new_room}
use swafri_backend.Game.Tests.{
  turn3, room3, last_turn, last_users, last_submission, last_completed, room3_players,
}
use swafri_backend.Squad.Hill.{
  SquadGameState, Starts, empty_state, seat, start_squad_match, rotate, join_queue,
  handle_match_end, handle_player_disconnect, try_start_match,
}
use swafri_backend.Squad.Hill.Rotation.{participants, next_line, IsRunning, handle_match_end_lem}
use swafri_backend.Squad.Hill.Stale.{handle_match_end-stale}
use swafri_backend.Game.Room.Replay.{Replays}
use swafri_backend.Squad.Hill.Queueing.{times, IsHill}
use swafri_backend.Squad.Hill.Disconnects.{
  handle_player_disconnect-times, handle_player_disconnect_alone,
}
use swafri_backend.Squad.Hill.Reachability.{Reach, start, join, finish, disconnect, Reach-IsHill}

-- Entry `r` is of user `r + 1` on socket `r + 11`.
abbrev users : Players
users r = record {
  user_id = r + 1;
  username = "";
  socket_id = r + 11;
  wallet_address = none;
  wallet_verified_at = none;
  move = none;
}

abbrev user_of : ℕ → ℕ
user_of r = r + 1

abbrev or_empty_start : Option (SquadGameState × Starts) → SquadGameState × Starts
or_empty_start none = (empty_state, [])
or_empty_start (some t) = t

abbrev one : SquadGameState × Starts
unfolding join_queue try_start_match seat start_squad_match
one = or_empty_start (join_queue users empty_state 0)

abbrev two : SquadGameState × Starts
unfolding one join_queue try_start_match seat start_squad_match
two = or_empty_start (join_queue users one.0 1)

abbrev three : SquadGameState × Starts
unfolding two join_queue try_start_match seat start_squad_match
three = or_empty_start (join_queue users two.0 2)

-- The first two joins start a match.
two_start : two.1 ≡ (0, 1) ∷ []
unfolding two seat
two_start = refl

three-Reach : Reach user_of three.0
unfolding three join_queue try_start_match seat
three-Reach =
    join users 2 three (λ r. refl) refl
      (join users 1 two (λ r. refl) refl (join users 0 one (λ r. refl) refl start))

-- The challenger wins, and then disconnects.
abbrev dethroned : SquadGameState × Starts
unfolding three handle_match_end rotate
dethroned = handle_match_end users three.0 (some 2)

next_pair : dethroned.1 ≡ (1, 2) ∷ []
unfolding dethroned seat rotate
next_pair = refl

Reach-IsHill_example : IsHill user_of (handle_player_disconnect users dethroned.0 12).0
unfolding dethroned
Reach-IsHill_example =
    Reach-IsHill (disconnect users 12 (λ r. refl) (finish users (some 2) (λ r. refl) three-Reach))

handle_match_end_lem_example :
    IsRunning (handle_match_end users three.0 (some 2)) (next_line users (2 ∷ []) 0 1 (some 2))
unfolding three seat
handle_match_end_lem_example = handle_match_end_lem users three.0 0 1 (some 2) refl refl

handle_player_disconnect-times_example :
    times user_of 2 (participants (handle_player_disconnect users three.0 12).0)
    ≡ times user_of 2 (participants three.0)
unfolding three seat
handle_player_disconnect-times_example =
    handle_player_disconnect-times user_of 2 users three.0 12 refl

handle_player_disconnect_alone_example :
    let (t, starts) = handle_player_disconnect users two.0 11 in
    (t.champion ≡ some 1) × (t.challenger ≡ some 0) × (starts ≡ (1, 0) ∷ (1, 0) ∷ [])
unfolding two seat
handle_player_disconnect_alone_example =
    handle_player_disconnect_alone users two.0 0 1 refl refl refl refl (omega arith) (omega arith)
      (omega arith)

-- The user of entry 0 has won a match against the user of entry 1 while entry 2 waited.
handle_match_end-stale_example :
    (c : ℕ) × (d : ℕ) × (old : Move) × ((handle_match_end last_turn.players three.0 (some 1)).1
      ≡ (c, d) ∷ [])
    × ((last_turn.players c).move ≡ some old)
    × (submit last_turn.players
          (new_room last_turn.players 11 21 c d 200)
          (last_turn.players c).user_id
          "paper"
          200
        ≡ err (bad_request "Move already submitted"))
    × Replays last_turn.players
        (new_room last_turn.players 11 21 c d 200)
        old
        (last_turn.players d).move
        (submit last_turn.players
          (new_room last_turn.players 11 21 c d 200)
          (last_turn.players d).user_id
          "paper"
          200)
unfolding three seat start_squad_match is_valid_move
handle_match_end-stale_example =
    handle_match_end-stale turn3.players room3 1 "scissors" 101 last_turn last_submission
      last_completed three.0 (some 1) (ap some (sym (room3_players.0)))
      (ap some (sym (room3_players.1))) refl
      (λ e. ground (arith, room3_players.0, room3_players.1, last_users.0, last_users.1))
      (
        (
          (λ e. ground (arith, room3_players.0, last_users.0, last_users.2)),
          (λ e. ground (arith, room3_players.1, last_users.1, last_users.2)),
        ),
        tt,
      )
      11 21 200 "paper" refl
