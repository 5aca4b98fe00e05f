-- ===== src/Game/Finalization/Tests.antt =====
-- A finished match: of two players without a wallet in a squad's queue, and of two with one.
use swafri_backend.Common.{
  ℕ, ◌≡◌, refl, Bool, true, false, Option, none, some, [], ◌∷◌, ◌≤◌, ok, err, database_failure,
  arith,
}
use swafri_backend.Users.{User, user}
use swafri_backend.Records.{Match, in_progress, attempt, update_user, update_match, add_job}
use swafri_backend.Achievement.{Criterion}
use swafri_backend.Game.Room.{PlayerState, GameRoom, completed}
use swafri_backend.Game.Room.Service.{new_service}
use swafri_backend.Game.Results.{save_win}
use swafri_backend.Game.Results.Soundness.{IsSoundUser, streak_bound}
use swafri_backend.Game.Finalization.{Arena, Encoded, finalize_match, finalize_saved}
use swafri_backend.Game.Finalization.Statistics.{IsSoundArena, finalize_match-IsSoundArena}
use swafri_backend.Game.Finalization.Practice.{IsUnsaved, finalize_match-IsUnsaved}

abbrev ann : User
ann = record {
  id = 1;
  email = 11;
  username = 21;
  password = 0;
  avatar = none;
  wallet_address = some 31;
  role = user;
  is_active = true;
  deleted_at = none;
  wins = 3;
  losses = 1;
  total_matches = 4;
  current_streak = 2;
  longest_streak = 2;
  points = 30;
  refresh_token = none;
  blockchain_profile_id = none;
  wallet_verified_at = some 5;
}

abbrev player : (user_id socket_id : ℕ) → Option ℕ → PlayerState
player user_id socket_id wallet = record {
  user_id = user_id;
  username = "player";
  socket_id = socket_id;
  wallet_address = wallet;
  wallet_verified_at = wallet;
  move = none;
}

abbrev room : GameRoom
room = record {
  room_id = 100;
  match_id = 200;
  player1 = 0;
  player2 = 1;
  status = completed;
  rounds = [];
  current_round = 3;
  player1_wins = 2;
  player2_wins = 0;
  winner_id = some 1;
  on_chain_hash = none;
  is_ranked = false;
  created_at = 0;
}

abbrev row : Match
row = record {
  id = 200;
  room_id = 100;
  player1_id = 1;
  player2_id = 2;
  is_ranked = false;
  winner_id = none;
  status = in_progress;
  on_chain_hash = none;
  ended_at = none;
}

-- The squad 5 waits for the room 100.
abbrev arena : Arena
arena = record {
  records = record {
    users = ann ∷ [];
    matches = row ∷ [];
    achievements = [];
    earned = [];
    jobs = [];
    refused = [];
  };
  squads = record {
    squad_game_states =
        (
          5,
          record {
            champion = some 0;
            challenger = some 1;
            queue = 2 ∷ [];
            current_room_id = some 100;
            is_match_in_progress = true;
          },
        )
        ∷ [];
    socket_to_squad = [];
    starting = [];
    game = new_service (λ reference. player 1 11 none);
  };
  sent = [];
}

abbrev keccak : Encoded → ℕ
keccak e = e.match_id

abbrev nothing_else : User → Criterion → Bool
nothing_else u c = false

abbrev all_connected : ℕ → Bool
all_connected socket_id = true

finalize_match-IsUnsaved_example :
    ((finalize_match keccak nothing_else all_connected true 9000 room
        (player 1 11 none)
        (player 2 12 none)
        arena).1
      ≡ ok tt)
    × IsUnsaved arena (
        (finalize_match keccak nothing_else all_connected true 9000 room
          (player 1 11 none)
          (player 2 12 none)
          arena).0)
finalize_match-IsUnsaved_example =
    finalize_match-IsUnsaved keccak nothing_else all_connected true 9000 room (player 1 11 none)
      (player 2 12 none) arena refl refl refl refl

-- The database takes the two writes of the match and the first one of the win, and rejects the next.
abbrev late_arena : Arena
late_arena = record arena {
  records = record arena.records { refused = false ∷ false ∷ false ∷ true ∷ [] };
}

-- Then the streak is above the longest one.
late_streak :
    let t =
      finalize_match keccak nothing_else all_connected true 9000 room
        (player 1 11 (some 31))
        (player 2 12 none)
        late_arena in
    (t.1 ≡ err database_failure)
    × (t.0.records.users
        ≡ record ann { wins = 4; total_matches = 5; points = 40; current_streak = 3 } ∷ [])
unfolding finalize_match finalize_saved save_win update_user update_match attempt add_job
late_streak = (refl, refl)

ann-IsSoundUser : (reliable : Bool) → IsSoundUser reliable ann
ann-IsSoundUser reliable = record {
  results = omega arith;
  scored = omega arith;
  streaks = bound reliable;
  won = omega arith;
}
  where
    bound : (reliable : Bool) → 2 ≤ streak_bound reliable ann
    bound true = omega arith
    bound false = omega arith

-- From sound rows and with a database that takes every write.
finalize_match_reliable : IsSoundArena true (
    (finalize_match keccak nothing_else all_connected true 9000 room
      (player 1 11 (some 31))
      (player 2 12 none)
      arena).0)
finalize_match_reliable =
    finalize_match-IsSoundArena true keccak nothing_else all_connected true 9000 room
      (player 1 11 (some 31)) (player 2 12 none) arena ((ann-IsSoundUser true, tt), refl)

finalize_match-IsSoundArena_example : IsSoundArena false (
    (finalize_match keccak nothing_else all_connected true 9000 room
      (player 1 11 (some 31))
      (player 2 12 none)
      late_arena).0)
finalize_match-IsSoundArena_example =
    finalize_match-IsSoundArena false keccak nothing_else all_connected true 9000 room
      (player 1 11 (some 31)) (player 2 12 none) late_arena ((ann-IsSoundUser false, tt), tt)
