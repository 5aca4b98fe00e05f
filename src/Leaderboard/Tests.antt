-- ===== src/Leaderboard/Tests.antt =====
-- A board of two, level on points.
use swafri_backend.Common.{
  ℕ, ◌+◌, ◌≤◌, ◌<◌, ◌≡◌, refl, true, none, some, List, [], ◌∷◌, filter, length,
}
use swafri_backend.Users.{User, user}
use swafri_backend.Leaderboard.{is_ranked, is_ahead, get_leaderboard, get_player_rank}
use swafri_backend.Leaderboard.Ranking.{get_leaderboard-rank}
use swafri_backend.Leaderboard.Standing.{
  is_ahead_by_wins, is_level, get_player_rank-get_leaderboard,
}

abbrev ann : User
ann = record {
  id = 1;
  email = 11;
  username = 21;
  password = 0;
  avatar = none;
  wallet_address = some 31;
  role = user;
  is_active = true;
  deleted_at = none;
  wins = 3;
  losses = 1;
  total_matches = 4;
  current_streak = 2;
  longest_streak = 2;
  points = 30;
  refresh_token = none;
  blockchain_profile_id = none;
  wallet_verified_at = some 5;
}

abbrev bob : User
bob = record {
  id = 2;
  email = 12;
  username = 22;
  password = 0;
  avatar = none;
  wallet_address = some 32;
  role = user;
  is_active = true;
  deleted_at = none;
  wins = 2;
  losses = 2;
  total_matches = 4;
  current_streak = 0;
  longest_streak = 1;
  points = 30;
  refresh_token = none;
  blockchain_profile_id = none;
  wallet_verified_at = some 6;
}

abbrev users : List User
users = bob ∷ ann ∷ []

get_leaderboard-rank_example :
    (2 ≡ 1 + 1) × (length (filter (λ v. is_ahead v bob) (filter is_ranked users)) < 2)
unfolding get_leaderboard
get_leaderboard-rank_example = get_leaderboard-rank users 9 1 2 bob [] refl

get_player_rank-get_leaderboard_example :
    (n : ℕ) × ((get_player_rank users 2).rank ≡ some n)
    × (n + length (filter (is_ahead_by_wins bob) (filter is_ranked users))
        ≡ length (filter (λ v. is_ahead v bob) (filter is_ranked users)) + 1)
    × (n ≤ 2)
    × (2 + 1 ≤ n + length (filter (is_level bob) (filter is_ranked users)))
    × ((get_player_rank users 2).points ≡ 30)
unfolding get_leaderboard
get_player_rank-get_leaderboard_example =
    get_player_rank-get_leaderboard users 9 1 2 bob [] refl refl refl
      ((λ h. refl), ((λ h. refl), tt))
