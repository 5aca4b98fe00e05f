-- ===== src/Leaderboard.antt =====
-- src/modules/leaderboard/service/leaderboard.service.ts. The rate of wins, a rounded quotient of floating
-- point numbers, is left out; an entry of the board is the rank with the user's row.
pub mod Ranking
pub mod Standing
mod Tests
use swafri_backend.Common.{
  ℕ, suc, zero, ◌+◌, Bool, true, false, not, ◌&&◌, ◌||◌, Option, none, some, List, [], ◌∷◌, ◌==◌,
  if◌then◌else◌, ltb, is_some, filter, length, take, skip,
}
use swafri_backend.Users.{User, find_user, is_deleted}

-- The `where` of the board.
abbrev pub is_ranked : User → Bool
is_ranked u = is_some u.wallet_verified_at && ltb 0 u.total_matches && not (is_deleted u)

-- The order of the board: more points first, and among equals more wins.
abbrev pub is_ahead : User → User → Bool
is_ahead u v = ltb v.points u.points || u.points == v.points && ltb v.wins u.wins

-- `orderBy`: a user goes behind those who are ahead. Ties, which the database may order in any way, keep
-- the table's order.
abbrev pub place : User → List User → List User
place u [] = u ∷ []
place u (v ∷ vs) = if is_ahead v u then v ∷ place u vs else u ∷ v ∷ vs

abbrev pub order_by_points : List User → List User
order_by_points [] = []
order_by_points (u ∷ us) = place u (order_by_points us)

abbrev pub number_from : ℕ → List User → List (ℕ × User)
number_from rank [] = []
number_from rank (u ∷ us) = (rank, u) ∷ number_from (rank + 1) us

unfoldable pub get_leaderboard : List User → (limit offset : ℕ) → List (ℕ × User)
get_leaderboard users limit offset =
    number_from (offset + 1) (take limit (skip offset (order_by_points (filter is_ranked users))))

-- No rank is the source's -1.
pub record PlayerRank : Type 0 where
  pub rank : Option ℕ
  pub points : ℕ
  pub total_ranked_players : ℕ

abbrev pub is_listed : User → Bool
is_listed u = is_some u.wallet_verified_at && not (is_deleted u)

abbrev pub beats : ℕ → User → Bool
beats points u = ltb points u.points && is_listed u

abbrev pub rank_of : List User → Option User → PlayerRank
rank_of users none = record { rank = none; points = 0; total_ranked_players = 0 }
rank_of users (some u) =
    if is_some u.wallet_verified_at
    then record {
      rank = some (length (filter (beats u.points) users) + 1);
      points = u.points;
      total_ranked_players = length (filter is_listed users);
    }
    else record { rank = none; points = 0; total_ranked_players = 0 }

unfoldable pub get_player_rank : List User → (user_id : ℕ) → PlayerRank
get_player_rank users user_id = rank_of users (find_user users user_id)
