-- ===== src/Game/Results.antt =====
-- The part of `finalizeMatch` of src/modules/game/service/game.service.ts that writes the statistics.
pub mod Soundness
pub mod Writes
pub mod Board
pub mod Scores
use swafri_backend.Common.{
  ℕ, ◌+◌, Bool, true, false, ◌&&◌, ◌||◌, Option, none, some, ◌==◌, if◌then◌else◌, ltb, is_some,
}
use swafri_backend.Effects.{Run, ◌>>=◌, ◌>>◌, return, together}
use swafri_backend.Users.{User}
use swafri_backend.Records.{Records, update_user}
use swafri_backend.Game.Room.{PlayerState}

abbrev pub is_verified : PlayerState → Bool
is_verified p = is_some p.wallet_verified_at

-- The player that `id` names, if it is not the first then the second.
abbrev pub player_of : PlayerState → PlayerState → ℕ → PlayerState
player_of p1 p2 id = if id == p1.user_id then p1 else p2

abbrev pub loser_of : PlayerState → PlayerState → ℕ → ℕ
loser_of p1 p2 winner = if winner == p1.user_id then p2.user_id else p1.user_id

abbrev pub wallet_of : PlayerState → PlayerState → Option ℕ → Option ℕ
wallet_of p1 p2 none = none
wallet_of p1 p2 (some id) = (player_of p1 p2 id).wallet_address

abbrev pub loser_id : PlayerState → PlayerState → Option ℕ → Option ℕ
loser_id p1 p2 none = none
loser_id p1 p2 (some winner) = some (loser_of p1 p2 winner)

abbrev pub is_verified_in : PlayerState → PlayerState → ℕ → Bool
is_verified_in p1 p2 id = id == p1.user_id && is_verified p1 || id == p2.user_id && is_verified p2

-- The columns that a won, a lost and a drawn match change.
abbrev pub after_win : User → User
after_win u = record u {
  wins = u.wins + 1;
  total_matches = u.total_matches + 1;
  points = u.points + 10;
  current_streak = u.current_streak + 1;
}

abbrev pub after_loss : User → User
after_loss u = record u {
  losses = u.losses + 1;
  total_matches = u.total_matches + 1;
  current_streak = 0;
}

abbrev pub after_draw : User → User
after_draw u = record u { total_matches = u.total_matches + 1 }

abbrev pub when : Bool → Run Records (Unit {0}) → Run Records (Unit {0})
when true run = run
when false run = return tt

unfoldable pub save_win : (winner : ℕ) → Run Records (Unit {0})
save_win winner = do
  u ← update_user winner after_win
  when (ltb u.longest_streak u.current_streak)
      (update_user winner (λ v. record v { longest_streak = u.current_streak }) >> return tt)

unfoldable pub save_loss : (loser : ℕ) → Run Records (Unit {0})
save_loss loser = update_user loser after_loss >> return tt

unfoldable pub save_draw : (id : ℕ) → Run Records (Unit {0})
save_draw id = update_user id after_draw >> return tt

-- The statistics of the match, for the players with a verified wallet.
abbrev pub save_result : PlayerState → PlayerState → Option ℕ → Run Records (Unit {0})
save_result p1 p2 none =
    together (when (is_verified p1) (save_draw p1.user_id))
      (when (is_verified p2) (save_draw p2.user_id))
    >> return tt
save_result p1 p2 (some winner) = do
  when (is_verified_in p1 p2 winner) (save_win winner)
  when (is_verified_in p1 p2 (loser_of p1 p2 winner)) (save_loss (loser_of p1 p2 winner))
