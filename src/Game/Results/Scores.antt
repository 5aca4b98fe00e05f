-- ===== src/Game/Results/Scores.antt =====
-- The statistics of a finished match against the board.
use swafri_backend.Common.{◌+◌}
use swafri_backend.Users.{User}
use swafri_backend.Records.{Records}
use swafri_backend.Game.Results.{after_win}
use swafri_backend.Game.Results.Board.{Board}

longer : User → User
longer u = record (after_win u) { longest_streak = u.current_streak + 1 }
