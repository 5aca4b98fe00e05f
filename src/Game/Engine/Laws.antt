-- ===== src/Game/Engine/Laws.antt =====
-- The rules of a round and of a match.
use swafri_backend.Common.{ℕ, ◌<◌, ◌≡◌, refl, ◌≢◌, false, Option, none, some, arith}
use swafri_backend.Game.Engine.{
  Move, rock, paper, scissors, RoundResult, player1, player2, draw, beats, resolve_round,
  resolve_match,
}

-- The result seen from the other side of the table.
abbrev pub mirror : RoundResult → RoundResult
mirror player1 = player2
mirror player2 = player1
mirror draw = draw

-- Exchanging the two players, with their moves, exchanges the two results, leaves a draw a draw,
-- and leaves the winner.
pub resolve_round_swap :
    (m1 m2 : Move) (p1 p2 : ℕ)
    → ((resolve_round m2 m1 p2 p1).result ≡ mirror (resolve_round m1 m2 p1 p2).result)
      × ((resolve_round m2 m1 p2 p1).winner_id ≡ (resolve_round m1 m2 p1 p2).winner_id)
unfolding resolve_round
resolve_round_swap m1 m2 p1 p2 = ground arith

-- The standard of a round: equal moves draw, and a move wins against the one it defeats.
pub data Decides (m1 m2 : Move) (p1 p2 : ℕ) : RoundResult → Option ℕ → Type 0 where
  tie : m1 ≡ m2 → Decides m1 m2 p1 p2 draw none
  first : beats m1 ≡ m2 → Decides m1 m2 p1 p2 player1 (some p1)
  second : beats m2 ≡ m1 → Decides m1 m2 p1 p2 player2 (some p2)

-- A round is a draw with no winner where the moves are equal, and otherwise goes to the player whose
-- move defeats the other's, who is named as its winner.
pub resolve_round-Decides :
    (m1 m2 : Move) (p1 p2 : ℕ)
    → Decides m1 m2 p1 p2 (resolve_round m1 m2 p1 p2).result (resolve_round m1 m2 p1 p2).winner_id
unfolding resolve_round
resolve_round-Decides rock rock p1 p2 = tie refl
resolve_round-Decides rock paper p1 p2 = second refl
resolve_round-Decides rock scissors p1 p2 = first refl
resolve_round-Decides paper rock p1 p2 = first refl
resolve_round-Decides paper paper p1 p2 = tie refl
resolve_round-Decides paper scissors p1 p2 = second refl
resolve_round-Decides scissors rock p1 p2 = second refl
resolve_round-Decides scissors paper p1 p2 = first refl
resolve_round-Decides scissors scissors p1 p2 = tie refl

-- Every move defeats exactly one other, and none both ways.
pub beats_cycle : (m : Move) → (beats (beats (beats m)) ≡ m) × (beats m ≢ m) × (beats (beats m) ≢ m)
beats_cycle m = ground arith

-- While neither side has two wins the match goes on, so the count of five never decides.
pub resolve_match_open :
    (w1 w2 p1 p2 : ℕ)
    → w1 < 2
    → w2 < 2
    → ((resolve_match w1 w2 p1 p2).is_complete ≡ false)
      × ((resolve_match w1 w2 p1 p2).winner_id ≡ none)
unfolding resolve_match
resolve_match_open w1 w2 p1 p2 h k = ground arith
