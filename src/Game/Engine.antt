-- ===== src/Game/Engine.antt =====
-- src/modules/game/engine/rps.engine.ts. Identifiers are numbers; 0 stands for the empty string,
-- which is the one identifier that JavaScript takes for false.
pub mod Laws
use text.Mathlib.Text.{◌==◌ as str_eq}
use swafri_backend.Common.{
  ℕ, ◌+◌, Bool, true, false, Option, none, some, String, ltb, leb, if◌then◌else◌,
}

pub data Move : Type 0 where
  rock paper scissors : Move

pub data RoundResult : Type 0 where
  player1 player2 draw : RoundResult

pub record RoundOutcome : Type 0 where
  pub result : RoundResult
  pub winner_id : Option ℕ
  pub move1 : Move
  pub move2 : Move

pub record MatchOutcome : Type 0 where
  pub winner_id : Option ℕ
  pub is_complete : Bool

-- `move1 === move2`.
abbrev pub same_move : Move → Move → Bool
same_move rock rock = true
same_move paper paper = true
same_move scissors scissors = true
same_move _ _ = false

-- The table `BEATS`: what each move defeats.
abbrev pub beats : Move → Move
beats rock = scissors
beats paper = rock
beats scissors = paper

unfoldable pub resolve_round : Move → Move → ℕ → ℕ → RoundOutcome
resolve_round m1 m2 p1 p2 =
    if same_move m1 m2
    then record { result = draw; winner_id = none; move1 = m1; move2 = m2 }
    else if same_move (beats m1) m2
    then record { result = player1; winner_id = some p1; move1 = m1; move2 = m2 }
    else record { result = player2; winner_id = some p2; move1 = m1; move2 = m2 }

unfoldable pub resolve_match : ℕ → ℕ → ℕ → ℕ → MatchOutcome
resolve_match w1 w2 p1 p2 =
    if leb 2 w1
    then record { winner_id = some p1; is_complete = true }
    else if leb 2 w2
    then record { winner_id = some p2; is_complete = true }
    else if leb 5 (w1 + w2)
    then record {
      winner_id = if ltb w2 w1 then some p1 else if ltb w1 w2 then some p2 else none;
      is_complete = true;
    }
    else record { winner_id = none; is_complete = false }

-- The type guard `isValidMove`: the text that passes, narrowed to a move.
unfoldable pub is_valid_move : String → Option Move
is_valid_move s =
    if str_eq s "rock"
    then some rock
    else if str_eq s "paper"
    then some paper
    else if str_eq s "scissors"
    then some scissors
    else none
