-- ===== src/Game/Room/Replay.antt =====
-- A room whose first player's object still has a move from an earlier room (game.service.ts, submitMove).
use swafri_backend.Common.{
  ℕ, ◌≡◌, ◌≢◌, inl, inr, true, Option, none, some, String, [], ◌∷◌, map, is_some, Result, ok, err,
  bad_request, arith, Option-cases,
}
use swafri_backend.Game.Engine.{Move, is_valid_move, resolve_match}
use swafri_backend.Game.Engine
use swafri_backend.Game.Room.{
  in_progress, GameRoom, Round, Players, Turn, settle, submit, set_move, new_room, resolve_round,
  decision,
}

abbrev pub first_move_of : Round → Move
first_move_of r = r.player1_move

-- What a submission of the second player leaves in a room whose first player has the move `old`: where
-- the second player's object has a move too it is refused, else it resolves a round between `old` and
-- the new move, after which the first player has no move.
abbrev pub Replays : Players → GameRoom → (old : Move) → Option Move → Result Turn → Type 0
Replays players room old (some m) r = r ≡ err (bad_request "Move already submitted")
Replays players room old none r =
    (u : Turn) × (r ≡ ok u)
    × (map first_move_of u.room.rounds ≡ old ∷ [])
    × ((u.players room.player1).move ≡ none)
    × (u.room.status ≡ in_progress)

module _ (players : Players) (c d room_id match_id now : ℕ) (old : Move) where
  abbrev replay_room : GameRoom
  replay_room = new_room players room_id match_id c d now

  resolve_round-new_room :
      (m : Move)
      → let u = resolve_round (set_move players d (some m)) replay_room old m now in
        (map first_move_of u.room.rounds ≡ old ∷ [])
        × ((u.players c).move ≡ none)
        × (u.room.status ≡ in_progress)
  unfolding resolve_round decision resolve_match Engine.resolve_round
  resolve_round-new_room m = ground arith

  settle-new_room :
      (m : Move)
      → (players c).move ≡ some old
      → (players d).user_id ≢ (players c).user_id
      → settle (set_move players d (some m)) replay_room now
        ≡ resolve_round (set_move players d (some m)) replay_room old m now
  unfolding settle
  settle-new_room m stale apart = ground arith

  pub submit-Replays :
      (raw : String)
      → (players c).move ≡ some old
      → (players d).user_id ≢ (players c).user_id
      → is_some (is_valid_move raw) ≡ true
      → Replays players replay_room old
          (players d).move
          (submit players replay_room (players d).user_id raw now)
  unfolding submit
  submit-Replays raw stale apart valid = elim (Option-cases (is_valid_move raw)) [
    | inl a ↦ absurd (ground arith)
    | inr (m, a) ↦ elim (Option-cases (players d).move) [
      | inr (m2, b) ↦ rw (b, Replays) (ground arith)
      | inl b ↦
          let (x, y, z) = resolve_round-new_room m in
          let same = settle-new_room m stale apart in
          rw (b, Replays)
            (
              resolve_round (set_move players d (some m)) replay_room old m now,
              ground (arith, same),
              x,
              y,
              z,
            )
    ]
  ]
