-- ===== src/Squad/Hill/Stale.antt =====
-- The room that follows a decided match of a squad (squad.gateway.ts, handleMatchEnd and
-- startSquadMatch): its players are objects that have played before.
use swafri_backend.Common.{
  ℕ, ◌≡◌, ◌≢◌, All, Option-cases, ◌⊎◌, inl, inr, true, false, Option, some, String, List, [], ◌∷◌,
  is_some, arith, Bool-cases, ok, err, bad_request,
}
use swafri_backend.Game.Engine.{Move, is_valid_move}
use swafri_backend.Game.Room.{Players, GameRoom, Turn, completed, submit, new_room}
use swafri_backend.Game.Room.Submission.{submit-stale, stale_player}
use swafri_backend.Squad.Hill.{SquadGameState, is_draw, is_winner, handle_match_end}
use swafri_backend.Squad.Hill.Rotation.{next_line, handle_match_end_lem}
use swafri_backend.Game.Room.Replay.{Replays, submit-Replays}

next_first :
    (players : Players) (queue : List ℕ) (c d : ℕ) (winner : Option ℕ) (first : ℕ) (rest : List ℕ)
    → is_draw winner ≡ false
    → first ∷ rest ≡ next_line players queue c d winner
    → (first ≡ c) ⊎ (first ≡ d)
next_first players queue c d winner first rest decided e =
    elim (Bool-cases (is_winner winner (players c).user_id)) [
      | inl kept ↦ inl (ground arith)
      | inr lost ↦ inr (ground arith)
    ]

-- The queue's users are other than two given ones.
abbrev pub IsApart : Players → List ℕ → (c d : ℕ) → Type 0
IsApart players queue c d =
    All
      (λ q.
        ((players q).user_id ≢ (players c).user_id) × ((players q).user_id ≢ (players d).user_id))
      queue

next_apart :
    (players : Players) (queue : List ℕ) (c d : ℕ) (winner : Option ℕ) (first second : ℕ)
    (rest : List ℕ)
    → is_draw winner ≡ false
    → first ∷ second ∷ rest ≡ next_line players queue c d winner
    → (players c).user_id ≢ (players d).user_id
    → IsApart players queue c d
    → (players second).user_id ≢ (players first).user_id
next_apart players [] c d winner first second rest decided e two apart =
    elim (Bool-cases (is_winner winner (players c).user_id)) [
      | inl kept ↦ ground arith
      | inr lost ↦ ground arith
    ]
next_apart players (q ∷ queue) c d winner first second rest decided e two (apart, others) =
    elim (Bool-cases (is_winner winner (players c).user_id)) [
      | inl kept ↦ ground arith
      | inr lost ↦ ground arith
    ]

stale_move :
    (players : Players) (r c d : ℕ)
    → (r ≡ c) ⊎ (r ≡ d)
    → is_some (players c).move ≡ true
    → is_some (players d).move ≡ true
    → (old : Move) × ((players r).move ≡ some old)
stale_move players r c d which first second = elim (Option-cases (players r).move) [
  | inl a ↦ absurd (ground arith)
  | inr (m, a) ↦ (m, a)
]

-- After a decided match of a squad, where all users in the game are different, the next match is
-- started with a champion whose object still has a move of the match before. In the room just created
-- for it, every valid move of the champion is refused as already submitted. A valid move of the
-- challenger is refused too where that object also has a move; else it is taken, and resolves the first
-- round with the champion's old move in place of a new one, after which the match is in progress and
-- the champion has no move.
pub handle_match_end-stale :
    (players : Players) (room : GameRoom) (user_id : ℕ) (raw : String) (now : ℕ) (t : Turn)
    → submit players room user_id raw now ≡ ok t
    → t.room.status ≡ completed
    → (s : SquadGameState) (winner : Option ℕ) → s.champion ≡ some room.player1
    → s.challenger ≡ some room.player2
    → is_draw winner ≡ false
    → (t.players room.player1).user_id ≢ (t.players room.player2).user_id
    → IsApart t.players s.queue room.player1 room.player2
    → (room_id match_id then_now : ℕ) (raw' : String) → is_some (is_valid_move raw') ≡ true
    → (c : ℕ) × (d : ℕ) × (old : Move) × ((handle_match_end t.players s winner).1 ≡ (c, d) ∷ [])
      × ((t.players c).move ≡ some old)
      × (submit t.players
            (new_room t.players room_id match_id c d then_now)
            (t.players c).user_id
            raw'
            then_now
          ≡ err (bad_request "Move already submitted"))
      × Replays t.players
          (new_room t.players room_id match_id c d then_now)
          old
          (t.players d).move
          (submit t.players
            (new_room t.players room_id match_id c d then_now)
            (t.players d).user_id
            raw'
            then_now)
handle_match_end-stale players room user_id raw now t h done s winner champion challenger decided
      two apart room_id match_id then_now raw' valid =
    let r = handle_match_end_lem t.players s room.player1 room.player2 winner champion challenger in
    let rest = (handle_match_end t.players s winner).0.queue in
    let kept : (r.first ≡ room.player1) ⊎ (r.first ≡ room.player2) =
      next_first t.players s.queue room.player1 room.player2 winner r.first (r.second ∷ rest)
        decided r.order in
    let left = submit-stale players room user_id raw now t h done in
    let (old, stale) =
      stale_move t.players r.first room.player1 room.player2 kept (left.0) (left.1) in
    (
      r.first,
      r.second,
      old,
      r.started,
      stale,
      stale_player players room user_id raw now t h done r.first r.second room_id match_id then_now
          kept raw' valid,
      submit-Replays t.players r.first r.second room_id match_id then_now old raw' stale
          (next_apart t.players s.queue room.player1 room.player2 winner r.first r.second rest
            decided r.order two apart)
          valid,
    )
