-- ===== src/Game/Room/Acceptance.antt =====
-- A submission that is taken keeps its room valid (game.service.ts, submitMove).
use swafri_backend.Common.{
  ℕ, ◌+◌, ◌≡◌, ◌∙◌, ◌⊎◌, inl, inr, none, some, String, ◌==◌, if◌then◌else◌, length, ok, arith,
  Option-cases,
}
use swafri_backend.Game.Engine.{Move, is_valid_move}
use swafri_backend.Game.Room.{
  in_progress, GameRoom, Players, Turn, id1, id2, set_move, settle, submit,
}
use swafri_backend.Game.Room.Validity.{
  IsValid, IsValid-same_users, set_move-user_id, set_move-IsValid,
}
use swafri_backend.Game.Room.Rounds.{resolve_round-IsValid, resolve_round-user_id}

-- The phase, for a room that is in progress.
stands-open :
    {players : Players} {room : GameRoom}
    → room.status ≡ in_progress
    → IsValid players room
    → room.current_round ≡ length room.rounds + 1
stands-open e v = ground arith

settle-IsValid :
    (players : Players) (room : GameRoom) (now : ℕ)
    → room.status ≡ in_progress
    → IsValid players room
    → IsValid players (settle players room now).room
unfolding settle
settle-IsValid players room now e v = elim (Option-cases (players room.player1).move) [
  | inl a ↦ rw (a, settle) v
  | inr (m1, a) ↦ elim (Option-cases (players room.player2).move) [
    | inl b ↦ rw (a, b, settle) v
    | inr (m2, b) ↦
        rw (a, b, settle) (resolve_round-IsValid players room m1 m2 now e (stands-open e v) v)
  ]
]

pub settle-user_id :
    (players : Players) (room : GameRoom) (now q : ℕ)
    → ((settle players room now).players q).user_id ≡ (players q).user_id
unfolding settle
settle-user_id players room now q = elim (Option-cases (players room.player1).move) [
  | inl a ↦ rw (a, settle)
  | inr (m1, a) ↦ elim (Option-cases (players room.player2).move) [
    | inl b ↦ rw (a, b, settle)
    | inr (m2, b) ↦ rw (a, b, settle) (resolve_round-user_id players room m1 m2 now q)
  ]
]

-- The object that a submission writes to: the first player's, where both have the identifier.
abbrev pub mover_of : Players → GameRoom → ℕ → ℕ
mover_of players room user_id = if id1 players room == user_id then room.player1 else room.player2

-- What a submission that is not refused has checked, and what it does.
pub record Accepted (players : Players) (room : GameRoom) (user_id : ℕ) (raw : String) (now : ℕ)
    (t : Turn) : Type 0 where
  pub move : Move
  pub named : is_valid_move raw ≡ some move
  pub playing : room.status ≡ in_progress
  pub seated : (id1 players room ≡ user_id) ⊎ (id2 players room ≡ user_id)
  pub unmoved : (players (mover_of players room user_id)).move ≡ none
  pub done : t ≡ settle (set_move players (mover_of players room user_id) (some move)) room now

pub submit-Accepted :
    (players : Players) (room : GameRoom) (user_id : ℕ) (raw : String) (now : ℕ) (t : Turn)
    → submit players room user_id raw now ≡ ok t
    → Accepted players room user_id raw now t
unfolding submit
submit-Accepted players room user_id raw now t h = elim (Option-cases (is_valid_move raw)) [
  | inl a ↦ absurd (ground arith)
  | inr (m, a) ↦ record {
    move = m;
    named = a;
    playing = ground arith;
    seated = ground arith;
    unmoved = ground arith;
    done = ground arith;
  }
]

pub submit-IsValid :
    (players : Players) (room : GameRoom) (user_id : ℕ) (raw : String) (now : ℕ) (t : Turn)
    → submit players room user_id raw now ≡ ok t
    → IsValid players room
    → IsValid t.players t.room
submit-IsValid players room user_id raw now t h v =
    let a = submit-Accepted players room user_id raw now t h in
    let moved = set_move players (mover_of players room user_id) (some a.move) in
    let same = settle-user_id moved room now in
    rw (a.done) (
      IsValid-same_users moved (settle moved room now).players (settle moved room now).room (same _)
        (same _)
        (settle-IsValid moved room now a.playing (set_move-IsValid players _ (some a.move) room v)))

pub submit-user_id :
    (players : Players) (room : GameRoom) (user_id : ℕ) (raw : String) (now : ℕ) (t : Turn)
    → submit players room user_id raw now ≡ ok t
    → (q : ℕ) → (t.players q).user_id ≡ (players q).user_id
submit-user_id players room user_id raw now t h q =
    let a = submit-Accepted players room user_id raw now t h in
    let moved = set_move players (mover_of players room user_id) (some a.move) in
    rw a.done (
      settle-user_id moved room now q
      ∙ set_move-user_id players (mover_of players room user_id) (some a.move) q)
