-- ===== src/Game/Room/Submission.antt =====
-- What a submission does, branch by branch (game.service.ts, submitMove).
use swafri_backend.Common.{
  ℕ, zero, suc, ◌+◌, ◌<◌, ◌≡◌, refl, sym, ap, ◌∙◌, ◌≢◌, ◌⊎◌, ◌↔◌, inl, inr, true, none, some,
  String, [], is_some, Result, ok, err, ◌>>=◌, bad_request, arith, Option-cases,
}
use swafri_backend.Game.Engine.{Move, is_valid_move, resolve_match}
use swafri_backend.Game.Engine
use swafri_backend.Game.Room.{
  in_progress, completed, GameRoom, Players, Turn, id1, id2, settle, submit, set_move, new_room,
  resolve_round, decision,
}
use swafri_backend.Game.Room.Acceptance.{submit-Accepted, mover_of}

-- When a submission is taken: the match is running, the text names a move, the user is one of the
-- two players, and has no move on the table.
pub record MayMove (players : Players) (room : GameRoom) (user_id : ℕ) (raw : String) : Type 0 where
  pub playing : room.status ≡ in_progress
  pub named : is_some (is_valid_move raw) ≡ true
  pub seated : (id1 players room ≡ user_id) ⊎ (id2 players room ≡ user_id)
  pub unmoved : (players (mover_of players room user_id)).move ≡ none

-- The conditions other than the last.
record MayMoveButFor (players : Players) (room : GameRoom) (user_id : ℕ) (raw : String)
    : Type 0 where
  playing : room.status ≡ in_progress
  named : is_some (is_valid_move raw) ≡ true
  seated : (id1 players room ≡ user_id) ⊎ (id2 players room ≡ user_id)

submit_complete :
    (players : Players) (room : GameRoom) (user_id : ℕ) (raw : String) (now : ℕ)
    → MayMove players room user_id raw
    → (t : Turn) × (submit players room user_id raw now ≡ ok t)
unfolding submit
submit_complete players room user_id raw now m = elim (Option-cases (is_valid_move raw)) [
  | inl a ↦ absurd (ground arith)
  | inr (mv, a) ↦
      (settle (set_move players (mover_of players room user_id) (some mv)) room now, ground arith)
]

-- A submission succeeds exactly when the match is in progress, the text is one of the three moves,
-- the user is one of the two players, and that player has no move on the table.
pub submit-ok_iff :
    (players : Players) (room : GameRoom) (user_id : ℕ) (raw : String) (now : ℕ)
    → ((t : Turn) × (submit players room user_id raw now ≡ ok t)) ↔ MayMove players room user_id raw
submit-ok_iff players room user_id raw now = (to, submit_complete players room user_id raw now)
  where
    to :
        ((t : Turn) × (submit players room user_id raw now ≡ ok t))
        → MayMove players room user_id raw
    to (t, h) =
        let a = submit-Accepted players room user_id raw now t h in
        record { playing = a.playing; named = rw a.named; seated = a.seated; unmoved = a.unmoved }

resolve_round-stale :
    (players : Players) (room : GameRoom) (m1 m2 : Move) (now : ℕ)
    → (resolve_round players room m1 m2 now).room.status ≡ completed
    → room.status ≡ in_progress
    → (resolve_round players room m1 m2 now).players ≡ players
unfolding resolve_round
resolve_round-stale players room m1 m2 now h k = ground arith

-- A match that a submission completes leaves a move on both player objects.
pub settle-stale :
    (players : Players) (room : GameRoom) (now : ℕ)
    → room.status ≡ in_progress
    → (settle players room now).room.status ≡ completed
    → (is_some ((settle players room now).players room.player1).move ≡ true)
      × (is_some ((settle players room now).players room.player2).move ≡ true)
unfolding settle
settle-stale players room now e h = elim (Option-cases (players room.player1).move) [
  | inl a ↦ absurd (ground arith)
  | inr (m1, a) ↦ elim (Option-cases (players room.player2).move) [
    | inl b ↦ absurd (ground arith)
    | inr (m2, b) ↦
        let s = resolve_round-stale players room m1 m2 now (rw (a, b, settle) at h) e in
        rw (a, b, settle) (rw s (rw (a, b) (refl, refl)))
  ]
]

pub submit-stale :
    (players : Players) (room : GameRoom) (user_id : ℕ) (raw : String) (now : ℕ) (t : Turn)
    → submit players room user_id raw now ≡ ok t
    → t.room.status ≡ completed
    → (is_some (t.players room.player1).move ≡ true)
      × (is_some (t.players room.player2).move ≡ true)
submit-stale players room user_id raw now t h c =
    let a = submit-Accepted players room user_id raw now t h in
    let moved = set_move players (mover_of players room user_id) (some a.move) in
    let e = a.done in
    rw e (settle-stale moved room now a.playing (ap (λ (u : Turn). u.room.status) (sym e) ∙ c))

-- A submission by a player whose object still has a move is refused.
blocked :
    (players : Players) (room : GameRoom) (user_id : ℕ) (raw : String) (now : ℕ)
    → MayMoveButFor players room user_id raw
    → is_some (players (mover_of players room user_id)).move ≡ true
    → submit players room user_id raw now ≡ err (bad_request "Move already submitted")
unfolding submit
blocked players room user_id raw now m h = elim (Option-cases (is_valid_move raw)) [
  | inl a ↦ absurd (ground arith)
  | inr (mv, a) ↦ ground arith
]

-- A match that a submission completes leaves the last moves on its two player objects: in a room just
-- created with the winner's or the loser's object as its first player, every valid move of
-- that player is refused as already submitted.
pub stale_player :
    (players : Players) (room : GameRoom) (user_id : ℕ) (raw : String) (now : ℕ) (t : Turn)
    → submit players room user_id raw now ≡ ok t
    → t.room.status ≡ completed
    → (r other room_id match_id then_now : ℕ) → ((r ≡ room.player1) ⊎ (r ≡ room.player2))
    → (raw' : String) → is_some (is_valid_move raw') ≡ true
    → submit t.players
        (new_room t.players room_id match_id r other then_now)
        (t.players r).user_id
        raw'
        then_now
      ≡ err (bad_request "Move already submitted")
stale_player players room user_id raw now t h c r other room_id match_id then_now which raw' valid =
    let (a, b) = submit-stale players room user_id raw now t h c in
    let stale : is_some (t.players r).move ≡ true = ground arith in
    blocked t.players (new_room t.players room_id match_id r other then_now) (t.players r).user_id
      raw' then_now (record { playing = refl; named = valid; seated = inl refl }) (ground arith)

-- Both players submit the same text, the first player first.
unfoldable pub tie : Players → GameRoom → String → ℕ → Result Turn
tie players room raw now = do
  t ← submit players room (id1 players room) raw now
  submit t.players t.room (id2 t.players t.room) raw now

-- An open room between two rounds.
pub record IsBetween (players : Players) (room : GameRoom) : Type 0 where
  pub playing : room.status ≡ in_progress
  pub unmoved1 : (players room.player1).move ≡ none
  pub unmoved2 : (players room.player2).move ≡ none
  pub two_objects : room.player1 ≢ room.player2
  pub two_users : id1 players room ≢ id2 players room
  pub wins1 : room.player1_wins < 2
  pub wins2 : room.player2_wins < 2

-- The room and the objects after the round that the tie resolves.
module _ (players : Players) (room : GameRoom) (raw : String) (now : ℕ) (m : Move) where
  abbrev laid1 : Players
  laid1 = set_move players room.player1 (some m)

  abbrev laid2 : Players
  laid2 = set_move laid1 room.player2 (some m)

  submit-first :
      IsBetween players room
      → is_valid_move raw ≡ some m
      → submit players room (id1 players room) raw now
        ≡ ok (record { room = room; players = laid1; effects = [] })
  unfolding submit settle
  submit-first b e = ground arith

  submit-second :
      IsBetween players room
      → is_valid_move raw ≡ some m
      → submit laid1 room (id2 laid1 room) raw now ≡ ok (resolve_round laid2 room m m now)
  unfolding submit settle
  submit-second b e = ground arith

  resolve_round-tie :
      IsBetween players room
      → let t = resolve_round laid2 room m m now in
        IsBetween t.players t.room × (t.room.current_round ≡ room.current_round + 1)
  unfolding resolve_round decision resolve_match Engine.resolve_round
  resolve_round-tie b = ground arith

-- `n` tied rounds in a row.
unfoldable pub ties : ℕ → Players → GameRoom → String → ℕ → Result Turn
ties zero players room raw now = ok (record { room = room; players = players; effects = [] })
ties (suc n) players room raw now = do t ← tie players room raw now; ties n t.players t.room raw now

tie_lem :
    (players : Players) (room : GameRoom) (raw : String) (now : ℕ) (m : Move)
    → IsBetween players room
    → is_valid_move raw ≡ some m
    → tie players room raw now ≡ ok (resolve_round (laid2 players room raw now m) room m m now)
unfolding tie
tie_lem players room raw now m b e =
    rw (submit-first players room raw now m b e, ◌>>=◌) (submit-second players room raw now m b e)

-- There is no last round: from a room between two rounds, any number of rounds in which both players
-- submit the same valid move succeeds, and leaves the match in progress with the round counter moved
-- on by that number.
pub ties_endless :
    (n : ℕ) (players : Players) (room : GameRoom) (raw : String) (now : ℕ)
    → IsBetween players room
    → is_some (is_valid_move raw) ≡ true
    → (t : Turn) × (ties n players room raw now ≡ ok t)
      × (t.room.status ≡ in_progress)
      × (t.room.current_round ≡ room.current_round + n)
unfolding ties
ties_endless zero players room raw now b v = (_, refl, b.playing, omega arith)
ties_endless (suc n) players room raw now b v = elim (Option-cases (is_valid_move raw)) [
  | inl a ↦ absurd (ground arith)
  | inr (m, a) ↦
      let next = resolve_round (laid2 players room raw now m) room m m now in
      let (b', c) = resolve_round-tie players room raw now m b in
      let (t, e, p, q) = ties_endless n next.players next.room raw now b' v in
      (t, rw (tie_lem players room raw now m b a, ◌>>=◌) e, p, omega arith)
]
