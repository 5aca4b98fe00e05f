-- ===== src/Game/Gateway/Moves.antt =====
-- What handleMove of game.gateway.ts announces.
use swafri_backend.Common.{
  ℕ, ◌+◌, ◌≡◌, refl, ap, ◌∙◌, ◌≢◌, ◌⊎◌, inl, inr, true, Option, none, some, String, List, [], ◌∷◌,
  ◌++◌, ◌==◌, if◌then◌else◌, is_some, length, get_last?, get_last?-append, lookup, ok, arith,
  Option-cases,
}
use swafri_backend.Game.Engine.{Move, is_valid_move}
use swafri_backend.Game.Room.{
  in_progress, completed, Round, GameRoom, Players, Turn, GameService, id1, id2, settle, submit,
  submit_move, get_room, set_move, resolve_round, played_round,
}
use swafri_backend.Game.Room.Validity.{IsValid, Played}
use swafri_backend.Game.Room.Acceptance.{mover_of}
use swafri_backend.Game.Room.Bookkeeping.{commit}
use swafri_backend.Game.Room.Submission.{IsBetween}
use swafri_backend.Game.Gateway.{
  Action, emit, client, others_in, move_received, opponent_moved, round_resolved, announce,
  report_move, handle_move,
}

-- The number of the last round.
Played-last :
    (i j n : ℕ) (rs : List Round) (r : Round)
    → Played i j n rs
    → get_last? rs ≡ some r
    → r.round_number + 1 ≡ n + length rs
Played-last i j n [] r p e = absurd (ground arith)
Played-last i j n (q ∷ []) r p e = ground arith
Played-last i j n (q ∷ x ∷ rs) r (a, b, p) e = omega (arith, Played-last i j (n + 1) (x ∷ rs) r p e)

-- With one move on the table a submission changes nothing but the player objects.
settle-waiting :
    (p : Players) (room : GameRoom) (now : ℕ)
    → ((p room.player1).move ≡ none) ⊎ ((p room.player2).move ≡ none)
    → settle p room now ≡ record { room = room; players = p; effects = [] }
unfolding settle
settle-waiting p room now h = ground arith

submit-waiting :
    (players : Players) (room : GameRoom) (user_id : ℕ) (raw : String) (now : ℕ) (m : Move)
    → IsBetween players room
    → (id1 players room ≡ user_id) ⊎ (id2 players room ≡ user_id)
    → is_valid_move raw ≡ some m
    → submit players room user_id raw now
      ≡ ok (record {
        room = room;
        players = set_move players (mover_of players room user_id) (some m);
        effects = [];
      })
unfolding submit
submit-waiting players room user_id raw now m b seat e =
    ground
      (arith, settle-waiting (set_move players (mover_of players room user_id) (some m)) room now)

handle_move-submit :
    (s : GameService) (room_id user_id : ℕ) (raw : String) (now : ℕ) (room : GameRoom) (t : Turn)
    → lookup room_id s.rooms ≡ some room
    → submit s.players room user_id raw now ≡ ok t
    → handle_move s room_id user_id raw now ≡ (commit s room_id t, report_move room_id t.room)
unfolding handle_move submit_move get_room
handle_move-submit s room_id user_id raw now room t found h = ground arith

-- What a first move of a round is answered with: in the first round the acknowledgement and the hint
-- to the opponent, in a later one the announcement of the last round.
abbrev pub first_report : ℕ → GameRoom → Option Round → List Action
first_report room_id room none =
    emit client (move_received room_id room.current_round)
    ∷ emit (others_in room_id) (opponent_moved room_id)
    ∷ []
first_report room_id room (some last) = announce room_id room (some last)

report_move-first :
    (players : Players) (room_id : ℕ) (room : GameRoom)
    → IsValid players room
    → room.status ≡ in_progress
    → report_move room_id room ≡ first_report room_id room (get_last? room.rounds)
unfolding report_move round_resolved
report_move-first players room_id room v e = elim (Option-cases (get_last? room.rounds)) [
  | inl a ↦ rw a (ground arith)
  | inr (last, a) ↦
      ground
        (arith, Played-last (id1 players room) (id2 players room) 1 room.rounds last v.played a)
]

-- In a valid room between two rounds, the first submission of a round is acknowledged to the player
-- and hinted to the opponent only if no round was played before. In every later round the gateway
-- announces the result of the last round, and the number of the running round, once more instead.
pub handle_move-first :
    (s : GameService) (room_id user_id : ℕ) (raw : String) (now : ℕ) (room : GameRoom)
    → lookup room_id s.rooms ≡ some room
    → IsValid s.players room
    → IsBetween s.players room
    → (id1 s.players room ≡ user_id) ⊎ (id2 s.players room ≡ user_id)
    → is_some (is_valid_move raw) ≡ true
    → (handle_move s room_id user_id raw now).1 ≡ first_report room_id room (get_last? room.rounds)
handle_move-first s room_id user_id raw now room found v b seat named =
    elim (Option-cases (is_valid_move raw)) [
      | inl a ↦ absurd (ground arith)
      | inr (m, a) ↦
          rw
            (handle_move-submit s room_id user_id raw now room _ found
              (submit-waiting s.players room user_id raw now m b seat a))
            (report_move-first s.players room_id room v b.playing)
    ]

-- The object of the player who is not moving.
abbrev pub other_of : Players → GameRoom → ℕ → ℕ
other_of players room user_id = if id1 players room == user_id then room.player2 else room.player1

-- The round on which the last move of a round is awaited.
pub record IsAwaited (players : Players) (room : GameRoom) (user_id : ℕ) : Type 0 where
  pub playing : room.status ≡ in_progress
  pub seated : (id1 players room ≡ user_id) ⊎ (id2 players room ≡ user_id)
  pub two_objects : room.player1 ≢ room.player2
  pub unmoved : (players (mover_of players room user_id)).move ≡ none
  pub laid : is_some (players (other_of players room user_id)).move ≡ true

settle-both :
    (p : Players) (room : GameRoom) (now : ℕ)
    → is_some (p room.player1).move ≡ true
    → is_some (p room.player2).move ≡ true
    → (m1 : Move) × (m2 : Move) × (settle p room now ≡ resolve_round p room m1 m2 now)
unfolding settle
settle-both p room now h k = elim (Option-cases (p room.player1).move) [
  | inl a ↦ absurd (ground arith)
  | inr (m1, a) ↦ elim (Option-cases (p room.player2).move) [
    | inl b ↦ absurd (ground arith)
    | inr (m2, b) ↦ (m1, m2, rw (a, b, settle))
  ]
]

submit-last :
    (players : Players) (room : GameRoom) (user_id : ℕ) (raw : String) (now : ℕ) (m : Move)
    → IsAwaited players room user_id
    → is_valid_move raw ≡ some m
    → (m1 : Move) × (m2 : Move) × (submit players room user_id raw now
        ≡ ok (
            resolve_round
              (set_move players (mover_of players room user_id) (some m))
              room
              m1
              m2
              now))
unfolding submit
submit-last players room user_id raw now m w e =
    let moved = set_move players (mover_of players room user_id) (some m) in
    let (m1, m2, p) =
      settle-both moved room now (ground (arith, w.laid)) (ground (arith, w.laid)) in
    (m1, m2, ground arith)

resolve_round-rounds :
    (p : Players) (room : GameRoom) (m1 m2 : Move) (now : ℕ)
    → ((resolve_round p room m1 m2 now).room.rounds
        ≡ room.rounds ++ played_round p room m1 m2 now ∷ [])
      × (((resolve_round p room m1 m2 now).room.current_round ≡ room.current_round + 1)
          ⊎ ((resolve_round p room m1 m2 now).room.status ≡ completed))
unfolding resolve_round
resolve_round-rounds p room m1 m2 now = ground arith

report_move-resolved :
    (room_id : ℕ) (room : GameRoom) (last : Round)
    → get_last? room.rounds ≡ some last
    → (room.current_round ≡ last.round_number + 1) ⊎ (room.status ≡ completed)
    → report_move room_id room ≡ announce room_id room (some last)
unfolding report_move round_resolved
report_move-resolved room_id room last e h = ground arith

-- The last move of a round pushes one round with the number of the running round, and the gateway
-- announces that round, with the counters of the room it leaves.
pub handle_move-last :
    (s : GameService) (room_id user_id : ℕ) (raw : String) (now : ℕ) (room : GameRoom)
    → lookup room_id s.rooms ≡ some room
    → IsAwaited s.players room user_id
    → is_some (is_valid_move raw) ≡ true
    → (t : Turn) × (last : Round) × (handle_move s room_id user_id raw now
        ≡ (commit s room_id t, announce room_id t.room (some last)))
      × (t.room.rounds ≡ room.rounds ++ last ∷ [])
      × (last.round_number ≡ room.current_round)
handle_move-last s room_id user_id raw now room found w named =
    elim (Option-cases (is_valid_move raw)) [
      | inl a ↦ absurd (ground arith)
      | inr (m, a) ↦
          let moved = set_move s.players (mover_of s.players room user_id) (some m) in
          let (m1, m2, e) = submit-last s.players room user_id raw now m w a in
          let t = resolve_round moved room m1 m2 now in
          let last = played_round moved room m1 m2 now in
          let (rounds, moved_on) = resolve_round-rounds moved room m1 m2 now in
          let newest = ap get_last? rounds ∙ get_last?-append room.rounds last in
          (
            t,
            last,
            handle_move-submit s room_id user_id raw now room t found e
                ∙ ap (λ r. (commit s room_id t, r))
                    (report_move-resolved room_id t.room last newest moved_on),
            rounds,
            refl,
          )
    ]
