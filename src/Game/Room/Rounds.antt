-- ===== src/Game/Room/Rounds.antt =====
-- A round that is resolved keeps its room valid (game.service.ts, resolveRound).
use swafri_backend.Common.{
  ℕ, ◌+◌, ◌<◌, ◌≡◌, refl, ◌≢◌, none, List, [], ◌∷◌, ◌++◌, if◌then◌else◌, length, length-append,
  arith, is_value,
}
use swafri_backend.Game.Engine.{Move, RoundResult, resolve_match, is_valid_move}
use swafri_backend.Game.Engine
use swafri_backend.Game.Room.{
  in_progress, completed, GameRoom, Players, id1, id2, outcome_of, played_round, tallied, decision,
  add_win, resolve_round,
}
use swafri_backend.Game.Room.Validity.{
  wins_in, wins_in-append, Played, Played-append, Stands, IsValid,
}

length-snoc {ℓ} : {A : Type ℓ} (xs : List A) (x : A) → length (xs ++ x ∷ []) ≡ length xs + 1
length-snoc xs x = omega (arith, length-append xs (x ∷ []))

-- One more round over the counters alone.
Stands-next :
    (r : RoundResult) (i j w1 w2 played : ℕ)
    → w1 < 2
    → w2 < 2
    → let a = add_win Engine.player1 r w1 in
      let b = add_win Engine.player2 r w2 in
      let d = resolve_match a b i j in
      Stands
        (if d.is_complete then completed else in_progress)
        i
        j
        a
        b
        (if d.is_complete then d.winner_id else none)
        (if d.is_complete then played + 1 else played + 1 + 1)
        (played + 1)
unfolding resolve_match
Stands-next Engine.player1 i j w1 w2 played h k = ground arith
Stands-next Engine.player2 i j w1 w2 played h k = ground arith
Stands-next Engine.draw i j w1 w2 played h k = ground arith

tally1-next :
    (m1 m2 : Move) (i j w n : ℕ)
    → i ≢ j
    → w ≡ n
    → add_win Engine.player1 (Engine.resolve_round m1 m2 i j).result w
      ≡ (if is_value (Engine.resolve_round m1 m2 i j).winner_id i then n + 1 else n)
unfolding Engine.resolve_round
tally1-next m1 m2 i j w n h e = ground arith

tally2-next :
    (m1 m2 : Move) (i j w n : ℕ)
    → i ≢ j
    → w ≡ n
    → add_win Engine.player2 (Engine.resolve_round m1 m2 i j).result w
      ≡ (if is_value (Engine.resolve_round m1 m2 i j).winner_id j then n + 1 else n)
unfolding Engine.resolve_round
tally2-next m1 m2 i j w n h e = ground arith

module _ (players : Players) (room : GameRoom) (m1 m2 : Move) (now : ℕ) where
  pub resolve_round-user_id :
      (q : ℕ) → ((resolve_round players room m1 m2 now).players q).user_id ≡ (players q).user_id
  unfolding resolve_round
  resolve_round-user_id q = ground arith

  tallied-Played :
      IsValid players room
      → room.current_round ≡ length room.rounds + 1
      → Played (id1 players room) (id2 players room) 1 (tallied players room m1 m2 now).rounds
  tallied-Played v e =
      Played-append (id1 players room) (id2 players room) 1 room.rounds
        (played_round players room m1 m2 now) v.played (omega arith) refl

  resolve_round-Stands :
      room.status ≡ in_progress
      → IsValid players room
      → let t = (resolve_round players room m1 m2 now).room in
        Stands t.status
          (id1 players room)
          (id2 players room)
          t.player1_wins
          t.player2_wins
          t.winner_id
          t.current_round
          (length t.rounds)
  unfolding resolve_round decision
  resolve_round-Stands e v = ground (
    arith,
    Stands-next (outcome_of players room m1 m2).result (id1 players room) (id2 players room)
        room.player1_wins room.player2_wins (length room.rounds),
    length-snoc room.rounds (played_round players room m1 m2 now),
  )

  resolve_round-players :
      ((resolve_round players room m1 m2 now).room.player1 ≡ room.player1)
      × ((resolve_round players room m1 m2 now).room.player2 ≡ room.player2)
  unfolding resolve_round
  resolve_round-players = ground arith

  resolve_round-rounds :
      (resolve_round players room m1 m2 now).room.rounds ≡ (tallied players room m1 m2 now).rounds
  unfolding resolve_round
  resolve_round-rounds = ground arith

  resolve_round-tally1 :
      IsValid players room
      → (resolve_round players room m1 m2 now).room.player1_wins
        ≡ wins_in (id1 players room) (tallied players room m1 m2 now).rounds
  unfolding resolve_round
  resolve_round-tally1 v = ground (
    arith,
    tally1-next m1 m2 (id1 players room) (id2 players room) room.player1_wins
        (wins_in (id1 players room) room.rounds) v.distinct v.tally1,
    wins_in-append (id1 players room) room.rounds (played_round players room m1 m2 now),
  )

  resolve_round-tally2 :
      IsValid players room
      → (resolve_round players room m1 m2 now).room.player2_wins
        ≡ wins_in (id2 players room) (tallied players room m1 m2 now).rounds
  unfolding resolve_round
  resolve_round-tally2 v = ground (
    arith,
    tally2-next m1 m2 (id1 players room) (id2 players room) room.player2_wins
        (wins_in (id2 players room) room.rounds) v.distinct v.tally2,
    wins_in-append (id2 players room) room.rounds (played_round players room m1 m2 now),
  )

  -- A round that is resolved keeps the room valid: the counters, the numbering and the outcome.
  pub resolve_round-IsValid :
      room.status ≡ in_progress
      → room.current_round ≡ length room.rounds + 1
      → IsValid players room
      → IsValid players (resolve_round players room m1 m2 now).room
  resolve_round-IsValid e n v =
      let (p, q) = resolve_round-players in
      record {
        distinct = rw (p, q) v.distinct;
        played = rw (p, q, resolve_round-rounds) (tallied-Played v n);
        tally1 = rw (p, resolve_round-rounds) (resolve_round-tally1 v);
        tally2 = rw (q, resolve_round-rounds) (resolve_round-tally2 v);
        stands = rw (p, q) (resolve_round-Stands e v);
      }
