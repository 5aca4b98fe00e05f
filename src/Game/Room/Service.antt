-- ===== src/Game/Room/Service.antt =====
-- Histories of calls on the rooms of game.service.ts.
use swafri_backend.Common.{
  ℕ, ◌<◌, ◌≡◌, refl, ◌∙◌, ◌≢◌, inl, inr, Bool, true, false, none, String, [], ◌∷◌, ◌++◌, ◌==◌,
  lookup, insert, lookup-insert, ok, subst, arith, Bool-cases,
}
use swafri_backend.Game.Room.{
  PlayerState, GameRoom, Players, GameService, Effect, create_match, new_player, create_room,
  submit_move, new_room,
}
use swafri_backend.Game.Room.Validity.{IsValid-same_users, new_room-IsValid}
use swafri_backend.Game.Room.Bookkeeping.{
  finalized, finalized-append, IsKept, IsSound, submit_move-IsSound,
}

-- The creation of a room: an identifier that is not in use, and two objects that exist, of two users.
pub record Admissible (s : GameService) (room_id player1 player2 : ℕ) : Type 0 where
  pub fresh : lookup room_id s.rooms ≡ none
  pub player1_exists : player1 < s.next
  pub player2_exists : player2 < s.next
  pub distinct : (s.players player1).user_id ≢ (s.players player2).user_id

pub create_room-IsSound :
    (s : GameService) (room_id match_id player1 player2 now : ℕ) (stored : Bool)
    (r : GameRoom × GameService)
    → create_room s room_id match_id player1 player2 now stored ≡ ok r
    → Admissible s room_id player1 player2
    → IsSound s
    → IsSound r.1
unfolding create_room
create_room-IsSound s room_id match_id player1 player2 now false r h a i = absurd (ground arith)
create_room-IsSound s room_id match_id player1 player2 now true r h a i =
    let e : r ≡ (room, s') = ground arith in rw e sound
  where
    room : GameRoom
    room = new_room s.players room_id match_id player1 player2 now

    row : Effect
    row =
        create_match match_id room_id (s.players player1).user_id (s.players player2).user_id
          room.is_ranked

    s' : GameService
    s' = record s { rooms = insert room_id room s.rooms; effects = s.effects ++ row ∷ [] }

    same_count : (q : ℕ) → finalized q s'.effects ≡ finalized q s.effects
    same_count q = omega (arith, finalized-append q s.effects (row ∷ []))

    sound : IsSound s'
    sound = record {
      kept = λ q o e. elim (Bool-cases (room_id == q)) [
        | inl same ↦
            let p : room_id ≡ q = ground arith in
            let p' : room ≡ o = ground (arith, lookup-insert room_id q room s.rooms) in
            subst (λ z. IsKept s' z o) p
              (subst (IsKept s' room_id) p' (record {
                valid = new_room-IsValid s.players room_id match_id player1 player2 now a.distinct;
                named = refl;
                player1_exists = a.player1_exists;
                player2_exists = a.player2_exists;
                final = same_count room_id ∙ i.unknown room_id a.fresh;
              }))
        | inr other ↦
            let k = i.kept q o (ground (arith, lookup-insert room_id q room s.rooms)) in
            record {
              valid = k.valid;
              named = k.named;
              player1_exists = k.player1_exists;
              player2_exists = k.player2_exists;
              final = same_count q ∙ k.final;
            }
      ];
      unknown =
          λ q e. same_count q ∙ i.unknown q (ground (arith, lookup-insert room_id q room s.rooms));
    }

pub new_player-IsSound : (s : GameService) (p : PlayerState) → IsSound s → IsSound (new_player s p)
unfolding new_player
new_player-IsSound s p i = record {
  kept = λ r o e.
      let k = i.kept r o e in
      record {
        valid =
            IsValid-same_users s.players (new_player s p).players o
              (ground (arith, k.player1_exists)) (ground (arith, k.player2_exists)) k.valid;
        named = k.named;
        player1_exists = omega (arith, k.player1_exists);
        player2_exists = omega (arith, k.player2_exists);
        final = k.final;
      };
  unknown = i.unknown;
}

-- The state of a service that has just started.
unfoldable pub new_service : Players → GameService
new_service players = record { rooms = []; players = players; next = 0; effects = [] }

-- The states that the calls lead to, in any order; a call that throws changes nothing.
pub data Reach : GameService → Type 0 where
  start : (players : Players) → Reach (new_service players)
  add : {s : GameService} (p : PlayerState) → Reach s → Reach (new_player s p)
  create :
      {s s' : GameService} {room : GameRoom} (room_id match_id player1 player2 now : ℕ)
      (stored : Bool)
      → Admissible s room_id player1 player2
      → create_room s room_id match_id player1 player2 now stored ≡ ok (room, s')
      → Reach s
      → Reach s'
  submission :
      {s s' : GameService} {room : GameRoom} (room_id user_id : ℕ) (raw : String) (now : ℕ)
      → submit_move s room_id user_id raw now ≡ ok (room, s')
      → Reach s
      → Reach s'

new_service-IsSound : (players : Players) → IsSound (new_service players)
unfolding new_service
new_service-IsSound players = record {
  kept = λ r o e. absurd (ground arith);
  unknown = λ r e. refl;
}

-- In every state that creations and submissions lead to, where each room is created under a new
-- identifier for two objects that exist, of two different users: the rounds of every room are
-- numbered from 1 and have the winners that their moves decide, the two counters are the numbers of
-- rounds won, an open match has at most one win a side and no winner, a completed one is won by the
-- player who has exactly two wins, and the finalization of a room was started once if its match is
-- complete and never otherwise.
pub Reach-IsSound : {s : GameService} → Reach s → IsSound s
Reach-IsSound (start players) = new_service-IsSound players
Reach-IsSound (add {s} p h) = new_player-IsSound s p (Reach-IsSound h)
Reach-IsSound (create {s} {s'} {room} room_id match_id player1 player2 now stored a e h) =
    create_room-IsSound s room_id match_id player1 player2 now stored (room, s') e a
      (Reach-IsSound h)
Reach-IsSound (submission {s} {s'} {room} room_id user_id raw now e h) =
    submit_move-IsSound s room_id user_id raw now (room, s') e (Reach-IsSound h)
