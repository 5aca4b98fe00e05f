-- ===== src/Game/Room/Validity.antt =====
-- What holds of a room between two submissions (game.service.ts).
use swafri_backend.Common.{
  ℕ, ◌+◌, ◌<◌, ◌≡◌, refl, ◌≢◌, ◌⊎◌, Option, none, some, List, [], ◌∷◌, ◌++◌, if◌then◌else◌, length,
  arith, is_value,
}
use swafri_backend.Game.Engine.{Move, RoundResult, resolve_match, is_valid_move}
use swafri_backend.Game.Engine
use swafri_backend.Game.Room.{
  GameStatus, in_progress, completed, Round, GameRoom, Players, id1, id2, set_move, new_room,
}

-- How many of the rounds an identifier has won.
abbrev pub wins_in : ℕ → List Round → ℕ
wins_in id [] = 0
wins_in id (r ∷ rs) = if is_value r.winner_id id then wins_in id rs + 1 else wins_in id rs

pub wins_in-append :
    (id : ℕ) (rs : List Round) (r : Round)
    → wins_in id (rs ++ r ∷ [])
      ≡ (if is_value r.winner_id id then wins_in id rs + 1 else wins_in id rs)
wins_in-append id [] r = refl
wins_in-append id (q ∷ rs) r = ground (arith, wins_in-append id rs r)

-- The rounds are numbered from `n` upwards, and each has the winner that its two moves decide.
abbrev pub Played : ℕ → ℕ → ℕ → List Round → Type 0
Played id1 id2 n [] = Unit {0}
Played id1 id2 n (r ∷ rs) =
    (r.round_number ≡ n)
    × (r.winner_id ≡ (Engine.resolve_round r.player1_move r.player2_move id1 id2).winner_id)
    × Played id1 id2 (n + 1) rs

pub Played-append :
    (id1 id2 n : ℕ) (rs : List Round) (r : Round)
    → Played id1 id2 n rs
    → r.round_number ≡ n + length rs
    → r.winner_id ≡ (Engine.resolve_round r.player1_move r.player2_move id1 id2).winner_id
    → Played id1 id2 n (rs ++ r ∷ [])
Played-append id1 id2 n [] r h e w = (omega arith, w, tt)
Played-append id1 id2 n (q ∷ rs) r (a, b, h) e w =
    (a, b, Played-append id1 id2 (n + 1) rs r h (omega arith) w)

-- An open match has at most one win a side and no winner; a completed one has a winner with two
-- wins, and at most one win on the other side.
abbrev pub Stands : GameStatus → ℕ → ℕ → ℕ → ℕ → Option ℕ → ℕ → ℕ → Type 0
Stands in_progress id1 id2 w1 w2 winner current played =
    (current ≡ played + 1) × (w1 < 2) × (w2 < 2) × (winner ≡ none)
Stands completed id1 id2 w1 w2 winner current played =
    (current ≡ played)
    × (((w1 ≡ 2) × (w2 < 2) × (winner ≡ some id1)) ⊎ ((w2 ≡ 2) × (w1 < 2) × (winner ≡ some id2)))
Stands _ id1 id2 w1 w2 winner current played = ⊥

pub record IsValid (players : Players) (room : GameRoom) : Type 0 where
  pub distinct : (players room.player1).user_id ≢ (players room.player2).user_id
  pub played : Played (players room.player1).user_id (players room.player2).user_id 1 room.rounds
  pub tally1 : room.player1_wins ≡ wins_in (players room.player1).user_id room.rounds
  pub tally2 : room.player2_wins ≡ wins_in (players room.player2).user_id room.rounds
  pub stands :
      Stands room.status
        (players room.player1).user_id
        (players room.player2).user_id
        room.player1_wins
        room.player2_wins
        room.winner_id
        room.current_round
        (length room.rounds)

pub new_room-IsValid :
    (players : Players) (room_id match_id player1 player2 now : ℕ)
    → (players player1).user_id ≢ (players player2).user_id
    → IsValid players (new_room players room_id match_id player1 player2 now)
new_room-IsValid players room_id match_id player1 player2 now h = record {
  distinct = h;
  played = tt;
  tally1 = refl;
  tally2 = refl;
  stands = (refl, omega arith, omega arith, refl);
}

-- Validity reads the player objects only through their user identifiers.
pub IsValid-same_users :
    (p q : Players) (room : GameRoom)
    → (q room.player1).user_id ≡ (p room.player1).user_id
    → (q room.player2).user_id ≡ (p room.player2).user_id
    → IsValid p room
    → IsValid q room
IsValid-same_users p q room e1 e2 v = record {
  distinct = rw (e1, e2) v.distinct;
  played = rw (e1, e2) v.played;
  tally1 = rw e1 v.tally1;
  tally2 = rw e2 v.tally2;
  stands = rw (e1, e2) v.stands;
}

pub set_move-user_id :
    (p : Players) (r : ℕ) (m : Option Move) (q : ℕ) → (set_move p r m q).user_id ≡ (p q).user_id
set_move-user_id p r m q = ground arith

pub set_move-IsValid :
    (p : Players) (r : ℕ) (m : Option Move) (room : GameRoom)
    → IsValid p room
    → IsValid (set_move p r m) room
set_move-IsValid p r m room =
    IsValid-same_users p (set_move p r m) room (set_move-user_id p r m room.player1)
      (set_move-user_id p r m room.player2)
