-- ===== src/Game/Finalization.antt =====
-- `finalizeMatch` of src/modules/game/service/game.service.ts, with `computeMatchResultHash` of
-- src/core/provider/web3.provider.ts. The two players are the player objects as they are at the call;
-- identifiers are not empty. Of what the source starts together, all runs to its end, the first player's
-- part before the second's.
pub mod Statistics
pub mod Practice
mod Tests
use swafri_backend.Common.{
  ℕ, ◌+◌, ◌*◌, ◌/◌, Bool, true, false, not, ◌&&◌, ◌||◌, Option, none, some, List, [], ◌∷◌, ◌++◌,
  ◌==◌, if◌then◌else◌, ltb, is_some, is_value, get_last?, lookup, insert, Result, ok, err,
}
use swafri_backend.Effects.{Run, ◌>>=◌, ◌>>◌, read, modify, return, together}
use swafri_backend.Users.{User}
use swafri_backend.Records.{
  Records, Match, completed, Job, record_match, update_user, update_match, add_job,
}
use swafri_backend.Achievement.{Criterion, Awarded, check_and_award}
use swafri_backend.Leaderboard.{get_leaderboard}
use swafri_backend.Game.Results.{
  is_verified, player_of, loser_of, wallet_of, loser_id, is_verified_in, when, save_result,
}
use swafri_backend.Game.Engine.{Move}
use swafri_backend.Game.Room.{PlayerState, Round, GameRoom, GameService}
use swafri_backend.Squad.Gateway.{SquadGateway, notify_match_end}

-- What is encoded for the hash; no address is the zero address, no move the text `unknown`.
pub record Encoded : Type 0 where
  pub match_id : ℕ
  pub player1_address : Option ℕ
  pub player2_address : Option ℕ
  pub winner_address : Option ℕ
  pub move1 : Option Move
  pub move2 : Option Move
  pub seconds : ℕ

pub data LiveMessage : Type 0 where
  connect_to_save : LiveMessage
  won_unsaved : LiveMessage
  connect_for_history : LiveMessage

-- What goes out: live notifications and badges to a socket, and the board to everybody.
pub data Sent : Type 0 where
  live : (socket_id : ℕ) → LiveMessage → Sent
  badge : (socket_id name : ℕ) → Sent
  board : List (ℕ × User) → Sent

pub record Arena : Type 0 where
  pub records : Records
  pub squads : SquadGateway
  pub sent : List Sent

abbrev lifted {ℓ} : {A : Type ℓ} → Arena → Records × Result A → Arena × Result A
lifted s (records, r) = (record s { records = records }, r)

abbrev pub on_records {ℓ} : {A : Type ℓ} → Run Records A → Run Arena A
on_records run s = lifted s (run s.records)

abbrev pub move_of : (Round → Move) → Option Round → Option Move
move_of pick none = none
move_of pick (some r) = some (pick r)

-- `keccak` hashes the encoding; `now` is in milliseconds.
unfoldable pub compute_match_result_hash :
    (keccak : Encoded → ℕ)
    → (now match_id : ℕ) → (wallet1 wallet2 winner_wallet : Option ℕ) → (move1 move2 : Option Move)
    → ℕ
compute_match_result_hash keccak now match_id wallet1 wallet2 winner_wallet move1 move2 =
    keccak (record {
      match_id = match_id;
      player1_address = wallet1;
      player2_address = wallet2;
      winner_address = winner_wallet;
      move1 = move1;
      move2 = move2;
      seconds = now / 1000;
    })

abbrev pub emit_all : List Sent → Arena → Arena
emit_all messages s = record s { sent = s.sent ++ messages }

-- `connected`: the sockets that the server knows; without a server there are none.
module _ (connected : ℕ → Bool) where
  abbrev pub send_live : PlayerState → LiveMessage → Run Arena (Unit {0})
  send_live p message =
      if connected p.socket_id then modify (emit_all (live p.socket_id message ∷ [])) else return tt

  -- The hints to the players whose result was not saved.
  abbrev pub hint_unverified : PlayerState → PlayerState → Option ℕ → Run Arena (Unit {0})
  hint_unverified p1 p2 none = return tt
  hint_unverified p1 p2 (some winner) = do
    if is_verified_in p1 p2 winner
        then return tt
        else send_live (player_of p1 p2 winner) won_unsaved
    if is_verified_in p1 p2 (loser_of p1 p2 winner)
        then return tt
        else send_live (player_of p1 p2 (loser_of p1 p2 winner)) connect_for_history

-- `checkAndAward` for a player with a verified wallet.
abbrev pub award_verified :
    (other : User → Criterion → Bool) → PlayerState → Run Records (Option Awarded)
award_verified other p =
    if is_verified p
    then (check_and_award other p.user_id >>= λ (a : Awarded). return (some a))
    else return none

abbrev pub badges_to : (socket_id : ℕ) → List ℕ → List Sent
badges_to socket_id [] = []
badges_to socket_id (name ∷ names) = badge socket_id name ∷ badges_to socket_id names

abbrev pub pay : PlayerState → Option Awarded → Run Arena (Unit {0})
pay p none = return tt
pay p (some a) = do
  on_records (
      when (ltb 0 a.bonus_points)
        (update_user p.user_id (λ u. record u { points = u.points + a.bonus_points }) >> return tt))
  modify (emit_all (badges_to p.socket_id a.badges))

-- The first fifty of the board, to everybody.
abbrev pub show_board : (has_server : Bool) → Arena → Arena
show_board false s = s
show_board true s = emit_all (board (get_leaderboard s.records.users 50 0) ∷ []) s

abbrev pub tell_squads : (room_id : ℕ) → Option ℕ → Arena → Arena
tell_squads room_id winner_id s = record s { squads = notify_match_end s.squads room_id winner_id }

-- A match in which somebody has a verified wallet.
unfoldable pub finalize_saved :
    (other : User → Criterion → Bool) (connected : ℕ → Bool) (has_server : Bool)
    → (room_id : ℕ) → PlayerState
    → PlayerState
    → Option ℕ
    → Run Arena (Unit {0})
finalize_saved other connected has_server room_id p1 p2 winner_id = do
  on_records (save_result p1 p2 winner_id)
  hint_unverified connected p1 p2 winner_id
  awards ← on_records (together (award_verified other p1) (award_verified other p2))
  pay p1 (awards.0)
  pay p2 (awards.1)
  modify (show_board has_server)
  modify (tell_squads room_id winner_id)

unfoldable pub finalize_practice :
    (connected : ℕ → Bool) → PlayerState → PlayerState → Run Arena (Unit {0})
finalize_practice connected p1 p2 = do
  send_live connected p1 connect_to_save
  send_live connected p2 connect_to_save

-- `room.onChainHash = onChainHash`, on the object that the map of rooms holds.
abbrev pub with_hash : ℕ → ℕ → GameService → Option GameRoom → GameService
with_hash room_id hash g none = g
with_hash room_id hash g (some room) = record g {
  rooms = insert room_id (record room { on_chain_hash = some hash }) g.rooms;
}

abbrev pub store_hash : (room_id hash : ℕ) → Arena → Arena
store_hash room_id hash s = record s {
  squads = record s.squads {
    game = with_hash room_id hash s.squads.game (lookup room_id s.squads.game.rooms);
  };
}

-- The hash over the last round and the wallets.
abbrev pub match_hash :
    (keccak : Encoded → ℕ) → (now : ℕ) → GameRoom → PlayerState → PlayerState → ℕ
match_hash keccak now room p1 p2 =
    compute_match_result_hash keccak now room.match_id p1.wallet_address p2.wallet_address
      (wallet_of p1 p2 room.winner_id)
      (move_of (λ (r : Round). r.player1_move) (get_last? room.rounds))
      (move_of (λ (r : Round). r.player2_move) (get_last? room.rounds))

abbrev pub with_result : (now : ℕ) → Option ℕ → Match → Match
with_result now winner_id m = record m {
  status = completed;
  winner_id = winner_id;
  ended_at = some now;
}

abbrev pub with_on_chain_hash : ℕ → Match → Match
with_on_chain_hash hash m = record m { on_chain_hash = some hash }

abbrev pub job_of : PlayerState → PlayerState → GameRoom → (hash : ℕ) → Job
job_of p1 p2 room hash =
    record_match room.match_id (wallet_of p1 p2 room.winner_id)
      (wallet_of p1 p2 (loser_id p1 p2 room.winner_id)) hash

unfoldable pub finalize_match :
    (keccak : Encoded → ℕ) (other : User → Criterion → Bool) (connected : ℕ → Bool)
    (has_server : Bool)
    → (now : ℕ) → GameRoom
    → PlayerState
    → PlayerState
    → Run Arena (Unit {0})
finalize_match keccak other connected has_server now room p1 p2 = do
  let hash = match_hash keccak now room p1 p2
  on_records (update_match room.match_id (with_result now room.winner_id))
  modify (store_hash room.room_id hash)
  on_records (update_match room.match_id (with_on_chain_hash hash))
  on_records (when (is_verified p1 || is_verified p2) (add_job (job_of p1 p2 room hash)))
  if is_verified p1 || is_verified p2
      then finalize_saved other connected has_server room.room_id p1 p2 room.winner_id
      else finalize_practice connected p1 p2
