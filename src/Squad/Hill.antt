-- ===== src/Squad/Hill.antt =====
-- src/modules/squad/gateway/squad.gateway.ts: the game queue of a squad, king of the hill. The entries
-- are player objects of the game service, shared with the rooms: an entry is a reference to one.
pub mod Rotation
pub mod Stale
pub mod Queueing
pub mod Disconnects
pub mod Reachability
mod Tests
use swafri_backend.Common.{
  ℕ, ◌+◌, Bool, true, false, not, ◌&&◌, ◌||◌, Option, none, some, String, List, [], ◌∷◌, ◌++◌, ◌==◌,
  if◌then◌else◌, is_some, any, find, filter, remove_first, lookup, insert, delete, Result, ok, err,
}
use swafri_backend.Game.Room.{PlayerState, Players, GameService, new_player, create_room}
use swafri_backend.Matchmaking.{WalletRow, address_in, verified_in}
use swafri_backend.Squad.Store.{SquadDb}
use swafri_backend.Squad.Service.{get_member_role}

pub record SquadGameState : Type 0 where
  pub champion : Option ℕ
  pub challenger : Option ℕ
  pub queue : List ℕ
  pub current_room_id : Option ℕ
  pub is_match_in_progress : Bool

abbrev pub empty_state : SquadGameState
empty_state = record {
  champion = none;
  challenger = none;
  queue = [];
  current_room_id = none;
  is_match_in_progress = false;
}

-- The pairs for which `createRoom` is called, champion first.
abbrev pub Starts : Type 0
Starts = List (ℕ × ℕ)

-- `startSquadMatch` up to its await.
unfoldable pub start_squad_match : SquadGameState → SquadGameState × Starts
start_squad_match s = elim s.champion [
  | none ↦ (s, [])
  | some c ↦ elim s.challenger [
    | none ↦ (s, [])
    | some d ↦ (record s { is_match_in_progress = true }, (c, d) ∷ [])
  ]
]

-- The two cases of `tryStartMatch`.
unfoldable pub seat : Option ℕ → List ℕ → SquadGameState → SquadGameState × Starts
unfolding start_squad_match
seat none (p1 ∷ p2 ∷ rest) s =
    start_squad_match (record s { champion = some p1; challenger = some p2; queue = rest })
seat none (p ∷ []) s = (s, [])
seat none [] s = (s, [])
seat (some c) (p ∷ rest) s = start_squad_match (record s { challenger = some p; queue = rest })
seat (some c) [] s = (s, [])

unfoldable pub try_start_match : SquadGameState → SquadGameState × Starts
try_start_match s = if s.is_match_in_progress then (s, []) else seat s.champion s.queue s

-- `!winnerId`: null or the empty text.
abbrev pub is_draw : Option ℕ → Bool
is_draw none = true
is_draw (some w) = w == 0

abbrev pub is_winner : Option ℕ → ℕ → Bool
is_winner none id = false
is_winner (some w) id = w == id

-- `handleMatchEnd` up to the call of `tryStartMatch`, for champion `c` and challenger `d`.
unfoldable pub rotate : Players → SquadGameState → ℕ → ℕ → Option ℕ → SquadGameState
rotate players s c d winner =
    let ended = record s { is_match_in_progress = false; current_room_id = none } in
    if is_draw winner
    then record ended { queue = s.queue ++ c ∷ d ∷ []; champion = none; challenger = none }
    else if is_winner winner (players c).user_id
    then record ended { queue = s.queue ++ d ∷ []; challenger = none }
    else record ended { queue = s.queue ++ c ∷ []; champion = some d; challenger = none }

unfoldable pub handle_match_end : Players → SquadGameState → Option ℕ → SquadGameState × Starts
handle_match_end players s winner = elim s.champion [
  | none ↦ (s, [])
  | some c ↦ elim s.challenger [
    | none ↦ (s, [])
    | some d ↦ try_start_match (rotate players s c d winner)
  ]
]

-- `entry?.socketId === socketId`, and the same for users.
abbrev pub has_socket : Players → ℕ → Option ℕ → Bool
has_socket players socket_id none = false
has_socket players socket_id (some r) = (players r).socket_id == socket_id

abbrev pub has_user_id : Players → ℕ → Option ℕ → Bool
has_user_id players user_id none = false
has_user_id players user_id (some r) = (players r).user_id == user_id

-- The match ends in favour of the other seat, if that is taken.
unfoldable pub forfeit_to : Players → SquadGameState → Option ℕ → SquadGameState × Starts
forfeit_to players s none = (s, [])
forfeit_to players s (some r) = handle_match_end players s (some (players r).user_id)

unfoldable pub champion_gone : Players → SquadGameState → ℕ → SquadGameState × Starts
champion_gone players s socket_id =
    if has_socket players socket_id s.champion && s.is_match_in_progress
    then forfeit_to players s s.challenger
    else (s, [])

unfoldable pub challenger_gone : Players → SquadGameState → ℕ → SquadGameState × Starts
challenger_gone players s socket_id =
    if has_socket players socket_id s.challenger && s.is_match_in_progress
    then forfeit_to players s s.champion
    else (s, [])

-- The second test reads the state that the first forfeit leaves.
unfoldable pub handle_player_disconnect : Players → SquadGameState → ℕ → SquadGameState × Starts
handle_player_disconnect players s socket_id =
    if any (λ r. (players r).socket_id == socket_id) s.queue
    then (record s { queue = remove_first (λ r. (players r).socket_id == socket_id) s.queue }, [])
    else let (s1, starts1) = champion_gone players s socket_id in
      let (s2, starts2) = challenger_gone players s1 socket_id in (s2, starts1 ++ starts2)

-- `handleJoinQueue` on the state, for a new entry `r`: none if its user is there already.
unfoldable pub join_queue : Players → SquadGameState → ℕ → Option (SquadGameState × Starts)
join_queue players s r =
    let user_id = (players r).user_id in
    if any (λ q. (players q).user_id == user_id) s.queue
      || has_user_id players user_id s.champion
      || has_user_id players user_id s.challenger
    then none
    else some (try_start_match (record s { queue = s.queue ++ r ∷ [] }))

unfoldable pub leave_queue : Players → SquadGameState → ℕ → SquadGameState
leave_queue players s user_id = record s {
  queue = filter (λ q. not ((players q).user_id == user_id)) s.queue;
}
