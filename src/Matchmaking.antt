-- ===== src/Matchmaking.antt =====
-- src/modules/matchmaking: service/matchmaking.service.ts and gateway/matchmaking.gateway.ts. The
-- service awaits two reads between taking a pair out of the queue and creating its room, and other
-- handlers run meanwhile: `pending` holds the pairs whose reads are under way.
pub mod Queue
pub mod Pairing
mod Tests
use swafri_backend.Common.{
  ℕ, ◌+◌, Bool, true, false, Option, none, some, String, List, [], ◌∷◌, ◌++◌, ◌==◌, if◌then◌else◌,
  any, remove_first, length, lookup, insert, delete, Result, ok, err, HttpException,
}
use swafri_backend.Friend.Online.{OnlineUsers, set_user_online, set_user_offline}
use swafri_backend.Game.Room.{PlayerState, GameRoom, GameService, new_player, create_room}

pub record QueueEntry : Type 0 where
  pub user_id : ℕ
  pub username : String
  pub socket_id : ℕ
  pub joined_at : ℕ

abbrev pub is_user : ℕ → QueueEntry → Bool
is_user user_id e = e.user_id == user_id

unfoldable pub is_in_queue : ℕ → List QueueEntry → Bool
is_in_queue user_id queue = any (is_user user_id) queue

unfoldable pub get_queue_length : List QueueEntry → ℕ
get_queue_length queue = length queue

-- Joining twice keeps the first entry.
unfoldable pub join_queue : QueueEntry → List QueueEntry → List QueueEntry
join_queue entry queue = if any (is_user entry.user_id) queue then queue else queue ++ entry ∷ []

unfoldable pub leave_queue : ℕ → List QueueEntry → List QueueEntry
leave_queue user_id queue = remove_first (is_user user_id) queue

abbrev pub Pair : Type 0
Pair = QueueEntry × QueueEntry

-- `tryMatch` up to its first await: the pair that it takes, and the queue that it leaves.
unfoldable pub take_pair : List QueueEntry → List Pair × List QueueEntry
take_pair [] = ([], [])
take_pair (e ∷ []) = ([], e ∷ [])
take_pair (p1 ∷ p2 ∷ queue) = ((p1, p2) ∷ [], queue)

-- The two columns that `findUnique` selects.
pub record WalletRow : Type 0 where
  pub wallet_address : Option ℕ
  pub wallet_verified_at : Option ℕ

-- `u?.walletAddress ?? null`.
abbrev pub address_in : Option WalletRow → Option ℕ
address_in none = none
address_in (some u) = u.wallet_address

abbrev pub verified_in : Option WalletRow → Option ℕ
verified_in none = none
verified_in (some u) = u.wallet_verified_at

abbrev pub player_from : QueueEntry → Option WalletRow → PlayerState
player_from e u = record {
  user_id = e.user_id;
  username = e.username;
  socket_id = e.socket_id;
  wallet_address = address_in u;
  wallet_verified_at = verified_in u;
  move = none;
}

-- The rest of `tryMatch`, with the rows that the reads gave.
unfoldable pub finish_match :
    GameService
    → Pair
    → (u1 u2 : Option WalletRow) → (room_id match_id now : ℕ) → Bool
    → GameService × Result GameRoom
finish_match g (p1, p2) u1 u2 room_id match_id now stored =
    let g' = new_player (new_player g (player_from p1 u1)) (player_from p2 u2) in
    elim (create_room g' room_id match_id g.next (g.next + 1) now stored) [
      | err e ↦ (g', err e)
      | ok (room, g'') ↦ (g'', ok room)
    ]

pub data Event : Type 0 where
  queued : (socket_id position : ℕ) → Event
  matched : (socket_id : ℕ) → GameRoom → (opponent : QueueEntry) → Event
  connect_wallet : (socket_id : ℕ) → Event
  cancelled : (socket_id : ℕ) → Event

pub record Matchmaking : Type 0 where
  pub queue : List QueueEntry
  pub socket_to_user : List (ℕ × ℕ)
  pub online : OnlineUsers
  pub pending : List Pair
  pub game : GameService

unfoldable pub handle_disconnect : Matchmaking → (socket_id : ℕ) → Matchmaking
handle_disconnect s socket_id = elim (lookup socket_id s.socket_to_user) [
  | none ↦ s
  | some user_id ↦ if user_id == 0 then s else record s {
    queue = leave_queue user_id s.queue;
    online = set_user_offline s.online user_id;
    socket_to_user = delete socket_id s.socket_to_user;
  }
]

-- `handleJoin` up to the await in `tryMatch`; a pair that is taken becomes pending.
unfoldable pub handle_join :
    Matchmaking → (socket_id user_id : ℕ) → String → ℕ → Matchmaking × List Event
handle_join s socket_id user_id username now =
    let entry : QueueEntry = record {
      user_id = user_id;
      username = username;
      socket_id = socket_id;
      joined_at = now;
    } in
    let joined = join_queue entry s.queue in
    let (taken, queue) = take_pair joined in
    (
      record s {
        queue = queue;
        socket_to_user = insert socket_id user_id s.socket_to_user;
        online = set_user_online s.online user_id socket_id;
        pending = s.pending ++ taken;
      },
      queued socket_id (get_queue_length joined) ∷ [],
    )

-- The announcements after a match is made, to the sockets that are still connected.
unfoldable pub announce_match : Pair → GameRoom → (connected1 connected2 : Bool) → List Event
announce_match (p1, p2) room connected1 connected2 =
    (if connected1 then matched p1.socket_id room p2 ∷ [] else [])
    ++ (if connected2 then matched p2.socket_id room p1 ∷ [] else [])
    ++ (if room.is_ranked
        then []
        else (if connected1 then connect_wallet p1.socket_id ∷ [] else [])
          ++ (if connected2 then connect_wallet p2.socket_id ∷ [] else []))

-- The end of `handleJoin` for a pair that was pending between `before` and `after`; a creation that
-- throws is not caught, and the pair is gone.
unfoldable pub resume_join :
    Matchmaking
    → (before : List Pair) → Pair
    → (after : List Pair) → (u1 u2 : Option WalletRow) → (room_id match_id now : ℕ)
    → (stored connected1 connected2 : Bool) → Matchmaking × List Event
resume_join s before pair after u1 u2 room_id match_id now stored connected1 connected2 =
    let (game, made) = finish_match s.game pair u1 u2 room_id match_id now stored in
    (
      record s { pending = before ++ after; game = game },
      elim made [ err e ↦ [] | ok room ↦ announce_match pair room connected1 connected2 ],
    )

unfoldable pub handle_cancel : Matchmaking → (socket_id user_id : ℕ) → Matchmaking × List Event
handle_cancel s socket_id user_id =
    (record s { queue = leave_queue user_id s.queue }, cancelled socket_id ∷ [])
