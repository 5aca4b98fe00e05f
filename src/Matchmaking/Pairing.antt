-- ===== src/Matchmaking/Pairing.antt =====
-- Handlers of the matchmaking gateway in any order, with the awaits between them.
use swafri_backend.Common.{
  ℕ, ◌+◌, ◌≤◌, ◌≡◌, ap, ◌∙◌, ◌≢◌, inl, inr, Bool, Option, none, ok, String, List, [], ◌∷◌, ◌++◌,
  append_assoc, append-nil, ◌==◌, All, All-append, length, lookup, arith, Bool-cases, Option-cases,
  Result-cases,
}
use swafri_backend.Game.Room.{Players, GameRoom, GameService, new_player, create_room, submit_move}
use swafri_backend.Game.Room.Service
use swafri_backend.Game.Room.Service.{new_service, Admissible}
use swafri_backend.Matchmaking.{
  QueueEntry, Pair, WalletRow, player_from, join_queue, take_pair, finish_match, Matchmaking,
  handle_disconnect, handle_join, resume_join, handle_cancel,
}
use swafri_backend.Matchmaking.Queue.{
  HasDistinctUsers, join_queue-HasDistinctUsers, leave_queue-HasDistinctUsers,
  take_pair-HasDistinctUsers, entries, entries-append, take_pair-entries, length-take_pair,
  length-join_queue, length-leave_queue,
}

unfoldable pub new_matchmaking : Players → Matchmaking
new_matchmaking players = record {
  queue = [];
  socket_to_user = [];
  online = [];
  pending = [];
  game = new_service players;
}

abbrev pub AreTwo : Pair → Type 0
AreTwo p = p.0.user_id ≢ p.1.user_id

-- One handler runs, or one pending pair goes on, or a submission plays in a room. A room is created
-- under an identifier that is not in use.
pub data Step (s : Matchmaking) : Matchmaking → Type 0 where
  join :
      (socket_id user_id : ℕ) (username : String) (now : ℕ)
      → Step s (handle_join s socket_id user_id username now).0
  resume :
      (before : List Pair) (pair : Pair) (after : List Pair) (u1 u2 : Option WalletRow)
      (room_id match_id now : ℕ) (stored connected1 connected2 : Bool)
      → s.pending ≡ before ++ pair ∷ after
      → lookup room_id s.game.rooms ≡ none
      → Step s
          (resume_join s before pair after u1 u2 room_id match_id now stored connected1
            connected2).0
  disconnect : (socket_id : ℕ) → Step s (handle_disconnect s socket_id)
  cancel : (socket_id user_id : ℕ) → Step s (handle_cancel s socket_id user_id).0
  play :
      (room_id user_id : ℕ) (raw : String) (now : ℕ) (room : GameRoom) (g : GameService)
      → submit_move s.game room_id user_id raw now ≡ ok (room, g)
      → Step s (record s { game = g })

pub data Reach : Matchmaking → Type 0 where
  start : (players : Players) → Reach (new_matchmaking players)
  next : {s t : Matchmaking} → Reach s → Step s t → Reach t

pub record IsPaired (s : Matchmaking) : Type 0 where
  pub short : length s.queue ≤ 1
  pub distinct : HasDistinctUsers s.queue
  pub pairs : All AreTwo s.pending
  pub game : Service.Reach s.game

new_matchmaking-IsPaired : (players : Players) → IsPaired (new_matchmaking players)
unfolding new_matchmaking
new_matchmaking-IsPaired players = record {
  short = omega arith;
  distinct = tt;
  pairs = tt;
  game = Service.Reach.start players;
}

handle_join-IsPaired :
    (s : Matchmaking) (socket_id user_id : ℕ) (username : String) (now : ℕ)
    → IsPaired s
    → IsPaired (handle_join s socket_id user_id username now).0
unfolding handle_join
handle_join-IsPaired s socket_id user_id username now i =
    let entry : QueueEntry = record {
      user_id = user_id;
      username = username;
      socket_id = socket_id;
      joined_at = now;
    } in
    let joined = join_queue entry s.queue in
    let (two, rest) =
      take_pair-HasDistinctUsers joined (join_queue-HasDistinctUsers entry s.queue i.distinct) in
    record {
      short = length-take_pair joined (omega (arith, length-join_queue entry s.queue, i.short));
      distinct = rest;
      pairs = All-append AreTwo s.pending (take_pair joined).0 i.pairs two;
      game = i.game;
    }

All-middle :
    (before : List Pair) (pair : Pair) (after : List Pair)
    → All AreTwo (before ++ pair ∷ after)
    → AreTwo pair × All AreTwo (before ++ after)
All-middle [] pair after h = h
All-middle (p ∷ before) pair after (a, h) =
    let (b, c) = All-middle before pair after h in (b, (a, c))

both-Admissible :
    (g : GameService) (p1 p2 : QueueEntry) (u1 u2 : Option WalletRow) (room_id : ℕ)
    → p1.user_id ≢ p2.user_id
    → lookup room_id g.rooms ≡ none
    → Admissible
        (new_player (new_player g (player_from p1 u1)) (player_from p2 u2))
        room_id
        g.next
        (g.next + 1)
unfolding new_player
both-Admissible g p1 p2 u1 u2 room_id two fresh = record {
  fresh = fresh;
  player1_exists = omega arith;
  player2_exists = omega arith;
  distinct = ground arith;
}

finish_match-Reach :
    (g : GameService) (pair : Pair) (u1 u2 : Option WalletRow) (room_id match_id now : ℕ)
    (stored : Bool)
    → Service.Reach g
    → AreTwo pair
    → lookup room_id g.rooms ≡ none
    → Service.Reach (finish_match g pair u1 u2 room_id match_id now stored).0
unfolding finish_match
finish_match-Reach g (p1, p2) u1 u2 room_id match_id now stored r two fresh =
    let g' = new_player (new_player g (player_from p1 u1)) (player_from p2 u2) in
    let added : Service.Reach g' =
      Service.Reach.add (player_from p2 u2) (Service.Reach.add (player_from p1 u1) r) in
    elim (Result-cases (create_room g' room_id match_id g.next (g.next + 1) now stored)) [
      | inl (e, h) ↦ rw (h, finish_match) added
      | inr ((room, g''), h) ↦
          rw (h, finish_match)
            (Service.Reach.create {s = g'} {s' = g''} {room = room} room_id match_id g.next
              (g.next + 1) now stored (both-Admissible g p1 p2 u1 u2 room_id two fresh) h added)
    ]

resume_join-IsPaired :
    (s : Matchmaking) (before : List Pair) (pair : Pair) (after : List Pair)
    (u1 u2 : Option WalletRow) (room_id match_id now : ℕ) (stored connected1 connected2 : Bool)
    → s.pending ≡ before ++ pair ∷ after
    → lookup room_id s.game.rooms ≡ none
    → IsPaired s
    → IsPaired
        (resume_join s before pair after u1 u2 room_id match_id now stored connected1 connected2).0
unfolding resume_join
resume_join-IsPaired s before pair after u1 u2 room_id match_id now stored connected1 connected2 e
      fresh i =
    let (two, rest) = All-middle before pair after (rw e at (i.pairs)) in
    record {
      short = i.short;
      distinct = i.distinct;
      pairs = rest;
      game = finish_match-Reach s.game pair u1 u2 room_id match_id now stored i.game two fresh;
    }

handle_disconnect-IsPaired :
    (s : Matchmaking) (socket_id : ℕ) → IsPaired s → IsPaired (handle_disconnect s socket_id)
unfolding handle_disconnect
handle_disconnect-IsPaired s socket_id i = elim (Option-cases (lookup socket_id s.socket_to_user)) [
  | inl a ↦ rw (a, handle_disconnect) i
  | inr (user_id, a) ↦ elim (Bool-cases (user_id == 0)) [
    | inl z ↦ rw (a, handle_disconnect, z) i
    | inr z ↦
        rw (a, handle_disconnect, z)
          (record {
            short = omega (arith, length-leave_queue user_id s.queue, i.short);
            distinct = leave_queue-HasDistinctUsers user_id s.queue i.distinct;
            pairs = i.pairs;
            game = i.game;
          })
  ]
]

handle_cancel-IsPaired :
    (s : Matchmaking) (socket_id user_id : ℕ)
    → IsPaired s
    → IsPaired (handle_cancel s socket_id user_id).0
unfolding handle_cancel
handle_cancel-IsPaired s socket_id user_id i = record {
  short = omega (arith, length-leave_queue user_id s.queue, i.short);
  distinct = leave_queue-HasDistinctUsers user_id s.queue i.distinct;
  pairs = i.pairs;
  game = i.game;
}

Step-IsPaired : {s t : Matchmaking} → Step s t → IsPaired s → IsPaired t
Step-IsPaired {s} (join socket_id user_id username now) i =
    handle_join-IsPaired s socket_id user_id username now i
Step-IsPaired {s} (resume before pair after u1 u2 room_id match_id now stored c1 c2 e fresh) i =
    resume_join-IsPaired s before pair after u1 u2 room_id match_id now stored c1 c2 e fresh i
Step-IsPaired {s} (disconnect socket_id) i = handle_disconnect-IsPaired s socket_id i
Step-IsPaired {s} (cancel socket_id user_id) i = handle_cancel-IsPaired s socket_id user_id i
Step-IsPaired {s} (play room_id user_id raw now room g e) i = record {
  short = i.short;
  distinct = i.distinct;
  pairs = i.pairs;
  game =
      Service.Reach.submission {s = s.game} {s' = g} {room = room} room_id user_id raw now e i.game;
}

-- However joins, cancellations, disconnects, the continuations of pending pairs and submissions are
-- interleaved, where each room is created under an identifier that is not in use: the queue holds at
-- most one entry between two handlers, every pair that was taken out of it is of two different
-- users, and the rooms are in a state that creations for two users and submissions lead to.
pub Reach-IsPaired : {s : Matchmaking} → Reach s → IsPaired s
Reach-IsPaired (start players) = new_matchmaking-IsPaired players
Reach-IsPaired (next r step) = Step-IsPaired step (Reach-IsPaired r)

-- The order of arrival: a join adds its entry, unless its user is queued, behind all who wait for an
-- opponent or for their room, and pairs are taken from the front without a change of that order.
pub handle_join-line :
    (s : Matchmaking) (socket_id user_id : ℕ) (username : String) (now : ℕ)
    → let t = (handle_join s socket_id user_id username now).0 in
      let entry : QueueEntry = record {
        user_id = user_id;
        username = username;
        socket_id = socket_id;
        joined_at = now;
      } in
      entries t.pending ++ t.queue ≡ entries s.pending ++ join_queue entry s.queue
unfolding handle_join
handle_join-line s socket_id user_id username now =
    let entry : QueueEntry = record {
      user_id = user_id;
      username = username;
      socket_id = socket_id;
      joined_at = now;
    } in
    let joined = join_queue entry s.queue in
    ap (λ l. l ++ (take_pair joined).1) (entries-append s.pending (take_pair joined).0)
    ∙ append_assoc (entries s.pending) (entries (take_pair joined).0) (take_pair joined).1
    ∙ ap (λ l. entries s.pending ++ l) (take_pair-entries joined)

-- From an empty queue, two joins by two different users are paired with one another, in the order of
-- the joins, and leave the queue empty. This holds whatever pairs are pending, also pairs that hold
-- one of the two users.
pub handle_join_twice :
    (s : Matchmaking) (socket1 user1 : ℕ) (name1 : String) (now1 socket2 user2 : ℕ) (name2 : String)
    (now2 : ℕ)
    → s.queue ≡ []
    → user1 ≢ user2
    → let t = (handle_join (handle_join s socket1 user1 name1 now1).0 socket2 user2 name2 now2).0 in
      (t.queue ≡ [])
      × (t.pending
          ≡ s.pending
            ++ (
              record { user_id = user1; username = name1; socket_id = socket1; joined_at = now1 },
              record { user_id = user2; username = name2; socket_id = socket2; joined_at = now2 },
            )
              ∷ [])
unfolding handle_join join_queue take_pair
handle_join_twice s socket1 user1 name1 now1 socket2 user2 name2 now2 e ne =
    rw (e, handle_join) (ground (arith, append-nil s.pending))
