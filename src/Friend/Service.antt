-- ===== src/Friend/Service.antt =====
-- src/modules/friend/service/friend.service.ts. Rows of the database are lists; new identifiers, and
-- whether the database takes a notification (`stored`), are arguments.
pub mod Requests
pub mod Friends
pub mod Answers
use swafri_backend.Common.{
  ℕ, Bool, true, false, not, ◌&&◌, ◌||◌, Option, none, some, String, List, [], ◌∷◌, ◌++◌, ◌==◌,
  if◌then◌else◌, is_some, find, filter, map, lookup, Result, ok, err, ◌>>=◌, ◌>>◌, guard, or_throw,
  bad_request, not_found, conflict, unique_violation, database_failure,
}
use swafri_backend.Friend.Friendships.{
  FriendshipStatus, pending, accepted, blocked, Friendship, is_accepted, joins, are_friends,
}
use swafri_backend.Friend.Online.{OnlineUsers, get_socket_id}
use swafri_backend.Notification.{
  NotificationType, friend_request, friend_accepted, game_invite, Payload, request_from,
  accepted_by, invite_from, Notifications, send_to_user, send_to_user_by_id,
}

-- The rows of users are their names by identifier.
pub record FriendService : Type 0 where
  pub friendships : List Friendship
  pub users : List (ℕ × String)
  pub online : OnlineUsers
  pub notifications : Notifications

-- `findUnique({ where: { requesterId_addresseeId } })`.
abbrev pub is_request : ℕ → ℕ → Friendship → Bool
is_request requester_id addressee_id f =
    f.requester_id == requester_id && f.addressee_id == addressee_id

abbrev pub friendship_of : List Friendship → ℕ → ℕ → Option Friendship
friendship_of rows requester_id addressee_id = find (is_request requester_id addressee_id) rows

abbrev pub friendship_by_id : List Friendship → ℕ → Option Friendship
friendship_by_id rows id = find (λ (f : Friendship). f.id == id) rows

-- The socket if the user is online, and a stored row in any case.
unfoldable pub notify :
    FriendService → (id user_id : ℕ) → NotificationType → Payload → (stored : Bool) → Notifications
notify s id user_id kind data_ stored = elim (get_socket_id s.online user_id) [
  | none ↦ send_to_user_by_id s.notifications id user_id kind data_ stored
  | some socket_id ↦ send_to_user s.notifications id socket_id kind data_ user_id stored
]

-- Both users must be stored: the row's foreign keys.
unfoldable pub send_request :
    FriendService
    → (id notification_id requester_id addressee_id : ℕ) → (stored : Bool) → Result FriendService
send_request s id notification_id requester_id addressee_id stored = do
  guard (not (requester_id == addressee_id))
      (bad_request "Cannot send a friend request to yourself")
  guard (not (is_some (friendship_of s.friendships requester_id addressee_id)))
      (conflict "Friend request already exists")
  username ← or_throw (lookup requester_id s.users) database_failure
  guard (is_some (lookup addressee_id s.users)) database_failure
  guard (not (is_some (friendship_by_id s.friendships id))) unique_violation
  ok (record s {
    friendships =
        s.friendships
        ++ record {
          id = id;
          requester_id = requester_id;
          addressee_id = addressee_id;
          status = pending;
        }
          ∷ [];
    notifications =
        notify s notification_id addressee_id friend_request (request_from id requester_id username)
          stored;
  })

-- `action: 'ACCEPTED' | 'BLOCKED'`.
pub data Response : Type 0 where
  accept block : Response

abbrev pub status_after : Response → FriendshipStatus
status_after accept = accepted
status_after block = blocked

abbrev pub set_status : ℕ → FriendshipStatus → List Friendship → List Friendship
set_status id status [] = []
set_status id status (f ∷ rows) =
    (if f.id == id then record f { status = status } else f) ∷ set_status id status rows

unfoldable pub respond :
    FriendService
    → (notification_id user_id friendship_id : ℕ) → Response
    → (stored : Bool) → Result FriendService
respond s notification_id user_id friendship_id action stored = do
  f ← or_throw (friendship_by_id s.friendships friendship_id) (not_found "Friend request not found")
  username ← or_throw (lookup f.addressee_id s.users) database_failure
  guard (f.addressee_id == user_id) (bad_request "Not authorized")
  ok (record s {
    friendships = set_status friendship_id (status_after action) s.friendships;
    notifications = elim action [
      | accept ↦
          notify s notification_id f.requester_id friend_accepted
            (accepted_by friendship_id user_id username) stored
      | block ↦ s.notifications
    ];
  })

pub record Friend : Type 0 where
  pub id : ℕ
  pub friendship_id : ℕ
  pub is_online : Bool

abbrev pub has_accepted : ℕ → Friendship → Bool
has_accepted user_id f =
    (f.requester_id == user_id && is_accepted f.status)
    || (f.addressee_id == user_id && is_accepted f.status)

abbrev pub friend_in : OnlineUsers → ℕ → Friendship → Friend
friend_in online user_id f =
    let friend = if f.requester_id == user_id then f.addressee_id else f.requester_id in
    record { id = friend; friendship_id = f.id; is_online = is_some (lookup friend online) }

unfoldable pub get_friends : FriendService → (user_id : ℕ) → List Friend
get_friends s user_id =
    map (friend_in s.online user_id) (filter (has_accepted user_id) s.friendships)

abbrev pub is_pending : FriendshipStatus → Bool
is_pending pending = true
is_pending _ = false

unfoldable pub get_pending_requests : FriendService → (user_id : ℕ) → List Friendship
get_pending_requests s user_id =
    filter (λ (f : Friendship). f.addressee_id == user_id && is_pending f.status) s.friendships

unfoldable pub get_outgoing_requests : FriendService → (user_id : ℕ) → List Friendship
get_outgoing_requests s user_id =
    filter (λ (f : Friendship). f.requester_id == user_id && is_pending f.status) s.friendships

-- `findFirst` of an accepted row between the two, in either direction.
abbrev pub friendship_between : List Friendship → ℕ → ℕ → Option Friendship
friendship_between rows a b = find (λ (f : Friendship). joins a b f && is_accepted f.status) rows

abbrev pub delete_friendship : ℕ → List Friendship → List Friendship
delete_friendship id rows = filter (λ (f : Friendship). not (f.id == id)) rows

unfoldable pub remove_friend : FriendService → (user_id friend_id : ℕ) → Result FriendService
remove_friend s user_id friend_id = do
  f ←
      or_throw (friendship_between s.friendships user_id friend_id)
        (not_found "Friendship not found")
  ok (record s { friendships = delete_friendship f.id s.friendships })

abbrev pub or_someone : Option String → String
or_someone none = "Someone"
or_someone (some name) = name

unfoldable pub invite_to_game :
    FriendService
    → (notification_id from_user_id to_user_id : ℕ) → (stored : Bool) → Result FriendService
invite_to_game s notification_id from_user_id to_user_id stored = do
  guard (are_friends s.friendships from_user_id to_user_id)
      (bad_request "You can only invite friends to a game")
  socket_id ←
      or_throw (get_socket_id s.online to_user_id)
        (bad_request "Your friend is not online right now")
  ok (record s {
    notifications =
        send_to_user s.notifications notification_id socket_id game_invite
          (invite_from from_user_id (or_someone (lookup from_user_id s.users))) to_user_id stored;
  })
