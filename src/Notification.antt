-- ===== src/Notification.antt =====
-- src/modules/notification/service/notification.service.ts. The text of a notification is made from its
-- kind and the name in its payload, and is left out. Rows are in the order of their creation.
pub mod Reading
use swafri_backend.Common.{
  ℕ, Bool, true, false, not, ◌&&◌, List, String, [], ◌∷◌, ◌++◌, ◌==◌, if◌then◌else◌, filter, map,
  length, take, skip, newest_first,
}

pub data NotificationType : Type 0 where
  friend_request friend_accepted game_invite game_invite_declined : NotificationType
  achievement_earned match_found : NotificationType

pub data Payload : Type 0 where
  request_from : (friendship_id requester_id : ℕ) (username : String) → Payload
  accepted_by : (friendship_id addressee_id : ℕ) (username : String) → Payload
  invite_from : (from_user_id : ℕ) (from_username : String) → Payload
  declined_by : (from_user_id : ℕ) → Payload
  achievement : (name : String) → Payload

pub record Notification : Type 0 where
  pub id : ℕ
  pub user_id : ℕ
  pub kind : NotificationType
  pub data_ : Payload
  pub read : Bool

-- An emission of `notification:live`.
pub record Live : Type 0 where
  pub socket_id : ℕ
  pub kind : NotificationType
  pub data_ : Payload

pub record Notifications : Type 0 where
  pub rows : List Notification
  pub live : List Live

-- `persist` with its errors caught: a row that the database refuses is logged and forgotten.
unfoldable pub persist :
    Notifications → (id user_id : ℕ) → NotificationType → Payload → (stored : Bool) → Notifications
persist n id user_id kind data_ stored =
    if stored
    then record n {
      rows =
          n.rows
          ++ record { id = id; user_id = user_id; kind = kind; data_ = data_; read = false } ∷ [];
    }
    else n

-- An absent user identifier is 0.
unfoldable pub send_to_user :
    Notifications
    → (id socket_id : ℕ) → NotificationType
    → Payload
    → (user_id : ℕ) → (stored : Bool) → Notifications
send_to_user n id socket_id kind data_ user_id stored =
    let sent = record n {
      live = n.live ++ record { socket_id = socket_id; kind = kind; data_ = data_ } ∷ [];
    } in
    if user_id == 0 then sent else persist sent id user_id kind data_ stored

unfoldable pub send_to_user_by_id :
    Notifications → (id user_id : ℕ) → NotificationType → Payload → (stored : Bool) → Notifications
send_to_user_by_id n id user_id kind data_ stored = persist n id user_id kind data_ stored

unfoldable pub broadcast_achievement :
    Notifications → (id socket_id : ℕ) → String → (user_id : ℕ) → (stored : Bool) → Notifications
broadcast_achievement n id socket_id name user_id stored =
    send_to_user n id socket_id achievement_earned (achievement name) user_id stored

abbrev pub is_unread_of : ℕ → Notification → Bool
is_unread_of user_id n = n.user_id == user_id && not n.read

unfoldable pub unread_count : ℕ → List Notification → ℕ
unread_count user_id rows = length (filter (is_unread_of user_id) rows)

-- The page that `getForUser` answers with: the unread rows first, each part with the newest first.
pub record Page : Type 0 where
  pub notifications : List Notification
  pub unread : ℕ

abbrev pub is_read_of : ℕ → Notification → Bool
is_read_of user_id n = n.user_id == user_id && n.read

abbrev pub inbox : ℕ → List Notification → List Notification
inbox user_id rows =
    newest_first (filter (is_unread_of user_id) rows)
    ++ newest_first (filter (is_read_of user_id) rows)

unfoldable pub get_for_user : (user_id limit offset : ℕ) → List Notification → Page
get_for_user user_id limit offset rows = record {
  notifications = take limit (skip offset (inbox user_id rows));
  unread = unread_count user_id rows;
}

abbrev pub mark_if : (Notification → Bool) → List Notification → List Notification
mark_if test [] = []
mark_if test (n ∷ ns) = (if test n then record n { read = true } else n) ∷ mark_if test ns

unfoldable pub mark_read : (id user_id : ℕ) → List Notification → List Notification
mark_read id user_id = mark_if (λ n. n.id == id && n.user_id == user_id)

unfoldable pub mark_all_read : (user_id : ℕ) → List Notification → List Notification
mark_all_read user_id = mark_if (is_unread_of user_id)
