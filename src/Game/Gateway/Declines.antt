-- ===== src/Game/Gateway/Declines.antt =====
-- handleInviteDecline of src/modules/game/gateway/game.gateway.ts.
use swafri_backend.Common.{ℕ, Bool, Option, none, some, String, Result, ok, err}
use swafri_backend.Friend.Online.{OnlineUsers, get_socket_id}
use swafri_backend.Notification.{
  Notifications, game_invite_declined, declined_by, send_to_user, send_to_user_by_id,
}

-- Whether `game:invite_declined` is emitted, and the notification for the inviter. The responder is read
-- from the database for the text; a read that throws ends the handler.
unfoldable pub handle_invite_decline :
    Notifications
    → OnlineUsers
    → (id from_user_id to_user_id : ℕ) → (responder : Result (Option String)) → (stored : Bool)
    → Notifications × Result (Unit {0})
handle_invite_decline n online id from_user_id to_user_id (err e) stored = (n, err e)
handle_invite_decline n online id from_user_id to_user_id (ok responder) stored = (
  elim (get_socket_id online from_user_id) [
    | none ↦
        send_to_user_by_id n id from_user_id game_invite_declined (declined_by to_user_id) stored
    | some socket_id ↦
        send_to_user n id socket_id game_invite_declined (declined_by to_user_id) from_user_id
          stored
  ],
  ok tt,
)
