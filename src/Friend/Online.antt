-- ===== src/Friend/Online.antt =====
-- src/modules/friend/service/friend.service.ts: the map of the users that are online, from user to
-- socket. The identifiers of sockets come from socket.io and are never empty.
use swafri_backend.Common.{ℕ, Option, List, lookup, insert, delete}

abbrev pub OnlineUsers : Type 0
OnlineUsers = List (ℕ × ℕ)

unfoldable pub set_user_online : OnlineUsers → ℕ → ℕ → OnlineUsers
set_user_online online user_id socket_id = insert user_id socket_id online

unfoldable pub set_user_offline : OnlineUsers → ℕ → OnlineUsers
set_user_offline online user_id = delete user_id online

unfoldable pub get_socket_id : OnlineUsers → ℕ → Option ℕ
get_socket_id online user_id = lookup user_id online
