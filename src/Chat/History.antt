-- ===== src/Chat/History.antt =====
-- What the history of src/modules/chat/service/chat.service.ts shows of the messages that are sent.
use swafri_backend.Common.{
  ℕ, ◌≡◌, refl, ap, ◌∙◌, true, none, List, [], ◌∷◌, ◌++◌, if◌then◌else◌, ltb, length, filter, take,
  filter-append, take-append, arith,
}
use swafri_backend.Chat.{
  Room, plain, of_squad, same_room, ChatMessage, is_in_room, save_message, get_room_history,
}

-- The row of a message to a room.
abbrev pub row : (id : ℕ) → Room → (user_id username : ℕ) → List ℕ → ChatMessage
row id room user_id username content = record {
  id = id;
  room = room;
  squad_id = none;
  user_id = user_id;
  username = username;
  content = content;
}

same_room_refl : (room : Room) → same_room room room ≡ true
same_room_refl (plain a) = ground arith
same_room_refl (of_squad a) = ground arith

-- A message that is saved to a room comes last in the room's history if the history has fewer messages
-- than its limit; otherwise the history stays as it is, so it shows the oldest messages.
pub get_room_history-save_message :
    (messages : List ChatMessage) (id : ℕ) (room : Room) (user_id username : ℕ) (content : List ℕ)
    (limit : ℕ)
    → get_room_history (save_message messages id room user_id username content) room limit ≡ (
        if ltb (length (get_room_history messages room limit)) limit
        then get_room_history messages room limit ++ row id room user_id username content ∷ []
        else get_room_history messages room limit)
unfolding get_room_history save_message
get_room_history-save_message messages id room user_id username content limit =
    ap (take limit) added ∙ take-append limit (filter (is_in_room room) messages) _
  where
    added :
        filter (is_in_room room) (messages ++ row id room user_id username content ∷ [])
        ≡ filter (is_in_room room) messages ++ row id room user_id username content ∷ []
    added =
        filter-append (is_in_room room) messages (row id room user_id username content ∷ [])
        ∙ (rw (same_room_refl room) refl)
