-- ===== src/Chat/Tests.antt =====
-- A history of two messages that is full.
use swafri_backend.Common.{◌≡◌, List, [], ◌∷◌, codes}
use swafri_backend.Chat.{plain, ChatMessage, save_message, get_room_history}
use swafri_backend.Chat.History.{row, get_room_history-save_message}

abbrev messages : List ChatMessage
messages = row 1 (plain 4) 1 1 (codes "hello") ∷ row 2 (plain 4) 2 2 (codes "hi") ∷ []

get_room_history-save_message_example :
    get_room_history (save_message messages 3 (plain 4) 1 1 (codes "bye")) (plain 4) 2 ≡ messages
unfolding get_room_history
get_room_history-save_message_example =
    get_room_history-save_message messages 3 (plain 4) 1 1 (codes "bye") 2
