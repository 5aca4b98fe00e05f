-- ===== src/Chat.antt =====
-- src/modules/chat/service/chat.service.ts and src/modules/chat/gateway/chat.gateway.ts. The table holds its
-- messages in the order of their creation. Contents are texts, as character codes.
pub mod History
mod Tests
use swafri_backend.Common.{
  ℕ, ◌+◌, Bool, true, false, not, ◌&&◌, Option, none, some, List, [], ◌∷◌, ◌++◌, ◌==◌,
  if◌then◌else◌, is_some, is_value, filter, take, drop_while, is_space, Result, ok, err, forbidden,
}
use swafri_backend.Squad.Store.{SquadMember, role_of}

-- The names of rooms: those that clients use, and `squad:` with the identifier of a squad.
pub data Room : Type 0 where
  plain : ℕ → Room
  of_squad : ℕ → Room

abbrev pub same_room : Room → Room → Bool
same_room (plain a) (plain b) = a == b
same_room (of_squad a) (of_squad b) = a == b
same_room (plain a) (of_squad b) = false
same_room (of_squad a) (plain b) = false

pub record ChatMessage : Type 0 where
  pub id : ℕ
  pub room : Room
  pub squad_id : Option ℕ
  pub user_id : ℕ
  pub username : ℕ
  pub content : List ℕ

unfoldable pub save_message :
    List ChatMessage → (id : ℕ) → Room → (user_id username : ℕ) → List ℕ → List ChatMessage
save_message messages id room user_id username content =
    messages
    ++ record {
      id = id;
      room = room;
      squad_id = none;
      user_id = user_id;
      username = username;
      content = content;
    }
      ∷ []

abbrev pub is_in_room : Room → ChatMessage → Bool
is_in_room room m = same_room m.room room && not (is_some m.squad_id)

unfoldable pub get_room_history : List ChatMessage → Room → (limit : ℕ) → List ChatMessage
get_room_history messages room limit = take limit (filter (is_in_room room) messages)

unfoldable pub is_squad_member : List SquadMember → (squad_id user_id : ℕ) → Bool
is_squad_member members squad_id user_id = is_some (role_of members squad_id user_id)

unfoldable pub save_squad_message :
    List SquadMember
    → List ChatMessage
    → (id squad_id user_id username : ℕ) → List ℕ
    → Result (List ChatMessage)
save_squad_message members messages id squad_id user_id username content =
    if is_squad_member members squad_id user_id
    then ok (
        messages
        ++ record {
          id = id;
          room = of_squad squad_id;
          squad_id = some squad_id;
          user_id = user_id;
          username = username;
          content = content;
        }
          ∷ [])
    else err (forbidden "You must be a squad member to send messages in this squad")

unfoldable pub get_squad_chat_history :
    List SquadMember → List ChatMessage → (squad_id user_id limit : ℕ) → Result (List ChatMessage)
get_squad_chat_history members messages squad_id user_id limit =
    if is_squad_member members squad_id user_id
    then ok (take limit (filter (λ (m : ChatMessage). is_value m.squad_id squad_id) messages))
    else err (forbidden "You must be a squad member to view squad chat")

-- What the gateway emits: a message to a room, or a room's history to the caller.
pub data ChatEvent : Type 0 where
  chat_message : Room → (id user_id username : ℕ) → List ℕ → ChatEvent
  chat_joined : Room → List ChatMessage → ChatEvent
  chat_history : Room → List ChatMessage → ChatEvent

abbrev reverse_onto : List ℕ → List ℕ → List ℕ
reverse_onto [] ys = ys
reverse_onto (x ∷ xs) ys = reverse_onto xs (x ∷ ys)

-- `String.prototype.trim`.
abbrev pub trim : List ℕ → List ℕ
trim text = reverse_onto (drop_while is_space (reverse_onto (drop_while is_space text) [])) []

abbrev pub handle_trimmed :
    List ChatMessage
    → (id : ℕ) → Room
    → (user_id username : ℕ) → List ℕ
    → List ChatMessage × List ChatEvent
handle_trimmed messages id room user_id username [] = (messages, [])
handle_trimmed messages id room user_id username (c ∷ cs) = (
  save_message messages id room user_id username (c ∷ cs),
  chat_message room id user_id username (c ∷ cs) ∷ [],
)

unfoldable pub handle_message :
    List ChatMessage
    → (id : ℕ) → Room
    → (user_id username : ℕ) → List ℕ
    → List ChatMessage × List ChatEvent
handle_message messages id room user_id username content =
    handle_trimmed messages id room user_id username (trim content)

-- The socket joins the room besides.
unfoldable pub handle_join : List ChatMessage → Room → List ChatEvent
handle_join messages room = chat_joined room (get_room_history messages room 50) ∷ []

unfoldable pub handle_history : List ChatMessage → Room → List ChatEvent
handle_history messages room = chat_history room (get_room_history messages room 50) ∷ []
