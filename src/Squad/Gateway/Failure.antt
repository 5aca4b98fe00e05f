-- ===== src/Squad/Gateway/Failure.antt =====
-- A room that cannot be created, in squad.gateway.ts.
use swafri_backend.Common.{
  ℕ, ◌≡◌, refl, ap, ◌∙◌, inl, inr, true, false, Option, none, some, String, List, [], ◌∷◌, ◌++◌,
  append-nil, is_some, lookup, insert, lookup-insert, arith, Bool-cases, Option-cases,
}
use swafri_backend.Game.Room.{Players, new_player, create_room, PlayerState}
use swafri_backend.Matchmaking.{WalletRow, address_in, verified_in}
use swafri_backend.Squad.Store.{SquadDb}
use swafri_backend.Squad.Service.{get_member_role}
use swafri_backend.Squad.Hill.{SquadGameState, Starts, join_queue}
use swafri_backend.Squad.Hill.Queueing.{try_start_match-busy}
use swafri_backend.Squad.Gateway.{
  Starting, SquadGateway, put_state, handle_join_queue, room_created,
}

-- A join during a match only lengthens the queue.
join_queue-busy :
    (players : Players) (s : SquadGameState) (r : ℕ) (t : SquadGameState × Starts)
    → s.is_match_in_progress ≡ true
    → join_queue players s r ≡ some t
    → t ≡ (record s { queue = s.queue ++ r ∷ [] }, [])
unfolding join_queue
join_queue-busy players s r t busy h =
    let e = try_start_match-busy (record s { queue = s.queue ++ r ∷ [] }) busy in ground (arith, e)

-- The squad is in a match, of this room.
pub record IsBusy (g : SquadGateway) (squad_id : ℕ) (room_id : Option ℕ) (starting : List Starting)
    : Type 0 where
  pub state : SquadGameState
  pub kept : lookup squad_id g.squad_game_states ≡ some state
  pub busy : state.is_match_in_progress ≡ true
  pub room : state.current_room_id ≡ room_id
  pub starts : g.starting ≡ starting

put_state-IsBusy :
    (g : SquadGateway) (squad_id : ℕ) (room_id : Option ℕ) (s : SquadGameState)
    (starting : List Starting)
    → s.is_match_in_progress ≡ true
    → s.current_room_id ≡ room_id
    → g.starting ≡ starting
    → IsBusy (put_state g squad_id (s, [])) squad_id room_id starting
put_state-IsBusy g squad_id room_id s starting busy room e = record {
  state = s;
  kept = ground (arith, lookup-insert squad_id squad_id s g.squad_game_states);
  busy = busy;
  room = room;
  starts = append-nil g.starting ∙ e;
}

handle_join_queue-IsBusy :
    (g : SquadGateway) (db : SquadDb) (squad_id user_id : ℕ) (username : String) (socket_id : ℕ)
    (row : Option WalletRow) (room_id : Option ℕ) (starting : List Starting)
    → IsBusy g squad_id room_id starting
    → IsBusy
        (handle_join_queue g db squad_id user_id username socket_id row).0
        squad_id
        room_id
        starting
unfolding handle_join_queue
handle_join_queue-IsBusy g db squad_id user_id username socket_id row room_id starting i =
    elim (Bool-cases (is_some (get_member_role db squad_id user_id))) [
      | inr a ↦ rw (a, handle_join_queue) i
      | inl a ↦
          let entry : PlayerState = record {
            user_id = user_id;
            username = username;
            socket_id = socket_id;
            wallet_address = address_in row;
            wallet_verified_at = verified_in row;
            move = none;
          } in
          let game = new_player g.game entry in
          elim (Option-cases (join_queue game.players i.state g.game.next)) [
            | inl e ↦
                rw (handle_join_queue, a, i.kept, e)
                  (record {
                    state = i.state;
                    kept =
                        ground (arith, lookup-insert squad_id squad_id i.state g.squad_game_states);
                    busy = i.busy;
                    room = i.room;
                    starts = i.starts;
                  })
            | inr (t, e) ↦
                let queued = join_queue-busy game.players i.state g.game.next t i.busy e in
                rw (handle_join_queue, a, i.kept, e ∙ ap some queued)
                  (put_state-IsBusy
                    (record g {
                      game = game;
                      socket_to_squad = insert socket_id squad_id g.socket_to_squad;
                    })
                    squad_id room_id (record i.state { queue = i.state.queue ++ g.game.next ∷ [] })
                    starting i.busy i.room i.starts)
          ]
    ]

-- When the creation of a squad's room fails, the squad stays in a match without a room: the pair is
-- no longer starting, and whoever joins the queue afterwards, no match starts.
pub room_created-refused :
    (g : SquadGateway) (before : List Starting) (p : Starting) (after : List Starting)
    (room_id match_id now : ℕ) (s : SquadGameState)
    → lookup p.squad_id g.squad_game_states ≡ some s
    → s.is_match_in_progress ≡ true
    → s.current_room_id ≡ none
    → (db : SquadDb) (user_id : ℕ) (username : String) (socket_id : ℕ) (row : Option WalletRow)
    → IsBusy
        (handle_join_queue
          (room_created g before p after room_id match_id now false)
          db
          p.squad_id
          user_id
          username
          socket_id
          row).0
        p.squad_id
        none
        (before ++ after)
unfolding room_created create_room
room_created-refused g before p after room_id match_id now s found busy room db user_id username
      socket_id row =
    handle_join_queue-IsBusy (room_created g before p after room_id match_id now false) db
      p.squad_id user_id username socket_id row none (before ++ after)
      (record { state = s; kept = found; busy = busy; room = room; starts = refl })
