-- ===== src/Squad/Tests.antt =====
-- Tests of the squads, and the theorems at concrete inputs.
use swafri_backend.Common.{
  ℕ, ◌+◌, ◌≡◌, refl, false, ◌≢◌, true, ◌&&◌, none, some, List, [], ◌∷◌, ◌==◌, if◌then◌else◌,
  is_some, ◌↔◌, HttpException, Result, ok, err, bad_request, unique_violation,
}
use swafri_backend.Friend.Friendships.{Friendship, accepted, are_friends}
use swafri_backend.Squad.Store.{
  SquadRole, owner, member, SquadInvite, SquadMember, SquadDb, role_of, invite_by_id, InviteStatus,
  pending,
}
use swafri_backend.Squad.Service.{
  create_squad, invite_to_squad, InviteAction, accept, decline, respond_to_invite, store_answer,
  check_answer, check_is_member, check_member_role, is_officer, kick_member, to_admin, role_named,
  change_member_role,
}
use swafri_backend.Game.Room.{Players}
use swafri_backend.Game.Room.Service.{new_service}
use swafri_backend.Squad.Hill.{SquadGameState}
use swafri_backend.Squad.Gateway.{Starting, SquadGateway, handle_join_queue, room_created}
use swafri_backend.Squad.Gateway.Failure.{IsBusy, room_created-refused}
use swafri_backend.Squad.Service.Soundness.{IsConsistent}
use swafri_backend.Squad.Service.Invites.{
  respond_to_invite-accept, MayInvite, invite_to_squad-ok_iff,
}
use swafri_backend.Squad.Service.Effects.{
  new_db, Reach, start, create, invite, respond, Reach-IsConsistent, kick_member_lem,
  change_member_role_lem,
}

abbrev friends : List Friendship
friends = record { id = 90; requester_id = 1; addressee_id = 2; status = accepted } ∷ []

abbrev or_same : SquadDb → Result SquadDb → SquadDb
or_same db (ok db') = db'
or_same db (err e) = db

abbrev empty : SquadDb
unfolding new_db
empty = new_db (1 ∷ 2 ∷ []) friends

abbrev founded : SquadDb
unfolding empty create_squad
founded = or_same empty (create_squad empty 5 1 "rockers" none)

abbrev invited : SquadDb
unfolding founded invite_to_squad check_is_member are_friends
invited = or_same founded (invite_to_squad founded 70 5 1 2)

abbrev joined : SquadDb
unfolding invited respond_to_invite check_answer store_answer
joined = (respond_to_invite invited 70 2 accept).0

abbrev refused : SquadDb
unfolding invited respond_to_invite check_answer store_answer
refused = (respond_to_invite invited 70 2 decline).0

bob_joins : role_of joined.members 5 2 ≡ some member
unfolding joined
bob_joins = refl

invited-Reach : Reach invited
unfolding invited
invited-Reach =
    invite {db = founded} 70 5 1 2 refl
      (create {db = empty} 5 1 "rockers" none refl (start (1 ∷ 2 ∷ []) friends))

joined-Reach : Reach joined
unfolding joined
joined-Reach = respond {db = invited} 70 2 accept invited-Reach

Reach-IsConsistent_example : IsConsistent joined
Reach-IsConsistent_example = Reach-IsConsistent joined-Reach

abbrev the_invite : SquadInvite
the_invite = record { id = 70; squad_id = 5; inviter_id = 1; invitee_id = 2; status = pending }

respond_to_invite-accept_example :
    let db' = (respond_to_invite invited 70 2 accept).0 in
    ((respond_to_invite invited 70 2 accept).1 ≡ ok tt)
    × ((q u : ℕ)
        → role_of db'.members q u ≡ (
            if the_invite.squad_id == q && 2 == u
            then some member
            else role_of invited.members q u))
    × (invite_by_id db'.invites 70 ≡ some (record the_invite { status = InviteStatus.accepted }))
    × ((action : InviteAction)
        → respond_to_invite db' 70 2 action
          ≡ (db', err (bad_request "This invite has already been responded to")))
    × ((members : List SquadMember) (next_id inviter_id : ℕ)
        → (e : HttpException) × (invite_to_squad
              (record db' { members = members })
              next_id
              5
              inviter_id
              2
            ≡ err e))
unfolding invited
respond_to_invite-accept_example =
    respond_to_invite-accept invited 70 2 the_invite (Reach-IsConsistent invited-Reach) refl refl
      refl

-- After a decline every check of the service passes, and the insert fails.
declined_again : invite_to_squad refused 71 5 1 2 ≡ err unique_violation
unfolding refused are_friends invite_to_squad check_is_member
declined_again = refl

invite_to_squad-ok_iff_example :
    ((db' : SquadDb) × (invite_to_squad founded 70 5 1 2 ≡ ok db')) ↔ MayInvite founded 70 5 1 2
invite_to_squad-ok_iff_example = invite_to_squad-ok_iff founded 70 5 1 2

abbrev kicked : SquadDb
unfolding joined kick_member check_member_role
kicked = or_same joined (kick_member joined 5 1 2)

kick_member_lem_example :
    ((role : SquadRole) × (role_of joined.members 5 1 ≡ some role) × (is_officer role ≡ true))
    × (is_some (role_of joined.members 5 2) ≡ true)
    × (role_of joined.members 5 2 ≢ some owner)
    × ((q u : ℕ)
        → role_of kicked.members q u
          ≡ (if 5 == q && 2 == u then none else role_of joined.members q u))
unfolding kicked
kick_member_lem_example = kick_member_lem joined kicked 5 1 2 (Reach-IsConsistent joined-Reach) refl

abbrev promoted : SquadDb
unfolding joined change_member_role
promoted = or_same joined (change_member_role joined 5 1 2 to_admin)

change_member_role_lem_example :
    (role_of joined.members 5 1 ≡ some owner)
    × (◌≢◌ {A = ℕ} 1 2)
    × (role_named to_admin ≢ owner)
    × ((q u : ℕ)
        → role_of promoted.members q u
          ≡ (if 5 == q && 2 == u then some (role_named to_admin) else role_of joined.members q u))
unfolding promoted
change_member_role_lem_example =
    change_member_role_lem joined promoted 5 1 2 to_admin (Reach-IsConsistent joined-Reach) refl

abbrev listed : List SquadMember
listed =
    record { squad_id = 5; user_id = 1; role = owner }
    ∷ record { squad_id = 5; user_id = 2; role = member }
    ∷ []

-- A match between the first two entries whose room is being created.
abbrev running : SquadGameState
running = record {
  champion = some 0;
  challenger = some 1;
  queue = [];
  current_room_id = none;
  is_match_in_progress = true;
}

abbrev pair : Starting
pair = record { squad_id = 5; champion = 0; challenger = 1 }

abbrev unnamed : Players
unnamed r = record {
  user_id = r + 7;
  username = "";
  socket_id = r + 11;
  wallet_address = none;
  wallet_verified_at = none;
  move = none;
}

abbrev gateway : SquadGateway
unfolding new_service
gateway = record {
  squad_game_states = (5, running) ∷ [];
  socket_to_squad = [];
  starting = pair ∷ [];
  game = new_service unnamed;
}

room_created-refused_example :
    IsBusy
      (handle_join_queue
        (room_created gateway [] pair [] 30 40 100 false)
        joined
        5
        2
        "bob"
        12
        none).0
      5
      none
      []
unfolding gateway
room_created-refused_example =
    room_created-refused gateway [] pair [] 30 40 100 running refl refl refl joined 2 "bob" 12 none
