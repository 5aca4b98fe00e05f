-- ===== src/Squad/Service.antt =====
-- src/modules/squad/service/squad.service.ts. New identifiers are arguments; what is selected for the
-- answer only is left out.
pub mod Rows
pub mod Soundness
pub mod Creation
pub mod Membership
pub mod Invites
pub mod Effects
use swafri_backend.Common.{
  ℕ, Bool, true, false, not, Option, none, some, String, List, [], ◌∷◌, ◌++◌, ◌==◌, if◌then◌else◌,
  is_some, length, filter, Result, ok, err, ◌>>=◌, ◌>>◌, guard, or_throw, bad_request, forbidden,
  not_found, unique_violation, database_failure,
}
use swafri_backend.Friend.Friendships.{are_friends}
use swafri_backend.Squad.Store.{
  SquadRole, owner, admin, member, InviteStatus, pending, accepted, declined, Squad, SquadMember,
  SquadInvite, squad_invite, squad_invite_accepted, squad_member_left, SquadDb, has_user,
  find_squad, role_of, delete_member, update_role, invite_of, invite_by_id, update_status,
  update_squad_row, delete_squad_row, cascade_members, cascade_invites,
}

unfoldable pub get_member_role : SquadDb → ℕ → ℕ → Option SquadRole
get_member_role db squad_id user_id = role_of db.members squad_id user_id

unfoldable pub check_is_member : SquadDb → ℕ → ℕ → Result (Unit {0})
check_is_member db squad_id user_id =
    guard (is_some (role_of db.members squad_id user_id))
      (forbidden "You are not a member of this squad")

-- `['OWNER', 'ADMIN'].includes(member.role)`.
abbrev pub is_officer : SquadRole → Bool
is_officer owner = true
is_officer admin = true
is_officer member = false

-- The two callers allow the owner and the admins.
unfoldable pub check_member_role : SquadDb → ℕ → ℕ → Result (Unit {0})
check_member_role db squad_id user_id = do
  role ←
      or_throw (role_of db.members squad_id user_id)
        (forbidden "You are not a member of this squad")
  guard (is_officer role) (forbidden "You do not have permission to perform this action")

-- The row's foreign key wants a stored user, its primary key a new identifier.
unfoldable pub create_squad :
    SquadDb → (squad_id user_id : ℕ) → String → Option String → Result SquadDb
create_squad db squad_id user_id name description = do
  guard (has_user db user_id) database_failure
  guard (not (is_some (find_squad db.squads squad_id))) unique_violation
  guard (not (is_some (role_of db.members squad_id user_id))) unique_violation
  ok (record db {
    squads =
        db.squads
        ++ record { id = squad_id; name = name; description = description; owner_id = user_id }
          ∷ [];
    members = db.members ++ record { squad_id = squad_id; user_id = user_id; role = owner } ∷ [];
  })

unfoldable pub update_squad :
    SquadDb → (squad_id user_id : ℕ) → Option String → Option String → Result SquadDb
update_squad db squad_id user_id name description = do
  check_member_role db squad_id user_id
  guard (is_some (find_squad db.squads squad_id)) database_failure
  ok (record db { squads = update_squad_row squad_id name description db.squads })

unfoldable pub delete_squad : SquadDb → (squad_id user_id : ℕ) → Result SquadDb
delete_squad db squad_id user_id = do
  squad ← or_throw (find_squad db.squads squad_id) (not_found "Squad not found")
  guard (squad.owner_id == user_id) (forbidden "Only the squad owner can delete the squad")
  ok (record db {
    squads = delete_squad_row squad_id db.squads;
    members = cascade_members squad_id db.members;
    invites = cascade_invites squad_id db.invites;
  })

abbrev pub is_pending : InviteStatus → Bool
is_pending pending = true
is_pending _ = false

abbrev pub is_pending_invite : Option SquadInvite → Bool
is_pending_invite none = false
is_pending_invite (some i) = is_pending i.status

-- The last test is the unique index on the squad and the invitee, which `create` meets.
unfoldable pub invite_to_squad :
    SquadDb → (invite_id squad_id inviter_id user_id : ℕ) → Result SquadDb
invite_to_squad db invite_id squad_id inviter_id user_id = do
  check_is_member db squad_id inviter_id
  guard (has_user db user_id) (not_found "User not found")
  guard (are_friends db.friendships inviter_id user_id)
      (bad_request "You can only invite friends to your squad")
  guard (not (is_some (role_of db.members squad_id user_id)))
      (bad_request "User is already a member of this squad")
  guard (not (is_pending_invite (invite_of db.invites squad_id user_id)))
      (bad_request "User has already been invited to this squad")
  guard (not (is_some (invite_of db.invites squad_id user_id))) unique_violation
  guard (not (is_some (invite_by_id db.invites invite_id))) unique_violation
  ok (record db {
    invites =
        db.invites
        ++ record {
          id = invite_id;
          squad_id = squad_id;
          inviter_id = inviter_id;
          invitee_id = user_id;
          status = pending;
        }
          ∷ [];
    notifications = db.notifications ++ squad_invite user_id squad_id inviter_id invite_id ∷ [];
  })

pub data InviteAction : Type 0 where
  accept decline : InviteAction

-- The writes of an answer. A membership that is there already makes `create` throw after the
-- invite's status is stored: the writes are no transaction.
unfoldable pub store_answer : SquadDb → SquadInvite → InviteAction → SquadDb × Result (Unit {0})
store_answer db i decline = (record db { invites = update_status i.id declined db.invites }, ok tt)
store_answer db i accept =
    let answered = record db { invites = update_status i.id accepted db.invites } in
    if is_some (role_of db.members i.squad_id i.invitee_id)
    then (answered, err unique_violation)
    else (
      record answered {
        members =
            db.members
            ++ record { squad_id = i.squad_id; user_id = i.invitee_id; role = member } ∷ [];
        notifications =
            db.notifications ++ squad_invite_accepted i.inviter_id i.squad_id i.invitee_id ∷ [];
      },
      ok tt,
    )

unfoldable pub check_answer : SquadDb → (invite_id user_id : ℕ) → Result SquadInvite
check_answer db invite_id user_id = do
  i ← or_throw (invite_by_id db.invites invite_id) (not_found "Invite not found")
  guard (i.invitee_id == user_id) (forbidden "This invite is not for you")
  guard (is_pending i.status) (bad_request "This invite has already been responded to")
  ok i

unfoldable pub respond_to_invite :
    SquadDb → (invite_id user_id : ℕ) → InviteAction → SquadDb × Result (Unit {0})
respond_to_invite db invite_id user_id action = elim (check_answer db invite_id user_id) [
  | err e ↦ (db, err e)
  | ok i ↦ store_answer db i action
]

unfoldable pub leave_squad : SquadDb → (squad_id user_id : ℕ) → Result SquadDb
leave_squad db squad_id user_id = do
  squad ← or_throw (find_squad db.squads squad_id) (not_found "Squad not found")
  guard (not (squad.owner_id == user_id))
      (bad_request "Squad owner cannot leave. Transfer ownership or delete the squad.")
  guard (is_some (role_of db.members squad_id user_id))
      (not_found "You are not a member of this squad")
  ok (record db { members = delete_member squad_id user_id db.members })

unfoldable pub kick_member : SquadDb → (squad_id kicker_id target_id : ℕ) → Result SquadDb
kick_member db squad_id kicker_id target_id = do
  check_member_role db squad_id kicker_id
  squad ← or_throw (find_squad db.squads squad_id) (not_found "Squad not found")
  guard (not (squad.owner_id == target_id)) (bad_request "Cannot kick the squad owner")
  guard (is_some (role_of db.members squad_id target_id))
      (not_found "User is not a member of this squad")
  ok (record db {
    members = delete_member squad_id target_id db.members;
    notifications = db.notifications ++ squad_member_left target_id squad_id kicker_id ∷ [];
  })

-- `newRole: 'ADMIN' | 'MEMBER'`.
pub data NewRole : Type 0 where
  to_admin to_member : NewRole

abbrev pub role_named : NewRole → SquadRole
role_named to_admin = admin
role_named to_member = member

unfoldable pub change_member_role :
    SquadDb → (squad_id owner_id target_id : ℕ) → NewRole → Result SquadDb
change_member_role db squad_id owner_id target_id new_role = do
  squad ← or_throw (find_squad db.squads squad_id) (not_found "Squad not found")
  guard (squad.owner_id == owner_id) (forbidden "Only the squad owner can change member roles")
  guard (not (squad.owner_id == target_id)) (bad_request "Cannot change the owner's role")
  guard (is_some (role_of db.members squad_id target_id))
      (not_found "User is not a member of this squad")
  ok (record db { members = update_role squad_id target_id (role_named new_role) db.members })

unfoldable pub get_user_invites : SquadDb → ℕ → List SquadInvite
get_user_invites db user_id =
    filter (λ (i : SquadInvite). if i.invitee_id == user_id then is_pending i.status else false)
      db.invites

pub record SquadDetails : Type 0 where
  pub squad : Squad
  pub user_role : Option SquadRole
  pub is_member : Bool
  pub member_count : ℕ

-- An absent user identifier is 0.
unfoldable pub get_squad_by_id : SquadDb → (squad_id user_id : ℕ) → Result SquadDetails
get_squad_by_id db squad_id user_id = do
  squad ← or_throw (find_squad db.squads squad_id) (not_found "Squad not found")
  let role = if user_id == 0 then none else role_of db.members squad_id user_id
  ok (record {
    squad = squad;
    user_role = role;
    is_member = is_some role;
    member_count = length (filter (λ (m : SquadMember). m.squad_id == squad_id) db.members);
  })
