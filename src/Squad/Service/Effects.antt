-- ===== src/Squad/Service/Effects.antt =====
-- Histories of the operations of squad.service.ts, and who may change a membership.
use swafri_backend.Common.{
  ℕ, ◌≡◌, refl, ap, ◌∙◌, ◌≢◌, inl, inr, true, ◌&&◌, Option, none, some, String, List, [], ◌==◌,
  if◌then◌else◌, is_some, arith, ok, Option-cases,
}
use swafri_backend.Friend.Friendships.{Friendship}
use swafri_backend.Squad.Store.{
  SquadRole, owner, SquadDb, Notification, find_squad, role_of, delete_member, update_role,
}
use swafri_backend.Squad.Service.{
  create_squad, update_squad, delete_squad, invite_to_squad, InviteAction, respond_to_invite,
  leave_squad, kick_member, is_officer, check_member_role, NewRole, role_named, change_member_role,
}
use swafri_backend.Squad.Service.Rows.{
  owner_of-find_squad, role_of-delete_member, role_of-update_role,
}
use swafri_backend.Squad.Service.Soundness.{IsConsistent}
use swafri_backend.Squad.Service.Creation.{
  create_squad-IsConsistent, update_squad-IsConsistent, delete_squad-IsConsistent,
}
use swafri_backend.Squad.Service.Membership.{
  leave_squad-IsConsistent, kick_member-IsConsistent, change_member_role-IsConsistent,
}
use swafri_backend.Squad.Service.Invites.Consistency.{
  invite_to_squad-IsConsistent, respond_to_invite-IsConsistent,
}

-- No squads yet, with the users and friendships that there are.
unfoldable pub new_db : List ℕ → List Friendship → SquadDb
new_db users friendships = record {
  squads = [];
  members = [];
  invites = [];
  users = users;
  friendships = friendships;
  notifications = [];
}

-- The rows that the operations lead to, in any order; other services change the users, the
-- friendships and the notifications.
pub data Reach : SquadDb → Type 0 where
  start : (users : List ℕ) (friendships : List Friendship) → Reach (new_db users friendships)
  others :
      {db : SquadDb} (users : List ℕ) (friendships : List Friendship)
      (notifications : List Notification)
      → Reach db
      → Reach
          (record db { users = users; friendships = friendships; notifications = notifications })
  create :
      {db db' : SquadDb} (squad_id user_id : ℕ) (name : String) (description : Option String)
      → create_squad db squad_id user_id name description ≡ ok db'
      → Reach db
      → Reach db'
  update :
      {db db' : SquadDb} (squad_id user_id : ℕ) (name description : Option String)
      → update_squad db squad_id user_id name description ≡ ok db'
      → Reach db
      → Reach db'
  remove :
      {db db' : SquadDb} (squad_id user_id : ℕ)
      → delete_squad db squad_id user_id ≡ ok db'
      → Reach db
      → Reach db'
  invite :
      {db db' : SquadDb} (invite_id squad_id inviter_id user_id : ℕ)
      → invite_to_squad db invite_id squad_id inviter_id user_id ≡ ok db'
      → Reach db
      → Reach db'
  respond :
      {db : SquadDb} (invite_id user_id : ℕ) (action : InviteAction)
      → Reach db
      → Reach (respond_to_invite db invite_id user_id action).0
  leave :
      {db db' : SquadDb} (squad_id user_id : ℕ)
      → leave_squad db squad_id user_id ≡ ok db'
      → Reach db
      → Reach db'
  kick :
      {db db' : SquadDb} (squad_id kicker_id target_id : ℕ)
      → kick_member db squad_id kicker_id target_id ≡ ok db'
      → Reach db
      → Reach db'
  change :
      {db db' : SquadDb} (squad_id owner_id target_id : ℕ) (new_role : NewRole)
      → change_member_role db squad_id owner_id target_id new_role ≡ ok db'
      → Reach db
      → Reach db'

new_db-IsConsistent :
    (users : List ℕ) (friendships : List Friendship) → IsConsistent (new_db users friendships)
unfolding new_db
new_db-IsConsistent users friendships = record {
  owners = λ q u e. cc;
  only_owners = λ q u e. cc;
  members_stored = λ q u e. cc;
  unique = tt;
  invites_stored = λ q u e. cc;
  pending_outside = λ q u i e p. refl;
}

-- After any history of the operations, whatever the other services do to the users, the friendships
-- and the notifications: in every squad its owner has the role of an owner and nobody else has,
-- members and invites are of stored squads, the two keys of the invites are unique, and whoever has a
-- pending invite to a squad is no member of it.
pub Reach-IsConsistent : {db : SquadDb} → Reach db → IsConsistent db
Reach-IsConsistent (start users friendships) = new_db-IsConsistent users friendships
Reach-IsConsistent (others {db} users friendships notifications r) =
    let s = Reach-IsConsistent r in
    record {
      owners = s.owners;
      only_owners = s.only_owners;
      members_stored = s.members_stored;
      unique = s.unique;
      invites_stored = s.invites_stored;
      pending_outside = s.pending_outside;
    }
Reach-IsConsistent (create {db} {db'} squad_id user_id name description h r) =
    create_squad-IsConsistent db db' squad_id user_id name description h (Reach-IsConsistent r)
Reach-IsConsistent (update {db} {db'} squad_id user_id name description h r) =
    update_squad-IsConsistent db db' squad_id user_id name description h (Reach-IsConsistent r)
Reach-IsConsistent (remove {db} {db'} squad_id user_id h r) =
    delete_squad-IsConsistent db db' squad_id user_id h (Reach-IsConsistent r)
Reach-IsConsistent (invite {db} {db'} invite_id squad_id inviter_id user_id h r) =
    invite_to_squad-IsConsistent db db' invite_id squad_id inviter_id user_id h
      (Reach-IsConsistent r)
Reach-IsConsistent (respond {db} invite_id user_id action r) =
    respond_to_invite-IsConsistent db invite_id user_id action (Reach-IsConsistent r)
Reach-IsConsistent (leave {db} {db'} squad_id user_id h r) =
    leave_squad-IsConsistent db db' squad_id user_id h (Reach-IsConsistent r)
Reach-IsConsistent (kick {db} {db'} squad_id kicker_id target_id h r) =
    kick_member-IsConsistent db db' squad_id kicker_id target_id h (Reach-IsConsistent r)
Reach-IsConsistent (change {db} {db'} squad_id owner_id target_id new_role h r) =
    change_member_role-IsConsistent db db' squad_id owner_id target_id new_role h
      (Reach-IsConsistent r)

-- On consistent rows a kick that succeeds was made by the owner or an admin of the squad, against a member
-- who is not its owner; it takes that membership away and leaves every other role as it was.
pub kick_member_lem :
    (db db' : SquadDb) (squad_id kicker_id target_id : ℕ)
    → IsConsistent db
    → kick_member db squad_id kicker_id target_id ≡ ok db'
    → ((role : SquadRole) × (role_of db.members squad_id kicker_id ≡ some role)
        × (is_officer role ≡ true))
      × (is_some (role_of db.members squad_id target_id) ≡ true)
      × (role_of db.members squad_id target_id ≢ some owner)
      × ((q u : ℕ)
          → role_of db'.members q u
            ≡ (if squad_id == q && target_id == u then none else role_of db.members q u))
unfolding kick_member check_member_role
kick_member_lem db db' squad_id kicker_id target_id s h =
    elim (Option-cases (find_squad db.squads squad_id)) [
      | inl a ↦ absurd (ground arith)
      | inr (squad, a) ↦ elim (Option-cases (role_of db.members squad_id kicker_id)) [
        | inl b ↦ absurd (ground arith)
        | inr (role, b) ↦
            let e : db'.members ≡ delete_member squad_id target_id db.members = ground arith in
            (
              (role, b, ground arith),
              ground arith,
              (λ o. absurd (
                  ground (
                    arith,
                    owner_of-find_squad db.squads squad_id squad,
                    s.only_owners squad_id target_id o,
                  ))),
              (λ q u.
                  ap (λ z. role_of z q u) e
                  ∙ role_of-delete_member db.members squad_id target_id q u),
            )
      ]
    ]

-- On consistent rows a change of role that succeeds was made by the owner of the squad, for another member;
-- that member has the new role, which is never the owner's, and every other role stays.
pub change_member_role_lem :
    (db db' : SquadDb) (squad_id owner_id target_id : ℕ) (new_role : NewRole)
    → IsConsistent db
    → change_member_role db squad_id owner_id target_id new_role ≡ ok db'
    → (role_of db.members squad_id owner_id ≡ some owner)
      × (owner_id ≢ target_id)
      × (role_named new_role ≢ owner)
      × ((q u : ℕ)
          → role_of db'.members q u ≡ (
              if squad_id == q && target_id == u
              then some (role_named new_role)
              else role_of db.members q u))
unfolding change_member_role
change_member_role_lem db db' squad_id owner_id target_id new_role s h =
    elim (Option-cases (find_squad db.squads squad_id)) [
      | inl a ↦ absurd (ground arith)
      | inr (squad, a) ↦
          let e : db'.members ≡ update_role squad_id target_id (role_named new_role) db.members =
            ground arith in
          (
            s.owners squad_id owner_id
                (ground (arith, owner_of-find_squad db.squads squad_id squad)),
            ground arith,
            ground arith,
            (λ q u. ground (
              arith,
              ap (λ z. role_of z q u) e,
              role_of-update_role db.members squad_id target_id (role_named new_role) q u,
            )),
          )
    ]
