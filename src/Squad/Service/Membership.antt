-- ===== src/Squad/Service/Membership.antt =====
-- Leaving, kicking, changing roles, inviting and answering keeps the rows sound (squad.service.ts).
use swafri_backend.Common.{
  ℕ, ◌≡◌, ap, ◌∙◌, ◌≢◌, inl, inr, true, none, some, is_some, arith, ok, Option-cases,
}
use swafri_backend.Squad.Store.{
  SquadRole, owner, Squad, SquadDb, find_squad, role_of, delete_member, update_role,
}
use swafri_backend.Squad.Service.{
  leave_squad, kick_member, check_member_role, NewRole, role_named, change_member_role,
}
use swafri_backend.Squad.Service.Rows.{
  owner_of, owner_of-find_squad, role_of-delete_member, role_of-update_role,
}
use swafri_backend.Squad.Service.Soundness.{IsConsistent, same_owners-IsConsistent}

-- A member who is not the owner, of a squad that is stored, is taken out or gets another role.
module _ (db db' : SquadDb) (squad_id user_id : ℕ) (squad : Squad)
    (found : find_squad db.squads squad_id ≡ some squad) (other : squad.owner_id ≢ user_id)
    (invites : db'.invites ≡ db.invites) (squads : db'.squads ≡ db.squads) where
  not_owner : owner_of db.squads squad_id ≢ some user_id
  not_owner e = other (ground (arith, owner_of-find_squad db.squads squad_id squad))

  stored : is_some (owner_of db.squads squad_id) ≡ true
  stored = ground (arith, owner_of-find_squad db.squads squad_id squad)

  removal-IsConsistent :
      db'.members ≡ delete_member squad_id user_id db.members → IsConsistent db → IsConsistent db'
  removal-IsConsistent e s =
      let roles = λ (q u : ℕ).
        ap (λ z. role_of z q u) e ∙ role_of-delete_member db.members squad_id user_id q u in
      same_owners-IsConsistent db db' squad_id user_id none (λ q. ap (λ z. owner_of z q) squads)
        roles not_owner (λ p. cc) stored (rw invites s.unique)
        (λ q u p. ground (arith, s.invites_stored q u))
        (λ q u i p k. ground (arith, roles q u, s.pending_outside q u i)) s

  new_role-IsConsistent :
      (role : SquadRole)
      → role ≢ owner
      → is_some (role_of db.members squad_id user_id) ≡ true
      → db'.members ≡ update_role squad_id user_id role db.members
      → IsConsistent db
      → IsConsistent db'
  new_role-IsConsistent role lower present e s =
      let roles = λ (q u : ℕ).
        ap (λ z. role_of z q u) e ∙ role_of-update_role db.members squad_id user_id role q u in
      same_owners-IsConsistent db db' squad_id user_id (some role)
        (λ q. ap (λ z. owner_of z q) squads) (λ q u. ground (arith, roles q u)) not_owner
        (λ p. lower (ground arith)) stored (rw invites s.unique)
        (λ q u p. ground (arith, s.invites_stored q u))
        (λ q u i p k. ground (arith, roles q u, s.pending_outside q u i)) s

pub leave_squad-IsConsistent :
    (db db' : SquadDb) (squad_id user_id : ℕ)
    → leave_squad db squad_id user_id ≡ ok db'
    → IsConsistent db
    → IsConsistent db'
unfolding leave_squad
leave_squad-IsConsistent db db' squad_id user_id h =
    elim (Option-cases (find_squad db.squads squad_id)) [
      | inl a ↦ absurd (ground arith)
      | inr (squad, a) ↦
          removal-IsConsistent db db' squad_id user_id squad a (ground arith) (ground arith)
            (ground arith) (ground arith)
    ]

pub kick_member-IsConsistent :
    (db db' : SquadDb) (squad_id kicker_id target_id : ℕ)
    → kick_member db squad_id kicker_id target_id ≡ ok db'
    → IsConsistent db
    → IsConsistent db'
unfolding kick_member check_member_role
kick_member-IsConsistent db db' squad_id kicker_id target_id h =
    elim (Option-cases (find_squad db.squads squad_id)) [
      | inl a ↦ absurd (ground arith)
      | inr (squad, a) ↦
          removal-IsConsistent db db' squad_id target_id squad a (ground arith) (ground arith)
            (ground arith) (ground arith)
    ]

pub change_member_role-IsConsistent :
    (db db' : SquadDb) (squad_id owner_id target_id : ℕ) (new_role : NewRole)
    → change_member_role db squad_id owner_id target_id new_role ≡ ok db'
    → IsConsistent db
    → IsConsistent db'
unfolding change_member_role
change_member_role-IsConsistent db db' squad_id owner_id target_id new_role h =
    elim (Option-cases (find_squad db.squads squad_id)) [
      | inl a ↦ absurd (ground arith)
      | inr (squad, a) ↦
          new_role-IsConsistent db db' squad_id target_id squad a (ground arith) (ground arith)
            (ground arith) (role_named new_role) (ground arith) (ground arith) (ground arith)
    ]
