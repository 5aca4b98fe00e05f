-- ===== src/Squad/Service/Invites.antt =====
-- When a user can be invited to a squad, and what accepting does (squad.service.ts).
pub mod Consistency
use swafri_backend.Common.{
  ℕ, ◌≡◌, refl, ap, ◌∙◌, ◌↔◌, inl, inr, true, false, ◌&&◌, none, some, List, [], ◌∷◌, ◌++◌, ◌==◌,
  if◌then◌else◌, is_some, arith, HttpException, ok, err, bad_request, Option-cases, Result-cases,
}
use swafri_backend.Friend.Friendships.{are_friends}
use swafri_backend.Squad.Store.{
  member, pending, accepted, declined, SquadInvite, SquadMember, SquadDb, squad_invite_accepted,
  has_user, role_of, invite_of, invite_by_id, update_status,
}
use swafri_backend.Squad.Service.{
  invite_to_squad, is_pending, InviteAction, accept, decline, store_answer, check_answer,
  respond_to_invite, check_is_member,
}
use swafri_backend.Squad.Service.Rows.{
  owner_of, answered, role_of-append, invite_of-append, invite_of-update, invite_by_id-update,
}
use swafri_backend.Squad.Service.Soundness.{
  append-HasUniqueKeys, update-HasUniqueKeys, invite_by_id-HasUniqueKeys, IsConsistent,
  same_owners-IsConsistent, same_roles-IsConsistent,
}
use swafri_backend.Squad.Service.Invites.Consistency.{
  by_key, accept_lem, accept-roles, accept-invites,
}

respond_to_invite-store_answer :
    (db : SquadDb) (invite_id user_id : ℕ) (i : SquadInvite) (action : InviteAction)
    → invite_by_id db.invites invite_id ≡ some i
    → i.invitee_id ≡ user_id
    → i.status ≡ pending
    → respond_to_invite db invite_id user_id action ≡ store_answer db i action
unfolding respond_to_invite check_answer
respond_to_invite-store_answer db invite_id user_id i action by_id mine open_yet = ground arith

-- An invite that is stored with another status than pending takes no answer.
respond_to_invite-closed :
    (db : SquadDb) (invite_id user_id : ℕ) (i : SquadInvite) (action : InviteAction)
    → invite_by_id db.invites invite_id ≡ some i
    → i.invitee_id ≡ user_id
    → is_pending i.status ≡ false
    → respond_to_invite db invite_id user_id action
      ≡ (db, err (bad_request "This invite has already been responded to"))
unfolding respond_to_invite check_answer
respond_to_invite-closed db invite_id user_id i action by_id mine closed = ground arith

-- When a user may be invited: an invite to the same squad that is stored already, in any status, is an
-- obstacle.
pub record MayInvite (db : SquadDb) (invite_id squad_id inviter_id user_id : ℕ) : Type 0 where
  pub inviter_inside : is_some (role_of db.members squad_id inviter_id) ≡ true
  pub known : has_user db user_id ≡ true
  pub friends : are_friends db.friendships inviter_id user_id ≡ true
  pub outside : role_of db.members squad_id user_id ≡ none
  pub uninvited : invite_of db.invites squad_id user_id ≡ none
  pub fresh : invite_by_id db.invites invite_id ≡ none

invite_to_squad-MayInvite :
    (db db' : SquadDb) (invite_id squad_id inviter_id user_id : ℕ)
    → invite_to_squad db invite_id squad_id inviter_id user_id ≡ ok db'
    → MayInvite db invite_id squad_id inviter_id user_id
unfolding invite_to_squad check_is_member
invite_to_squad-MayInvite db db' invite_id squad_id inviter_id user_id h = record {
  inviter_inside = ground arith;
  known = ground arith;
  friends = ground arith;
  outside = ground arith;
  uninvited = ground arith;
  fresh = ground arith;
}

invite_to_squad_complete :
    (db : SquadDb) (invite_id squad_id inviter_id user_id : ℕ)
    → MayInvite db invite_id squad_id inviter_id user_id
    → (db' : SquadDb) × (invite_to_squad db invite_id squad_id inviter_id user_id ≡ ok db')
unfolding invite_to_squad check_is_member
invite_to_squad_complete db invite_id squad_id inviter_id user_id m =
    rw (m.inviter_inside, m.known, m.friends, m.outside, m.uninvited, m.fresh) (_, refl)

-- An invite to a squad succeeds exactly when the inviter is a member, the invited user exists, is a
-- friend of the inviter and is no member, no invite of that user to that squad is stored, whatever its
-- status, so also none that was declined or accepted, and the new invite's identifier is not taken.
pub invite_to_squad-ok_iff :
    (db : SquadDb) (invite_id squad_id inviter_id user_id : ℕ)
    → ((db' : SquadDb) × (invite_to_squad db invite_id squad_id inviter_id user_id ≡ ok db'))
      ↔ MayInvite db invite_id squad_id inviter_id user_id
invite_to_squad-ok_iff db invite_id squad_id inviter_id user_id = (
  (λ (db', h). invite_to_squad-MayInvite db db' invite_id squad_id inviter_id user_id h),
  invite_to_squad_complete db invite_id squad_id inviter_id user_id,
)

-- A stored invite, in any status, stops every later one.
invite_to_squad-stored :
    (db : SquadDb) (invite_id squad_id inviter_id user_id : ℕ) (i : SquadInvite)
    → invite_of db.invites squad_id user_id ≡ some i
    → (e : HttpException) × (invite_to_squad db invite_id squad_id inviter_id user_id ≡ err e)
invite_to_squad-stored db invite_id squad_id inviter_id user_id i stored =
    elim (Result-cases (invite_to_squad db invite_id squad_id inviter_id user_id)) [
      | inl (e, h) ↦ (e, h)
      | inr (db', h) ↦
          let m = invite_to_squad-MayInvite db db' invite_id squad_id inviter_id user_id h in
          absurd (ground (arith, m.uninvited))
    ]

-- On consistent rows an invitee who accepts a pending invite becomes a member of the squad, without an
-- error; no other role changes, and the invite is stored as accepted, so that a second answer of any
-- kind is refused. From then on, whatever the rows of members become, as when the user leaves or is
-- kicked, nobody can invite the user to that squad: the attempt ends in an error.
pub respond_to_invite-accept :
    (db : SquadDb) (invite_id user_id : ℕ) (i : SquadInvite)
    → IsConsistent db
    → invite_by_id db.invites invite_id ≡ some i
    → i.invitee_id ≡ user_id
    → i.status ≡ pending
    → let db' = (respond_to_invite db invite_id user_id accept).0 in
      ((respond_to_invite db invite_id user_id accept).1 ≡ ok tt)
      × ((q u : ℕ)
          → role_of db'.members q u
            ≡ (if i.squad_id == q && user_id == u then some member else role_of db.members q u))
      × (invite_by_id db'.invites invite_id ≡ some (record i { status = accepted }))
      × ((action : InviteAction)
          → respond_to_invite db' invite_id user_id action
            ≡ (db', err (bad_request "This invite has already been responded to")))
      × ((members : List SquadMember) (next_id inviter_id : ℕ)
          → (e : HttpException) × (invite_to_squad
                (record db' { members = members })
                next_id
                i.squad_id
                inviter_id
                user_id
              ≡ err e))
respond_to_invite-accept db invite_id user_id i s by_id mine open_yet =
    let still = ap is_pending open_yet in
    let stored = respond_to_invite-store_answer db invite_id user_id i accept by_id mine open_yet in
    let lem = accept_lem db s i invite_id by_id still in
    let after = (store_answer db i accept).0 in
    let closed : invite_by_id after.invites invite_id ≡ some (record i { status = accepted }) =
      rw lem (ground (arith, invite_by_id-update db.invites i.id accepted invite_id)) in
    let taken : invite_of after.invites i.squad_id i.invitee_id
        ≡ some (record i { status = accepted }) =
      ground (
        arith,
        accept-invites db s i invite_id by_id still i.squad_id i.invitee_id,
        by_key db s i invite_id by_id still,
      ) in
    rw stored (
      ap (λ r. r.1) lem,
      (λ q u. rw (← mine) (accept-roles db s i invite_id by_id still q u)),
      closed,
      (λ action.
          respond_to_invite-closed after invite_id user_id (record i { status = accepted }) action
            closed mine refl),
      (λ members next_id inviter_id.
          invite_to_squad-stored (record after { members = members }) next_id i.squad_id inviter_id
            user_id (record i { status = accepted }) (rw (← mine) taken)),
    )
