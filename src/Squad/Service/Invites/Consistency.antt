-- ===== src/Squad/Service/Invites/Consistency.antt =====
-- What inviting to a squad and answering an invite (squad.service.ts) do to consistent rows.
use swafri_backend.Common.{
  ℕ, ◌≡◌, refl, ap, ◌∙◌, inl, inr, true, ◌&&◌, none, some, [], ◌∷◌, ◌++◌, ◌==◌, if◌then◌else◌,
  is_some, arith, ok, Option-cases, Result-cases,
}
use swafri_backend.Squad.Store.{
  member, pending, accepted, declined, SquadInvite, SquadDb, squad_invite_accepted, role_of,
  invite_of, invite_by_id, update_status,
}
use swafri_backend.Squad.Service.{
  invite_to_squad, is_pending, InviteAction, accept, decline, store_answer, check_answer,
  respond_to_invite, check_is_member,
}
use swafri_backend.Squad.Service.Rows.{
  owner_of, answered, role_of-append, invite_of-append, invite_of-update,
}
use swafri_backend.Squad.Service.Soundness.{
  append-HasUniqueKeys, update-HasUniqueKeys, invite_by_id-HasUniqueKeys, IsConsistent,
  same_owners-IsConsistent, same_roles-IsConsistent,
}

invite_to_squad-rows :
    (db db' : SquadDb) (invite_id squad_id inviter_id user_id : ℕ)
    → invite_to_squad db invite_id squad_id inviter_id user_id ≡ ok db'
    → (db'.squads ≡ db.squads)
      × (db'.members ≡ db.members)
      × (db'.invites
          ≡ db.invites
            ++ record {
              id = invite_id;
              squad_id = squad_id;
              inviter_id = inviter_id;
              invitee_id = user_id;
              status = pending;
            }
              ∷ [])
      × (is_some (role_of db.members squad_id inviter_id) ≡ true)
      × (role_of db.members squad_id user_id ≡ none)
      × (invite_of db.invites squad_id user_id ≡ none)
      × (invite_by_id db.invites invite_id ≡ none)
unfolding invite_to_squad check_is_member
invite_to_squad-rows db db' invite_id squad_id inviter_id user_id h = ground arith

pub invite_to_squad-IsConsistent :
    (db db' : SquadDb) (invite_id squad_id inviter_id user_id : ℕ)
    → invite_to_squad db invite_id squad_id inviter_id user_id ≡ ok db'
    → IsConsistent db
    → IsConsistent db'
invite_to_squad-IsConsistent db db' invite_id squad_id inviter_id user_id h s =
    let new : SquadInvite = record {
      id = invite_id;
      squad_id = squad_id;
      inviter_id = inviter_id;
      invitee_id = user_id;
      status = pending;
    } in
    let (squads, members, invites, inviter, outside, no_key, no_id) =
      invite_to_squad-rows db db' invite_id squad_id inviter_id user_id h in
    let found =
      λ (q u : ℕ). ap (λ z. invite_of z q u) invites ∙ invite_of-append db.invites new q u in
    same_roles-IsConsistent db db' (λ q. ap (λ z. owner_of z q) squads) members
      (rw invites (append-HasUniqueKeys db.invites new s.unique no_key no_id))
      (λ q u p.
        ground (arith, found q u, s.invites_stored q u, s.members_stored squad_id inviter_id))
      (λ q u i p k. ground (arith, found q u, s.pending_outside q u i)) s

-- A pending invite, of rows that are sound, is found by its key and its invitee is no member.
module _ (db : SquadDb) (s : IsConsistent db) (i : SquadInvite) (id : ℕ)
    (by_id : invite_by_id db.invites id ≡ some i) (open_yet : is_pending i.status ≡ true) where
  pub by_key : invite_of db.invites i.squad_id i.invitee_id ≡ some i
  by_key = invite_by_id-HasUniqueKeys db.invites id i s.unique by_id

  pub invitee_outside : role_of db.members i.squad_id i.invitee_id ≡ none
  invitee_outside = s.pending_outside i.squad_id i.invitee_id i by_key open_yet

  decline-IsConsistent : IsConsistent (store_answer db i decline).0
  unfolding store_answer
  decline-IsConsistent =
      let found = invite_of-update db.invites i.id declined in
      same_roles-IsConsistent db (store_answer db i decline).0 (λ q. refl) refl
        (update-HasUniqueKeys db.invites i.id declined s.unique)
        (λ q u p. ground (arith, found q u, s.invites_stored q u))
        (λ q u j p k. elim (Option-cases (invite_of db.invites q u)) [
          | inl a ↦ absurd (ground (arith, found q u))
          | inr (o, a) ↦ ground (arith, found q u, s.pending_outside q u o)
        ])
        s

  pub accept_lem : store_answer db i accept ≡ (
    record db {
      invites = update_status i.id accepted db.invites;
      members =
          db.members
          ++ record { squad_id = i.squad_id; user_id = i.invitee_id; role = member } ∷ [];
      notifications =
          db.notifications ++ squad_invite_accepted i.inviter_id i.squad_id i.invitee_id ∷ [];
    },
    ok tt,
  )
  unfolding store_answer
  accept_lem = rw invitee_outside refl

  pub accept-roles :
      (q u : ℕ)
      → role_of (store_answer db i accept).0.members q u
        ≡ (if i.squad_id == q && i.invitee_id == u then some member else role_of db.members q u)
  accept-roles q u = rw accept_lem (
      ground (
        arith,
        role_of-append db.members
            (record { squad_id = i.squad_id; user_id = i.invitee_id; role = member }) q u,
        invitee_outside,
      ))

  pub accept-invites :
      (q u : ℕ)
      → invite_of (store_answer db i accept).0.invites q u
        ≡ answered i.id accepted (invite_of db.invites q u)
  accept-invites q u = rw accept_lem (invite_of-update db.invites i.id accepted q u)

  accept-IsConsistent : IsConsistent (store_answer db i accept).0
  accept-IsConsistent =
      same_owners-IsConsistent db (store_answer db i accept).0 i.squad_id i.invitee_id (some member)
        (λ q. rw accept_lem refl) accept-roles
        (λ p. cc (s.owners i.squad_id i.invitee_id p, invitee_outside)) (λ p. cc)
        (s.invites_stored i.squad_id i.invitee_id (rw by_key refl))
        (rw accept_lem (update-HasUniqueKeys db.invites i.id accepted s.unique))
        (λ q u p. ground (arith, accept-invites q u, s.invites_stored q u))
        (λ q u j p k. elim (Option-cases (invite_of db.invites q u)) [
          | inl a ↦ absurd (ground (arith, accept-invites q u))
          | inr (o, a) ↦
              ground (arith, accept-invites q u, accept-roles q u, by_key, s.pending_outside q u o)
        ])
        s

check_answer-ok :
    (db : SquadDb) (invite_id user_id : ℕ) (i : SquadInvite)
    → check_answer db invite_id user_id ≡ ok i
    → (invite_by_id db.invites invite_id ≡ some i)
      × (i.invitee_id ≡ user_id)
      × (is_pending i.status ≡ true)
unfolding check_answer
check_answer-ok db invite_id user_id i h = elim (Option-cases (invite_by_id db.invites invite_id)) [
  | inl a ↦ absurd (ground arith)
  | inr (j, a) ↦ ground arith
]

pub respond_to_invite-IsConsistent :
    (db : SquadDb) (invite_id user_id : ℕ) (action : InviteAction)
    → IsConsistent db
    → IsConsistent (respond_to_invite db invite_id user_id action).0
unfolding respond_to_invite
respond_to_invite-IsConsistent db invite_id user_id action s =
    elim (Result-cases (check_answer db invite_id user_id)) [
      | inl (e, h) ↦ rw (h, respond_to_invite) s
      | inr (i, h) ↦
          let (by_id, _, open_yet) = check_answer-ok db invite_id user_id i h in
          rw (h, respond_to_invite) (answer action i by_id open_yet)
    ]
  where
    answer :
        (action : InviteAction) (i : SquadInvite)
        → invite_by_id db.invites invite_id ≡ some i
        → is_pending i.status ≡ true
        → IsConsistent (store_answer db i action).0
    answer accept i by_id o = accept-IsConsistent db s i invite_id by_id o
    answer decline i by_id o = decline-IsConsistent db s i invite_id by_id o
