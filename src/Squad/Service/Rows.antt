-- ===== src/Squad/Service/Rows.antt =====
-- How each write of squad.service.ts changes what the reads find.
use swafri_backend.Common.{
  ℕ, ◌≡◌, refl, Bool, ◌&&◌, Option, none, some, String, List, [], ◌∷◌, ◌++◌, ◌==◌, if◌then◌else◌,
  is_some, arith,
}
use swafri_backend.Squad.Store.{
  SquadRole, InviteStatus, Squad, SquadMember, SquadInvite, find_squad, is_membership, role_of,
  delete_member, update_role, invite_of, invite_by_id, update_status, update_squad_row,
  delete_squad_row, cascade_members, cascade_invites,
}

-- The owner of a squad that is stored.
abbrev pub owner_of : List Squad → ℕ → Option ℕ
owner_of [] id = none
owner_of (s ∷ squads) id = if s.id == id then some s.owner_id else owner_of squads id

abbrev pub or_else {ℓ} : {A : Type ℓ} → Option A → Option A → Option A
or_else none b = b
or_else (some a) b = some a

pub owner_of-find_squad :
    (squads : List Squad) (id : ℕ) (s : Squad)
    → find_squad squads id ≡ some s
    → owner_of squads id ≡ some s.owner_id
owner_of-find_squad [] id s h = absurd (ground arith)
owner_of-find_squad (q ∷ squads) id s h = ground (arith, owner_of-find_squad squads id s)

pub owner_of-none :
    (squads : List Squad) (id : ℕ) → is_some (find_squad squads id) ≡ is_some (owner_of squads id)
owner_of-none [] id = refl
owner_of-none (q ∷ squads) id = ground (arith, owner_of-none squads id)

pub owner_of-append :
    (squads : List Squad) (s : Squad) (id : ℕ)
    → owner_of (squads ++ s ∷ []) id
      ≡ or_else (owner_of squads id) (if s.id == id then some s.owner_id else none)
owner_of-append [] s id = ground arith
owner_of-append (q ∷ squads) s id = ground (arith, owner_of-append squads s id)

pub owner_of-update :
    (squads : List Squad) (id : ℕ) (name description : Option String) (asked : ℕ)
    → owner_of (update_squad_row id name description squads) asked ≡ owner_of squads asked
owner_of-update [] id name description asked = refl
owner_of-update (s ∷ squads) id name description asked =
    ground (arith, owner_of-update squads id name description asked)

pub owner_of-delete :
    (squads : List Squad) (id asked : ℕ)
    → owner_of (delete_squad_row id squads) asked
      ≡ (if id == asked then none else owner_of squads asked)
owner_of-delete [] id asked = ground arith
owner_of-delete (s ∷ squads) id asked = ground (arith, owner_of-delete squads id asked)

pub role_of-append :
    (ms : List SquadMember) (m : SquadMember) (q u : ℕ)
    → role_of (ms ++ m ∷ []) q u
      ≡ or_else (role_of ms q u) (if is_membership q u m then some m.role else none)
role_of-append [] m q u = ground arith
role_of-append (x ∷ ms) m q u = ground (arith, role_of-append ms m q u)

pub role_of-delete_member :
    (ms : List SquadMember) (squad_id user_id q u : ℕ)
    → role_of (delete_member squad_id user_id ms) q u
      ≡ (if squad_id == q && user_id == u then none else role_of ms q u)
role_of-delete_member [] squad_id user_id q u = ground arith
role_of-delete_member (m ∷ ms) squad_id user_id q u =
    ground (arith, role_of-delete_member ms squad_id user_id q u)

-- The role that a change of one membership leaves.
abbrev pub changed : Bool → SquadRole → Option SquadRole → Option SquadRole
changed hit role none = none
changed hit role (some old) = some (if hit then role else old)

pub role_of-update_role :
    (ms : List SquadMember) (squad_id user_id : ℕ) (role : SquadRole) (q u : ℕ)
    → role_of (update_role squad_id user_id role ms) q u
      ≡ changed (squad_id == q && user_id == u) role (role_of ms q u)
role_of-update_role [] squad_id user_id role q u = refl
role_of-update_role (m ∷ ms) squad_id user_id role q u =
    ground (arith, role_of-update_role ms squad_id user_id role q u)

pub role_of-cascade :
    (ms : List SquadMember) (id q u : ℕ)
    → role_of (cascade_members id ms) q u ≡ (if id == q then none else role_of ms q u)
role_of-cascade [] id q u = ground arith
role_of-cascade (m ∷ ms) id q u = ground (arith, role_of-cascade ms id q u)

pub invite_of-append :
    (is : List SquadInvite) (i : SquadInvite) (q u : ℕ)
    → invite_of (is ++ i ∷ []) q u
      ≡ or_else (invite_of is q u) (if i.squad_id == q && i.invitee_id == u then some i else none)
invite_of-append [] i q u = ground arith
invite_of-append (x ∷ is) i q u = ground (arith, invite_of-append is i q u)

pub invite_by_id-append :
    (is : List SquadInvite) (i : SquadInvite) (id : ℕ)
    → invite_by_id (is ++ i ∷ []) id
      ≡ or_else (invite_by_id is id) (if i.id == id then some i else none)
invite_by_id-append [] i id = ground arith
invite_by_id-append (x ∷ is) i id = ground (arith, invite_by_id-append is i id)

-- The row that an answer leaves.
abbrev pub answered : ℕ → InviteStatus → Option SquadInvite → Option SquadInvite
answered id status none = none
answered id status (some i) = some (if i.id == id then record i { status = status } else i)

pub invite_of-update :
    (is : List SquadInvite) (id : ℕ) (status : InviteStatus) (q u : ℕ)
    → invite_of (update_status id status is) q u ≡ answered id status (invite_of is q u)
invite_of-update [] id status q u = refl
invite_of-update (i ∷ is) id status q u = ground (arith, invite_of-update is id status q u)

pub invite_by_id-update :
    (is : List SquadInvite) (id : ℕ) (status : InviteStatus) (asked : ℕ)
    → invite_by_id (update_status id status is) asked ≡ answered id status (invite_by_id is asked)
invite_by_id-update [] id status asked = refl
invite_by_id-update (i ∷ is) id status asked =
    ground (arith, invite_by_id-update is id status asked)

pub invite_of-cascade :
    (is : List SquadInvite) (id q u : ℕ)
    → invite_of (cascade_invites id is) q u ≡ (if id == q then none else invite_of is q u)
invite_of-cascade [] id q u = ground arith
invite_of-cascade (i ∷ is) id q u = ground (arith, invite_of-cascade is id q u)
