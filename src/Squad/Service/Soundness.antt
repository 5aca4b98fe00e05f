-- ===== src/Squad/Service/Soundness.antt =====
-- What every operation of squad.service.ts keeps true of the stored rows.
use swafri_backend.Common.{
  ℕ, ◌≡◌, refl, ◌≢◌, true, ◌&&◌, Option, none, some, List, [], ◌∷◌, ◌++◌, ◌==◌, if◌then◌else◌,
  is_some, arith,
}
use swafri_backend.Squad.Store.{
  SquadRole, owner, InviteStatus, SquadInvite, SquadDb, role_of, invite_of, invite_by_id,
  update_status, cascade_invites,
}
use swafri_backend.Squad.Service.{is_pending}
use swafri_backend.Squad.Service.Rows.{
  owner_of, invite_of-append, invite_by_id-append, invite_of-update, invite_by_id-update,
  invite_of-cascade,
}

-- The two unique keys of the invite table.
abbrev pub HasUniqueKeys : List SquadInvite → Type 0
HasUniqueKeys [] = Unit {0}
HasUniqueKeys (i ∷ is) =
    (invite_of is i.squad_id i.invitee_id ≡ none) × (invite_by_id is i.id ≡ none) × HasUniqueKeys is

pub append-HasUniqueKeys :
    (is : List SquadInvite) (i : SquadInvite)
    → HasUniqueKeys is
    → invite_of is i.squad_id i.invitee_id ≡ none
    → invite_by_id is i.id ≡ none
    → HasUniqueKeys (is ++ i ∷ [])
append-HasUniqueKeys [] i h a b = (refl, refl, tt)
append-HasUniqueKeys (x ∷ is) i (c, d, h) a b = (
  ground (arith, invite_of-append is i x.squad_id x.invitee_id),
  ground (arith, invite_by_id-append is i x.id),
  append-HasUniqueKeys is i h (ground arith) (ground arith),
)

pub update-HasUniqueKeys :
    (is : List SquadInvite) (id : ℕ) (status : InviteStatus)
    → HasUniqueKeys is
    → HasUniqueKeys (update_status id status is)
update-HasUniqueKeys [] id status h = tt
update-HasUniqueKeys (i ∷ is) id status (a, b, h) = (
  ground (arith, invite_of-update is id status i.squad_id i.invitee_id),
  ground (arith, invite_by_id-update is id status i.id),
  update-HasUniqueKeys is id status h,
)

invite_by_id-cascade :
    (is : List SquadInvite) (id asked : ℕ)
    → invite_by_id is asked ≡ none
    → invite_by_id (cascade_invites id is) asked ≡ none
invite_by_id-cascade [] id asked h = refl
invite_by_id-cascade (i ∷ is) id asked h = ground (arith, invite_by_id-cascade is id asked)

pub cascade-HasUniqueKeys :
    (is : List SquadInvite) (id : ℕ) → HasUniqueKeys is → HasUniqueKeys (cascade_invites id is)
cascade-HasUniqueKeys [] id h = tt
cascade-HasUniqueKeys (i ∷ is) id (a, b, h) =
    let rest = cascade-HasUniqueKeys is id h in
    ground (
      arith,
      rest,
      invite_of-cascade is id i.squad_id i.invitee_id,
      invite_by_id-cascade is id i.id,
    )

pub invite_by_id-HasUniqueKeys :
    (is : List SquadInvite) (id : ℕ) (i : SquadInvite)
    → HasUniqueKeys is
    → invite_by_id is id ≡ some i
    → invite_of is i.squad_id i.invitee_id ≡ some i
invite_by_id-HasUniqueKeys [] id i h e = absurd (ground arith)
invite_by_id-HasUniqueKeys (x ∷ is) id i (a, b, h) e =
    ground (arith, invite_by_id-HasUniqueKeys is id i h)

-- A squad's owner, and nobody else, has the role of an owner in it; members and invites are of stored
-- squads; the invites' keys are unique; and who has a pending invite is no member yet.
pub record IsConsistent (db : SquadDb) : Type 0 where
  pub owners : (q u : ℕ) → owner_of db.squads q ≡ some u → role_of db.members q u ≡ some owner
  pub only_owners : (q u : ℕ) → role_of db.members q u ≡ some owner → owner_of db.squads q ≡ some u
  pub members_stored :
      (q u : ℕ) → is_some (role_of db.members q u) ≡ true → is_some (owner_of db.squads q) ≡ true
  pub unique : HasUniqueKeys db.invites
  pub invites_stored :
      (q u : ℕ) → is_some (invite_of db.invites q u) ≡ true → is_some (owner_of db.squads q) ≡ true
  pub pending_outside :
      (q u : ℕ) (i : SquadInvite)
      → invite_of db.invites q u ≡ some i
      → is_pending i.status ≡ true
      → role_of db.members q u ≡ none

-- What an operation does to the lookups is enough for soundness.
module _ (db db' : SquadDb) where
  -- The owners stay, and the roles change for one member of one squad at most, who is not its owner.
  pub same_owners-IsConsistent :
      (squad_id user_id : ℕ) (given : Option SquadRole)
      → ((q : ℕ) → owner_of db'.squads q ≡ owner_of db.squads q)
      → ((q u : ℕ)
          → role_of db'.members q u
            ≡ (if squad_id == q && user_id == u then given else role_of db.members q u))
      → owner_of db.squads squad_id ≢ some user_id
      → given ≢ some owner
      → is_some (owner_of db.squads squad_id) ≡ true
      → HasUniqueKeys db'.invites
      → ((q u : ℕ)
          → is_some (invite_of db'.invites q u) ≡ true
          → is_some (owner_of db.squads q) ≡ true)
      → ((q u : ℕ) (i : SquadInvite)
          → invite_of db'.invites q u ≡ some i
          → is_pending i.status ≡ true
          → role_of db'.members q u ≡ none)
      → IsConsistent db
      → IsConsistent db'
  same_owners-IsConsistent squad_id user_id given same roles other no_owner stored unique invites
        out s =
      record {
        owners = λ q u e. ground (arith, same q, roles q u, s.owners q u);
        only_owners = λ q u e. ground (arith, same q, roles q u, s.only_owners q u);
        members_stored = λ q u e. ground (arith, same q, roles q u, s.members_stored q u);
        unique = unique;
        invites_stored = λ q u e. ground (arith, same q, invites q u);
        pending_outside = out;
      }

  -- The owners and the roles stay.
  pub same_roles-IsConsistent :
      ((q : ℕ) → owner_of db'.squads q ≡ owner_of db.squads q)
      → db'.members ≡ db.members
      → HasUniqueKeys db'.invites
      → ((q u : ℕ)
          → is_some (invite_of db'.invites q u) ≡ true
          → is_some (owner_of db.squads q) ≡ true)
      → ((q u : ℕ) (i : SquadInvite)
          → invite_of db'.invites q u ≡ some i
          → is_pending i.status ≡ true
          → role_of db.members q u ≡ none)
      → IsConsistent db
      → IsConsistent db'
  same_roles-IsConsistent same members unique invites out s = record {
    owners = λ q u e. ground (arith, same q, s.owners q u);
    only_owners = λ q u e. ground (arith, same q, s.only_owners q u);
    members_stored = λ q u e. ground (arith, same q, s.members_stored q u);
    unique = unique;
    invites_stored = λ q u e. ground (arith, same q, invites q u);
    pending_outside = λ q u i e p. ground (arith, out q u i);
  }
