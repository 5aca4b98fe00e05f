-- ===== src/Squad/Service/Creation.antt =====
-- Creating, changing and deleting a squad keeps the rows sound (squad.service.ts).
use swafri_backend.Common.{
  ℕ, ◌≡◌, ap, ◌∙◌, true, ◌&&◌, Option, none, some, String, [], ◌∷◌, ◌++◌, ◌==◌, if◌then◌else◌,
  is_some, arith, ok,
}
use swafri_backend.Squad.Store.{
  owner, Squad, SquadMember, SquadDb, find_squad, role_of, update_squad_row, delete_squad_row,
  cascade_members, cascade_invites,
}
use swafri_backend.Squad.Service.{create_squad, update_squad, delete_squad, check_member_role}
use swafri_backend.Squad.Service.Rows.{
  owner_of, or_else, owner_of-none, owner_of-append, owner_of-update, owner_of-delete,
  role_of-append, role_of-cascade, invite_of-cascade,
}
use swafri_backend.Squad.Service.Soundness.{
  cascade-HasUniqueKeys, IsConsistent, same_roles-IsConsistent,
}

module _ (db db' : SquadDb) (squad_id user_id : ℕ) (name : String) (description : Option String)
    (h : create_squad db squad_id user_id name description ≡ ok db') where
  new_squad : Squad
  new_squad = record { id = squad_id; name = name; description = description; owner_id = user_id }

  first_member : SquadMember
  first_member = record { squad_id = squad_id; user_id = user_id; role = owner }

  create_squad-rows :
      (db'.squads ≡ db.squads ++ new_squad ∷ [])
      × (db'.members ≡ db.members ++ first_member ∷ [])
      × (db'.invites ≡ db.invites)
      × (find_squad db.squads squad_id ≡ none)
  unfolding create_squad new_squad first_member
  create_squad-rows = ground arith

  create_squad-owner_of :
      (q : ℕ)
      → owner_of db'.squads q
        ≡ or_else (owner_of db.squads q) (if squad_id == q then some user_id else none)
  unfolding new_squad
  create_squad-owner_of q =
      ap (λ z. owner_of z q) create_squad-rows.0 ∙ owner_of-append db.squads new_squad q

  create_squad-role_of :
      (q u : ℕ)
      → role_of db'.members q u
        ≡ or_else
            (role_of db.members q u)
            (if squad_id == q && user_id == u then some owner else none)
  unfolding first_member
  create_squad-role_of q u =
      ap (λ z. role_of z q u) create_squad-rows.1 ∙ role_of-append db.members first_member q u

  create_squad-fresh : owner_of db.squads squad_id ≡ none
  create_squad-fresh = ground (arith, owner_of-none db.squads squad_id, create_squad-rows.3)

  pub create_squad-IsConsistent : IsConsistent db → IsConsistent db'
  create_squad-IsConsistent s = record {
    owners = λ q u e. ground (
      arith,
      create_squad-owner_of q,
      create_squad-role_of q u,
      create_squad-fresh,
      s.owners q u,
      s.members_stored q u,
    );
    only_owners = λ q u e. ground (
      arith,
      create_squad-owner_of q,
      create_squad-role_of q u,
      create_squad-fresh,
      s.only_owners q u,
    );
    members_stored = λ q u e.
        ground (arith, create_squad-owner_of q, create_squad-role_of q u, s.members_stored q u);
    unique = rw (create_squad-rows.2) s.unique;
    invites_stored =
        λ q u e. ground (arith, create_squad-owner_of q, create_squad-rows.2, s.invites_stored q u);
    pending_outside = λ q u i e p. ground (
      arith,
      create_squad-role_of q u,
      create_squad-rows.2,
      create_squad-fresh,
      s.pending_outside q u i,
      s.invites_stored q u,
    );
  }

check_member_role-stored :
    (db : SquadDb) (squad_id user_id : ℕ)
    → check_member_role db squad_id user_id ≡ ok tt
    → is_some (role_of db.members squad_id user_id) ≡ true
unfolding check_member_role
check_member_role-stored db squad_id user_id h = ground arith

pub update_squad-IsConsistent :
    (db db' : SquadDb) (squad_id user_id : ℕ) (name description : Option String)
    → update_squad db squad_id user_id name description ≡ ok db'
    → IsConsistent db
    → IsConsistent db'
unfolding update_squad
update_squad-IsConsistent db db' squad_id user_id name description h s =
    let e : (db'.squads ≡ update_squad_row squad_id name description db.squads)
        × (db'.members ≡ db.members)
        × (db'.invites ≡ db.invites) =
      ground arith in
    same_roles-IsConsistent db db'
      (λ q. ap (λ z. owner_of z q) e.0 ∙ owner_of-update db.squads squad_id name description q) e.1
      (rw e.2 s.unique) (λ q u p. ground (arith, s.invites_stored q u))
      (λ q u i p k. ground (arith, s.pending_outside q u i)) s

pub delete_squad-IsConsistent :
    (db db' : SquadDb) (squad_id user_id : ℕ)
    → delete_squad db squad_id user_id ≡ ok db'
    → IsConsistent db
    → IsConsistent db'
unfolding delete_squad
delete_squad-IsConsistent db db' squad_id user_id h s = rw e (record {
  owners = λ q u p. ground (
    arith,
    owner_of-delete db.squads squad_id q,
    role_of-cascade db.members squad_id q u,
    s.owners q u,
  );
  only_owners = λ q u p. ground (
    arith,
    owner_of-delete db.squads squad_id q,
    role_of-cascade db.members squad_id q u,
    s.only_owners q u,
  );
  members_stored = λ q u p. ground (
    arith,
    owner_of-delete db.squads squad_id q,
    role_of-cascade db.members squad_id q u,
    s.members_stored q u,
  );
  unique = cascade-HasUniqueKeys db.invites squad_id s.unique;
  invites_stored = λ q u p. ground (
    arith,
    owner_of-delete db.squads squad_id q,
    invite_of-cascade db.invites squad_id q u,
    s.invites_stored q u,
  );
  pending_outside = λ q u i p k. ground (
    arith,
    role_of-cascade db.members squad_id q u,
    invite_of-cascade db.invites squad_id q u,
    s.pending_outside q u i,
  );
})
  where
    e : db' ≡ record db {
      squads = delete_squad_row squad_id db.squads;
      members = cascade_members squad_id db.members;
      invites = cascade_invites squad_id db.invites;
    }
    e = ground arith
