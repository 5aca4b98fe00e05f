-- ===== src/Squad/Listing.antt =====
-- The listings of src/modules/squad/service/squad.service.ts. Rows are stored in the order of joining.
use swafri_backend.Common.{
  ℕ, ◌+◌, ◌≡◌, ap, inl, inr, Bool, true, false, ◌&&◌, none, some, List, [], ◌∷◌, ◌++◌, ◌==◌,
  if◌then◌else◌, is_some, length, length-append, filter, Result, ok, ◌>>◌, guard, not_found, arith,
  Option-cases,
}
use swafri_backend.Squad.Store.{
  SquadRole, owner, admin, member, Squad, SquadMember, SquadDb, find_squad, role_of,
}
use swafri_backend.Squad.Service.{SquadDetails, get_squad_by_id}

abbrev pub is_owner : SquadRole → Bool
is_owner owner = true
is_owner _ = false

abbrev pub is_admin : SquadRole → Bool
is_admin admin = true
is_admin _ = false

abbrev pub is_plain_member : SquadRole → Bool
is_plain_member member = true
is_plain_member _ = false

abbrev pub with_role : (SquadRole → Bool) → ℕ → List SquadMember → List SquadMember
with_role test squad_id = filter (λ (m : SquadMember). m.squad_id == squad_id && test m.role)

-- Ordered by role, in the order of the enum, and then by the time of joining.
unfoldable pub get_squad_members : SquadDb → (squad_id : ℕ) → Result (List SquadMember)
get_squad_members db squad_id = do
  guard (is_some (find_squad db.squads squad_id)) (not_found "Squad not found")
  ok (
      with_role is_owner squad_id db.members
      ++ (with_role is_admin squad_id db.members ++ with_role is_plain_member squad_id db.members))

pub record UserSquad : Type 0 where
  pub squad : Squad
  pub user_role : SquadRole
  pub member_count : ℕ

-- The latest membership first. A membership's squad is stored: its foreign key.
abbrev pub user_squads : List Squad → List SquadMember → ℕ → List SquadMember → List UserSquad
user_squads squads members user_id [] = []
user_squads squads members user_id (m ∷ ms) =
    let rest = user_squads squads members user_id ms in
    let found = find_squad squads m.squad_id in
    if m.user_id == user_id
    then rest ++ elim found [
      | none ↦ []
      | some squad ↦
          record {
            squad = squad;
            user_role = m.role;
            member_count = length (filter (λ (k : SquadMember). k.squad_id == m.squad_id) members);
          }
          ∷ []
    ]
    else rest

unfoldable pub get_user_squads : SquadDb → (user_id : ℕ) → List UserSquad
get_user_squads db user_id = user_squads db.squads db.members user_id db.members

length-roles :
    (squad_id : ℕ) (ms : List SquadMember)
    → length (with_role is_owner squad_id ms)
        + (length (with_role is_admin squad_id ms) + length (with_role is_plain_member squad_id ms))
      ≡ length (filter (λ (m : SquadMember). m.squad_id == squad_id) ms)
length-roles squad_id [] = omega arith
length-roles squad_id (m ∷ ms) = ground (arith, length-roles squad_id ms)

-- The list of a squad's members and the squad's details agree: whoever asks for the details gets as
-- member count the length of the list.
pub length-get_squad_members :
    (db : SquadDb) (squad_id user_id : ℕ) (members : List SquadMember)
    → get_squad_members db squad_id ≡ ok members
    → (details : SquadDetails) × (get_squad_by_id db squad_id user_id ≡ ok details)
      × (details.member_count ≡ length members)
unfolding get_squad_members get_squad_by_id
length-get_squad_members db squad_id user_id members h =
    elim (Option-cases (find_squad db.squads squad_id)) [
      | inl e ↦ absurd (ground arith)
      | inr (squad, e) ↦
          let role = if user_id == 0 then none else role_of db.members squad_id user_id in
          let listed : members
              ≡ with_role is_owner squad_id db.members
                ++ (with_role is_admin squad_id db.members
                    ++ with_role is_plain_member squad_id db.members) =
            ground arith in
          (
            record {
              squad = squad;
              user_role = role;
              is_member = is_some role;
              member_count =
                  length (filter (λ (m : SquadMember). m.squad_id == squad_id) db.members);
            },
            ground arith,
            omega (
              arith,
              length-roles squad_id db.members,
              ap length listed,
              length-append (with_role is_owner squad_id db.members) (
                  with_role is_admin squad_id db.members
                  ++ with_role is_plain_member squad_id db.members),
              length-append (with_role is_admin squad_id db.members)
                  (with_role is_plain_member squad_id db.members),
            ),
          )
    ]
