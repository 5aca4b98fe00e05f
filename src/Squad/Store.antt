-- ===== src/Squad/Store.antt =====
-- The tables of prisma/schema.prisma that squad.service.ts works on. A table is the list of its rows;
-- a unique index makes a second row with the same key an error of `create`.
use swafri_backend.Common.{
  ℕ, Bool, ◌&&◌, Option, none, some, String, List, [], ◌∷◌, ◌==◌, if◌then◌else◌, is_some, any,
}
use swafri_backend.Friend.Friendships.{Friendship}

pub data SquadRole : Type 0 where
  owner admin member : SquadRole

pub data InviteStatus : Type 0 where
  pending accepted declined : InviteStatus

pub record Squad : Type 0 where
  pub id : ℕ
  pub name : String
  pub description : Option String
  pub owner_id : ℕ

pub record SquadMember : Type 0 where
  pub squad_id : ℕ
  pub user_id : ℕ
  pub role : SquadRole

pub record SquadInvite : Type 0 where
  pub id : ℕ
  pub squad_id : ℕ
  pub inviter_id : ℕ
  pub invitee_id : ℕ
  pub status : InviteStatus

pub data Notification : Type 0 where
  squad_invite : (user_id squad_id inviter_id invite_id : ℕ) → Notification
  squad_invite_accepted : (user_id squad_id accepted_by : ℕ) → Notification
  squad_member_left : (user_id squad_id kicked_by : ℕ) → Notification

pub record SquadDb : Type 0 where
  pub squads : List Squad
  pub members : List SquadMember
  pub invites : List SquadInvite
  pub users : List ℕ
  pub friendships : List Friendship
  pub notifications : List Notification

abbrev pub has_user : SquadDb → ℕ → Bool
has_user db user_id = any (λ u. u == user_id) db.users

-- `squad.findUnique({ where: { id } })`.
abbrev pub find_squad : List Squad → ℕ → Option Squad
find_squad [] id = none
find_squad (s ∷ squads) id = if s.id == id then some s else find_squad squads id

abbrev pub is_membership : ℕ → ℕ → SquadMember → Bool
is_membership squad_id user_id m = m.squad_id == squad_id && m.user_id == user_id

-- `squadMember.findUnique({ where: { squadId_userId } })`, and its role.
abbrev pub role_of : List SquadMember → ℕ → ℕ → Option SquadRole
role_of [] squad_id user_id = none
role_of (m ∷ ms) squad_id user_id =
    if is_membership squad_id user_id m then some m.role else role_of ms squad_id user_id

abbrev pub delete_member : ℕ → ℕ → List SquadMember → List SquadMember
delete_member squad_id user_id [] = []
delete_member squad_id user_id (m ∷ ms) =
    if is_membership squad_id user_id m
    then delete_member squad_id user_id ms
    else m ∷ delete_member squad_id user_id ms

abbrev pub update_role : ℕ → ℕ → SquadRole → List SquadMember → List SquadMember
update_role squad_id user_id role [] = []
update_role squad_id user_id role (m ∷ ms) =
    (if is_membership squad_id user_id m then record m { role = role } else m)
    ∷ update_role squad_id user_id role ms

-- `squadInvite.findUnique` by its two keys.
abbrev pub invite_of : List SquadInvite → ℕ → ℕ → Option SquadInvite
invite_of [] squad_id invitee_id = none
invite_of (i ∷ is) squad_id invitee_id =
    if i.squad_id == squad_id && i.invitee_id == invitee_id
    then some i
    else invite_of is squad_id invitee_id

abbrev pub invite_by_id : List SquadInvite → ℕ → Option SquadInvite
invite_by_id [] id = none
invite_by_id (i ∷ is) id = if i.id == id then some i else invite_by_id is id

abbrev pub update_status : ℕ → InviteStatus → List SquadInvite → List SquadInvite
update_status id status [] = []
update_status id status (i ∷ is) =
    (if i.id == id then record i { status = status } else i) ∷ update_status id status is

-- `squad.update`; a column that the payload leaves out stays.
abbrev pub or_keep {ℓ} : {A : Type ℓ} → Option A → A → A
or_keep none old = old
or_keep (some new) old = new

abbrev pub update_squad_row : ℕ → Option String → Option String → List Squad → List Squad
update_squad_row id name description [] = []
update_squad_row id name description (s ∷ squads) =
    (if s.id == id
      then record s {
        name = or_keep name s.name;
        description = if is_some description then description else s.description;
      }
      else s)
    ∷ update_squad_row id name description squads

-- `squad.delete`, and what `onDelete: Cascade` takes with it.
abbrev pub delete_squad_row : ℕ → List Squad → List Squad
delete_squad_row id [] = []
delete_squad_row id (s ∷ squads) =
    if s.id == id then delete_squad_row id squads else s ∷ delete_squad_row id squads

abbrev pub cascade_members : ℕ → List SquadMember → List SquadMember
cascade_members id [] = []
cascade_members id (m ∷ ms) =
    if m.squad_id == id then cascade_members id ms else m ∷ cascade_members id ms

abbrev pub cascade_invites : ℕ → List SquadInvite → List SquadInvite
cascade_invites id [] = []
cascade_invites id (i ∷ is) =
    if i.squad_id == id then cascade_invites id is else i ∷ cascade_invites id is
