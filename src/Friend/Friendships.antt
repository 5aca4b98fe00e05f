-- ===== src/Friend/Friendships.antt =====
-- The friendship rows that friend.service.ts and squad.service.ts read (prisma/schema.prisma).
use swafri_backend.Common.{ℕ, Bool, true, false, ◌&&◌, ◌||◌, List, ◌==◌, any}

pub data FriendshipStatus : Type 0 where
  pending accepted blocked : FriendshipStatus

pub record Friendship : Type 0 where
  pub id : ℕ
  pub requester_id : ℕ
  pub addressee_id : ℕ
  pub status : FriendshipStatus

abbrev pub is_accepted : FriendshipStatus → Bool
is_accepted accepted = true
is_accepted _ = false

-- The row joins the two users, whichever of them asked.
abbrev pub joins : ℕ → ℕ → Friendship → Bool
joins a b f =
    (f.requester_id == a && f.addressee_id == b) || (f.requester_id == b && f.addressee_id == a)

-- `findFirst` with an OR of the two directions and the status ACCEPTED.
unfoldable pub are_friends : List Friendship → ℕ → ℕ → Bool
are_friends rows a b = any (λ f. joins a b f && is_accepted f.status) rows
