-- ===== src/Friend/Tests.antt =====
-- Tests of the friend service, and the theorems at concrete inputs.
use swafri_backend.Common.{
  ℕ, ◌+◌, ◌≡◌, ◌↔◌, refl, true, none, some, [], ◌∷◌, ◌++◌, ◌==◌, is_some, any, lookup, arith,
  Result, ok, err,
}
use swafri_backend.Friend.Friendships.{Friendship, pending, are_friends}
use swafri_backend.Friend.Online.{get_socket_id}
use swafri_backend.Notification.{game_invite, invite_from}
use swafri_backend.Friend.Service.{
  FriendService, Friend, send_request, accept, respond, status_after, get_friends, remove_friend,
  invite_to_game, or_someone,
}
use swafri_backend.Friend.Service.Friends.{links, get_friends-are_friends, remove_friend_mutual}
use swafri_backend.Friend.Service.Requests.{
  Reach, start, request, answer, IsOrderly, Reach-IsOrderly,
}
use swafri_backend.Friend.Service.Answers.{link_if, respond-links, invite_to_game-ok_iff}

-- Users 1 and 2; the second is online.
abbrev strangers : FriendService
strangers = record {
  friendships = [];
  users = (1, "alice") ∷ (2, "bob") ∷ [];
  online = (2, 12) ∷ [];
  notifications = record { rows = []; live = [] };
}

abbrev or_unchanged : FriendService → Result FriendService → FriendService
or_unchanged s (ok t) = t
or_unchanged s (err e) = s

abbrev asked : FriendService
unfolding send_request
asked = or_unchanged strangers (send_request strangers 50 90 1 2 true)

-- The other one asks too: the unique index is on the direction.
abbrev both_asked : FriendService
unfolding asked send_request
both_asked = or_unchanged asked (send_request asked 51 91 2 1 true)

abbrev one_friend : FriendService
unfolding both_asked respond
one_friend = or_unchanged both_asked (respond both_asked 92 2 50 accept true)

abbrev mutuals : FriendService
unfolding one_friend respond
mutuals = or_unchanged one_friend (respond one_friend 93 1 51 accept true)

abbrev removed : FriendService
unfolding mutuals remove_friend
removed = or_unchanged mutuals (remove_friend mutuals 1 2)

mutuals-Reach : Reach mutuals
unfolding mutuals
mutuals-Reach = answer {s = one_friend} 93 1 51 accept true refl (
    answer {s = both_asked} 92 2 50 accept true refl (
      request {s = asked} 51 91 2 1 true refl
        (request {s = strangers} 50 90 1 2 true refl (start strangers refl))))

Reach-IsOrderly_example : IsOrderly mutuals.friendships
Reach-IsOrderly_example = Reach-IsOrderly mutuals-Reach

get_friends-are_friends_example :
    any (λ (f : Friend). f.id == 2) (get_friends mutuals 1) ≡ are_friends mutuals.friendships 1 2
get_friends-are_friends_example = get_friends-are_friends mutuals 1 2

remove_friend_mutual_example : are_friends removed.friendships 1 2 ≡ true
unfolding removed
remove_friend_mutual_example =
    remove_friend_mutual mutuals removed 1 2 (Reach-IsOrderly mutuals-Reach).ids (omega arith) refl

abbrev the_request : Friendship
the_request = record { id = 51; requester_id = 2; addressee_id = 1; status = pending }

one_friend-Reach : Reach one_friend
unfolding one_friend
one_friend-Reach = answer {s = both_asked} 92 2 50 accept true refl (
    request {s = asked} 51 91 2 1 true refl
      (request {s = strangers} 50 90 1 2 true refl (start strangers refl)))

respond-links_example :
    (◌≡◌ {A = ℕ} 1 1)
    × ((x y : ℕ)
        → links x y mutuals.friendships + link_if 2 1 x y pending
          ≡ links x y one_friend.friendships + link_if 2 1 x y (status_after accept))
unfolding mutuals
respond-links_example =
    respond-links one_friend mutuals 93 1 51 accept true the_request
      (Reach-IsOrderly one_friend-Reach).ids refl refl

invite_to_game-ok_iff_example :
    ((t : FriendService) × (invite_to_game mutuals 94 1 2 true ≡ ok t)
      × (t.notifications.live
          ≡ mutuals.notifications.live
            ++ record {
              socket_id = (elim (get_socket_id mutuals.online 2) [
                | none ↦ 0
                | some socket_id ↦ socket_id
              ]);
              kind = game_invite;
              data_ = invite_from 1 (or_someone (lookup 1 mutuals.users));
            }
              ∷ []))
    ↔ ((are_friends mutuals.friendships 1 2 ≡ true)
        × (is_some (get_socket_id mutuals.online 2) ≡ true))
invite_to_game-ok_iff_example = invite_to_game-ok_iff mutuals 94 1 2 true
