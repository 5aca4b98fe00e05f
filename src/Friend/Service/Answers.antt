-- ===== src/Friend/Service/Answers.antt =====
-- Answers to friend requests, and invites to a game (friend.service.ts).
use swafri_backend.Common.{
  ℕ, ◌+◌, ◌≡◌, ◌↔◌, refl, sym, ap, ◌∙◌, subst, inl, inr, Bool, true, false, ◌&&◌, none, some, List,
  [], ◌∷◌, ◌++◌, ◌==◌, if◌then◌else◌, is_some, any, lookup, ok, arith, Bool-cases, Option-cases,
}
use swafri_backend.Friend.Friendships.{
  Friendship, FriendshipStatus, is_accepted, joins, are_friends,
}
use swafri_backend.Friend.Online.{get_socket_id}
use swafri_backend.Notification.{send_to_user, persist, game_invite, invite_from}
use swafri_backend.Friend.Service.{
  FriendService, friendship_by_id, set_status, status_after, Response, respond, invite_to_game,
  or_someone,
}
use swafri_backend.Friend.Service.Friends.{HasDistinctIds, links, is_same_pair}
use swafri_backend.Friend.Service.Requests.{respond-rows}

-- One link if the row joins the two users under this status.
abbrev pub link_if : (a b x y : ℕ) → FriendshipStatus → ℕ
link_if a b x y status = if is_same_pair a b x y && is_accepted status then 1 else 0

links-set_status_absent :
    (id x y : ℕ) (status : FriendshipStatus) (rows : List Friendship)
    → any (λ (g : Friendship). g.id == id) rows ≡ false
    → links x y (set_status id status rows) ≡ links x y rows
links-set_status_absent id x y status [] h = refl
links-set_status_absent id x y status (f ∷ rows) h =
    ground (arith, links-set_status_absent id x y status rows)

joins_own :
    (f : Friendship) (x y : ℕ) → joins x y f ≡ is_same_pair f.requester_id f.addressee_id x y
joins_own f x y = ground arith

same_number : (a b : ℕ) → (a == b) ≡ true → a ≡ b
same_number a b h = ground arith

links-set_status :
    (id x y : ℕ) (status : FriendshipStatus) (rows : List Friendship) (f : Friendship)
    → HasDistinctIds rows
    → friendship_by_id rows id ≡ some f
    → links x y (set_status id status rows) + link_if f.requester_id f.addressee_id x y f.status
      ≡ links x y rows + link_if f.requester_id f.addressee_id x y status
links-set_status id x y status [] f d h = absurd (ground arith)
links-set_status id x y status (g ∷ rows) f (new, d) h = elim (Bool-cases (g.id == id)) [
  | inl here ↦
      let e : g ≡ f = ground arith in
      let absent : any (λ (k : Friendship). k.id == id) rows ≡ false =
        ap (λ z. any (λ (k : Friendship). k.id == z) rows) (sym (same_number g.id id here)) ∙ new in
      subst
        (λ z.
          links x y (set_status id status (g ∷ rows))
            + link_if z.requester_id z.addressee_id x y z.status
          ≡ links x y (g ∷ rows) + link_if z.requester_id z.addressee_id x y status)
        e (ground (arith, links-set_status_absent id x y status rows absent, joins_own g x y))
  | inr later ↦
      let e : friendship_by_id rows id ≡ some f = ground arith in
      ground (arith, links-set_status id x y status rows f d e)
]

-- Where row identifiers are distinct, an answer that succeeds is the addressee's. It changes the
-- friendship of the row's two users only: the row counts for them if the answer accepts, and no
-- longer if it blocks, and what counted before the answer does not matter.
pub respond-links :
    (s t : FriendService) (notification_id user_id id : ℕ) (action : Response) (stored : Bool)
    (f : Friendship)
    → HasDistinctIds s.friendships
    → friendship_by_id s.friendships id ≡ some f
    → respond s notification_id user_id id action stored ≡ ok t
    → (f.addressee_id ≡ user_id)
      × ((x y : ℕ)
          → links x y t.friendships + link_if f.requester_id f.addressee_id x y f.status
            ≡ links x y s.friendships
              + link_if f.requester_id f.addressee_id x y (status_after action))
unfolding respond
respond-links s t notification_id user_id id action stored f d e h =
    let rows = respond-rows s t notification_id user_id id action stored h in
    (
      elim (Option-cases (lookup f.addressee_id s.users)) [
        | inl x ↦ absurd (ground arith)
        | inr (name, x) ↦ ground arith
      ],
      (λ x y.
          ap (λ z. links x y z + link_if f.requester_id f.addressee_id x y f.status) rows
          ∙ links-set_status id x y (status_after action) s.friendships f d e),
    )

-- An invite to a game goes out exactly if the two are friends and the invited user is online, and
-- then the invited user's socket gets it, after all that was emitted before.
pub invite_to_game-ok_iff :
    (s : FriendService) (notification_id a b : ℕ) (stored : Bool)
    → ((t : FriendService) × (invite_to_game s notification_id a b stored ≡ ok t)
        × (t.notifications.live
            ≡ s.notifications.live
              ++ record {
                socket_id = elim (get_socket_id s.online b) [
                  | none ↦ 0
                  | some socket_id ↦ socket_id
                ];
                kind = game_invite;
                data_ = invite_from a (or_someone (lookup a s.users));
              }
                ∷ []))
      ↔ ((are_friends s.friendships a b ≡ true) × (is_some (get_socket_id s.online b) ≡ true))
unfolding invite_to_game send_to_user persist
invite_to_game-ok_iff s notification_id a b stored = (
  (λ (t, h, l). elim (Option-cases (get_socket_id s.online b)) [
    | inl e ↦ absurd (ground arith)
    | inr (socket_id, e) ↦ (ground arith, ground arith)
  ]),
  (λ (friends, found). elim (Option-cases (get_socket_id s.online b)) [
    | inl e ↦ absurd (ground arith)
    | inr (socket_id, e) ↦ (
      record s {
        notifications =
            send_to_user s.notifications notification_id socket_id game_invite
              (invite_from a (or_someone (lookup a s.users))) b stored;
      },
      ground arith,
      ground arith,
    )
  ]),
)
