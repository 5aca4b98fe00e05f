-- ===== src/Friend/Service/Requests.antt =====
-- Requests and answers of friend.service.ts, in any order, and the rows that they leave.
use swafri_backend.Common.{
  ℕ, ◌≡◌, ◌≢◌, refl, sym, subst, inl, inr, Bool, false, not, List, [], ◌∷◌, ◌++◌, ◌==◌, is_some,
  any, any-append, find, filter, lookup, ok, arith, Bool-cases, Option-cases,
}
use swafri_backend.Friend.Friendships.{Friendship, FriendshipStatus, pending}
use swafri_backend.Friend.Service.{
  FriendService, is_request, friendship_by_id, send_request, friendship_between, delete_friendship,
  remove_friend, set_status, status_after, Response, respond,
}
use swafri_backend.Friend.Service.Friends.{HasDistinctIds}

abbrev pub HasDistinctRequests : List Friendship → Type 0
HasDistinctRequests [] = Unit
HasDistinctRequests (f ∷ rows) =
    (any (is_request f.requester_id f.addressee_id) rows ≡ false) × HasDistinctRequests rows

abbrev pub IsOfTwo : List Friendship → Type 0
IsOfTwo [] = Unit
IsOfTwo (f ∷ rows) = (f.requester_id ≢ f.addressee_id) × IsOfTwo rows

pub record IsOrderly (rows : List Friendship) : Type 0 where
  pub ids : HasDistinctIds rows
  pub requests : HasDistinctRequests rows
  pub of_two : IsOfTwo rows

is_some-find : (p : Friendship → Bool) (rows : List Friendship) → is_some (find p rows) ≡ any p rows
is_some-find p [] = refl
is_some-find p (f ∷ rows) = ground (arith, is_some-find p rows)

append-HasDistinctIds :
    (rows : List Friendship) (f : Friendship)
    → HasDistinctIds rows
    → any (λ (g : Friendship). g.id == f.id) rows ≡ false
    → HasDistinctIds (rows ++ f ∷ [])
append-HasDistinctIds [] f d h = (refl, tt)
append-HasDistinctIds (g ∷ rows) f (new, d) h = (
  ground (arith, any-append (λ (k : Friendship). k.id == g.id) rows (f ∷ [])),
  append-HasDistinctIds rows f d (ground arith),
)

append-HasDistinctRequests :
    (rows : List Friendship) (f : Friendship)
    → HasDistinctRequests rows
    → any (is_request f.requester_id f.addressee_id) rows ≡ false
    → HasDistinctRequests (rows ++ f ∷ [])
append-HasDistinctRequests [] f d h = (refl, tt)
append-HasDistinctRequests (g ∷ rows) f (new, d) h = (
  ground (arith, any-append (is_request g.requester_id g.addressee_id) rows (f ∷ [])),
  append-HasDistinctRequests rows f d (ground arith),
)

append-IsOfTwo :
    (rows : List Friendship) (f : Friendship)
    → IsOfTwo rows
    → f.requester_id ≢ f.addressee_id
    → IsOfTwo (rows ++ f ∷ [])
append-IsOfTwo [] f d h = (h, tt)
append-IsOfTwo (g ∷ rows) f (two, d) h = (two, append-IsOfTwo rows f d h)

-- What the calls of the service do to the rows, whatever notifications they send.
any_id-set_status :
    (id asked : ℕ) (status : FriendshipStatus) (rows : List Friendship)
    → any (λ (g : Friendship). g.id == asked) (set_status id status rows)
      ≡ any (λ (g : Friendship). g.id == asked) rows
any_id-set_status id asked status [] = refl
any_id-set_status id asked status (f ∷ rows) =
    ground (arith, any_id-set_status id asked status rows)

any_request-set_status :
    (id a b : ℕ) (status : FriendshipStatus) (rows : List Friendship)
    → any (is_request a b) (set_status id status rows) ≡ any (is_request a b) rows
any_request-set_status id a b status [] = refl
any_request-set_status id a b status (f ∷ rows) =
    ground (arith, any_request-set_status id a b status rows)

set_status-IsOrderly :
    (id : ℕ) (status : FriendshipStatus) (rows : List Friendship)
    → IsOrderly rows
    → IsOrderly (set_status id status rows)
set_status-IsOrderly id status [] o = o
set_status-IsOrderly id status (f ∷ rows) o =
    let r =
      set_status-IsOrderly id status rows
        (record { ids = o.ids.1; requests = o.requests.1; of_two = o.of_two.1 }) in
    record {
      ids = (ground (arith, o.ids.0, any_id-set_status id f.id status rows), r.ids);
      requests = (
        ground (
          arith,
          o.requests.0,
          any_request-set_status id f.requester_id f.addressee_id status rows,
        ),
        r.requests,
      );
      of_two = (ground (arith, o.of_two.0), r.of_two);
    }

any-filter :
    (p keep : Friendship → Bool) (rows : List Friendship)
    → any p rows ≡ false
    → any p (filter keep rows) ≡ false
any-filter p keep [] h = refl
any-filter p keep (f ∷ rows) h = ground (arith, any-filter p keep rows)

filter-IsOrderly :
    (keep : Friendship → Bool) (rows : List Friendship)
    → IsOrderly rows
    → IsOrderly (filter keep rows)
filter-IsOrderly keep [] o = o
filter-IsOrderly keep (f ∷ rows) o =
    let r =
      filter-IsOrderly keep rows
        (record { ids = o.ids.1; requests = o.requests.1; of_two = o.of_two.1 }) in
    elim (Bool-cases (keep f)) [
      | inl a ↦ rw a (record {
        ids = (any-filter (λ (g : Friendship). g.id == f.id) keep rows (o.ids.0), r.ids);
        requests = (
          any-filter (is_request f.requester_id f.addressee_id) keep rows (o.requests.0),
          r.requests,
        );
        of_two = (o.of_two.0, r.of_two);
      })
      | inr a ↦ rw a r
    ]

send_request-IsOrderly :
    (s t : FriendService) (id notification_id a b : ℕ) (stored : Bool)
    → send_request s id notification_id a b stored ≡ ok t
    → IsOrderly s.friendships
    → IsOrderly t.friendships
unfolding send_request
send_request-IsOrderly s t id notification_id a b stored h o =
    elim (Option-cases (lookup a s.users)) [
      | inl e ↦ absurd (ground arith)
      | inr (name, e) ↦
          let f : Friendship = record {
            id = id;
            requester_id = a;
            addressee_id = b;
            status = pending;
          } in
          let rows : t.friendships ≡ s.friendships ++ f ∷ [] = ground arith in
          subst IsOrderly (sym rows) (record {
            ids =
                append-HasDistinctIds s.friendships f o.ids
                  (ground (arith, is_some-find (λ (g : Friendship). g.id == id) s.friendships));
            requests =
                append-HasDistinctRequests s.friendships f o.requests
                  (ground (arith, is_some-find (is_request a b) s.friendships));
            of_two = append-IsOfTwo s.friendships f o.of_two (ground arith);
          })
    ]

pub respond-rows :
    (s t : FriendService) (notification_id user_id id : ℕ) (action : Response) (stored : Bool)
    → respond s notification_id user_id id action stored ≡ ok t
    → t.friendships ≡ set_status id (status_after action) s.friendships
unfolding respond
respond-rows s t notification_id user_id id action stored h =
    elim (Option-cases (friendship_by_id s.friendships id)) [
      | inl e ↦ absurd (ground arith)
      | inr (f, e) ↦ elim (Option-cases (lookup f.addressee_id s.users)) [
        | inl x ↦ absurd (ground arith)
        | inr (name, x) ↦ ground arith
      ]
    ]

remove_friend-IsOrderly :
    (s t : FriendService) (a b : ℕ)
    → remove_friend s a b ≡ ok t
    → IsOrderly s.friendships
    → IsOrderly t.friendships
unfolding remove_friend
remove_friend-IsOrderly s t a b h o = elim (Option-cases (friendship_between s.friendships a b)) [
  | inl e ↦ absurd (ground arith)
  | inr (f, e) ↦
      let rows : t.friendships ≡ delete_friendship f.id s.friendships = ground arith in
      subst IsOrderly (sym rows)
        (filter-IsOrderly (λ (g : Friendship). not (g.id == f.id)) s.friendships o)
]

-- The calls that change rows, in any order; users, sockets and notifications may change between them.
pub data Reach : FriendService → Type 0 where
  start : (s : FriendService) → s.friendships ≡ [] → Reach s
  others :
      {s : FriendService} (t : FriendService) → t.friendships ≡ s.friendships → Reach s → Reach t
  request :
      {s t : FriendService} (id notification_id requester_id addressee_id : ℕ) (stored : Bool)
      → send_request s id notification_id requester_id addressee_id stored ≡ ok t
      → Reach s
      → Reach t
  answer :
      {s t : FriendService} (notification_id user_id id : ℕ) (action : Response) (stored : Bool)
      → respond s notification_id user_id id action stored ≡ ok t
      → Reach s
      → Reach t
  removal :
      {s t : FriendService} (user_id friend_id : ℕ)
      → remove_friend s user_id friend_id ≡ ok t
      → Reach s
      → Reach t

-- After any sequence of requests, answers and removals: identifiers of rows are distinct, nobody has
-- asked the same user twice, and nobody has asked themselves.
pub Reach-IsOrderly : {s : FriendService} → Reach s → IsOrderly s.friendships
Reach-IsOrderly (start s e) =
    subst IsOrderly (sym e) (record { ids = tt; requests = tt; of_two = tt })
Reach-IsOrderly (others t e r) = subst IsOrderly (sym e) (Reach-IsOrderly r)
Reach-IsOrderly (request {s} {t} id n a b stored h r) =
    send_request-IsOrderly s t id n a b stored h (Reach-IsOrderly r)
Reach-IsOrderly (answer {s} {t} n user_id id action stored h r) =
    subst IsOrderly (sym (respond-rows s t n user_id id action stored h))
      (set_status-IsOrderly id (status_after action) s.friendships (Reach-IsOrderly r))
Reach-IsOrderly (removal {s} {t} a b h r) = remove_friend-IsOrderly s t a b h (Reach-IsOrderly r)
