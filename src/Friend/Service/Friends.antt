-- ===== src/Friend/Service/Friends.antt =====
-- Who is a friend of whom after the calls of friend.service.ts.
use swafri_backend.Common.{
  ℕ, ◌+◌, ◌≤◌, ◌≡◌, refl, sym, ap, ◌∙◌, inl, inr, Bool, true, false, not, ◌&&◌, ◌||◌, some, List,
  [], ◌∷◌, ◌==◌, if◌then◌else◌, any, filter, map, ok, arith, Bool-cases, Option-cases,
}
use swafri_backend.Friend.Friendships.{Friendship, is_accepted, joins, are_friends}
use swafri_backend.Friend.Online.{OnlineUsers}
use swafri_backend.Friend.Service.{
  FriendService, Friend, has_accepted, friend_in, get_friends, friendship_between,
  delete_friendship, remove_friend,
}

module _ (online : OnlineUsers) (a b : ℕ) where
  any-friends :
      (rows : List Friendship)
      → any (λ (f : Friend). f.id == b) (map (friend_in online a) (filter (has_accepted a) rows))
        ≡ any (λ f. joins a b f && is_accepted f.status) rows
  any-friends [] = refl
  any-friends (f ∷ rows) = elim (Bool-cases (is_accepted f.status)) [
    | inl x ↦ ground (arith, any-friends rows)
    | inr x ↦ ground (arith, any-friends rows)
  ]

-- The list of friends and the test of friendship agree: a user is in the list exactly if an accepted
-- request joins the two, whichever of them asked.
pub get_friends-are_friends :
    (s : FriendService) (a b : ℕ)
    → any (λ (f : Friend). f.id == b) (get_friends s a) ≡ are_friends s.friendships a b
unfolding get_friends are_friends
get_friends-are_friends s a b = any-friends s.online a b s.friendships

-- How many accepted rows join two users.
abbrev pub links : ℕ → ℕ → List Friendship → ℕ
links a b [] = 0
links a b (f ∷ rows) = (if joins a b f && is_accepted f.status then 1 else 0) + links a b rows

pub are_friends-links :
    (rows : List Friendship) (a b : ℕ) → are_friends rows a b ≡ not (links a b rows == 0)
unfolding are_friends
are_friends-links [] a b = ground arith
are_friends-links (f ∷ rows) a b = ground (arith, are_friends-links rows a b)

abbrev pub HasDistinctIds : List Friendship → Type 0
HasDistinctIds [] = Unit
HasDistinctIds (f ∷ rows) =
    (any (λ (g : Friendship). g.id == f.id) rows ≡ false) × HasDistinctIds rows

abbrev pub is_same_pair : (a b x y : ℕ) → Bool
is_same_pair a b x y = (a == x && b == y) || (a == y && b == x)

delete_friendship-absent :
    (id : ℕ) (rows : List Friendship)
    → any (λ (g : Friendship). g.id == id) rows ≡ false
    → delete_friendship id rows ≡ rows
delete_friendship-absent id [] h = refl
delete_friendship-absent id (f ∷ rows) h = ground (arith, delete_friendship-absent id rows)

any_of-find :
    (rows : List Friendship) (a b : ℕ) (f : Friendship)
    → friendship_between rows a b ≡ some f
    → any (λ (g : Friendship). g.id == f.id) rows ≡ true
any_of-find [] a b f h = absurd (ground arith)
any_of-find (g ∷ rows) a b f h = ground (arith, any_of-find rows a b f)

any_same :
    (i j : ℕ) (rows : List Friendship)
    → (i == j) ≡ true
    → any (λ (g : Friendship). g.id == i) rows ≡ any (λ (g : Friendship). g.id == j) rows
any_same i j rows h =
    let e : i ≡ j = ground arith in ap (λ z. any (λ (g : Friendship). g.id == z) rows) e

joins-is_same_pair :
    (a b x y : ℕ) (f : Friendship) → joins a b f ≡ true → joins x y f ≡ is_same_pair a b x y
joins-is_same_pair a b x y f h = ground arith

delete_friendship-head :
    (f : Friendship) (rows : List Friendship)
    → any (λ (g : Friendship). g.id == f.id) rows ≡ false
    → delete_friendship f.id (f ∷ rows) ≡ rows
delete_friendship-head f rows new = ground (arith, delete_friendship-absent f.id rows)

found_first :
    (f g : Friendship) (rows : List Friendship) (a b : ℕ)
    → friendship_between (g ∷ rows) a b ≡ some f
    → (joins a b g && is_accepted g.status) ≡ true
    → g ≡ f
found_first f g rows a b h here = ground arith

found_later :
    (f g : Friendship) (rows : List Friendship) (a b : ℕ)
    → friendship_between (g ∷ rows) a b ≡ some f
    → (joins a b g && is_accepted g.status) ≡ false
    → friendship_between rows a b ≡ some f
found_later f g rows a b h here = ground arith

links-delete_friendship :
    (rows : List Friendship) (a b : ℕ) (f : Friendship) (x y : ℕ)
    → HasDistinctIds rows
    → friendship_between rows a b ≡ some f
    → links x y (delete_friendship f.id rows) + (if is_same_pair a b x y then 1 else 0)
      ≡ links x y rows
links-delete_friendship [] a b f x y d h = absurd (ground arith)
links-delete_friendship (g ∷ rows) a b f x y (new, d) h =
    elim (Bool-cases (joins a b g && is_accepted g.status)) [
      | inl here ↦
          let e = found_first f g rows a b h here in
          let gone : delete_friendship f.id (g ∷ rows) ≡ rows =
            ap (λ z. delete_friendship z.id (g ∷ rows)) (sym e)
            ∙ delete_friendship-head g rows new in
          ap (λ z. links x y z + (if is_same_pair a b x y then 1 else 0)) gone
          ∙ ground (arith, joins-is_same_pair a b x y g)
      | inr later ↦
          let e = found_later f g rows a b h later in
          let other : (g.id == f.id) ≡ false = elim (Bool-cases (g.id == f.id)) [
            | inl same ↦ absurd (ground (arith, any_same g.id f.id rows, any_of-find rows a b f e))
            | inr apart ↦ apart
          ] in
          ground (arith, links-delete_friendship rows a b f x y d e)
    ]

-- Removing a friend, where row identifiers are distinct, takes away exactly one accepted row between
-- the two users, and none between any other two.
pub remove_friend-links :
    (s t : FriendService) (a b : ℕ)
    → HasDistinctIds s.friendships
    → remove_friend s a b ≡ ok t
    → (x y : ℕ)
    → links x y t.friendships + (if is_same_pair a b x y then 1 else 0) ≡ links x y s.friendships
unfolding remove_friend
remove_friend-links s t a b d h x y = elim (Option-cases (friendship_between s.friendships a b)) [
  | inl e ↦ absurd (ground arith)
  | inr (f, e) ↦
      let rest : t.friendships ≡ delete_friendship f.id s.friendships = ground arith in
      ap (λ rows. links x y rows + (if is_same_pair a b x y then 1 else 0)) rest
      ∙ links-delete_friendship s.friendships a b f x y d e
]

-- Two users who have asked and accepted each other stay friends when one of them removes the other.
pub remove_friend_mutual :
    (s t : FriendService) (a b : ℕ)
    → HasDistinctIds s.friendships
    → 2 ≤ links a b s.friendships
    → remove_friend s a b ≡ ok t
    → are_friends t.friendships a b ≡ true
remove_friend_mutual s t a b d two h =
    ground (arith, are_friends-links t.friendships a b, remove_friend-links s t a b d h a b)
