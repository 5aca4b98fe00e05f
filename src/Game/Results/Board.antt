-- ===== src/Game/Results/Board.antt =====
-- A board: a map from identifiers to users, on which a result of a match is one change at the winner and
-- one at the loser. It is what the statistics of src/modules/game/service/game.service.ts come to.
use swafri_backend.Common.{
  ℕ, ◌+◌, ◌≡◌, refl, ap, ◌∙◌, sym, inl, inr, Bool, true, ◌&&◌, Option, none, some, List, ◌==◌,
  if◌then◌else◌, ltb, Result, ok, arith, Bool-cases,
}
use swafri_backend.Users.{User, find_user, replace_user}
use swafri_backend.Users.Rows.{find_user-id, find_user-replace_user}
use swafri_backend.Records.{Records}
use swafri_backend.Game.Room.{PlayerState}
use swafri_backend.Game.Results.{is_verified, is_verified_in, loser_of}

abbrev pub Board : Type 0
Board = ℕ → Option User

abbrev pub change_found : (User → User) → Option User → Option User
change_found change none = none
change_found change (some u) = some (change u)

abbrev pub change_at : Bool → (id : ℕ) → (User → User) → Board → Board
change_at test id change b asked =
    if test && id == asked then change_found change (b asked) else b asked

-- A win, a loss and a draw in a row.
abbrev pub won : User → User
won u = record u {
  wins = u.wins + 1;
  total_matches = u.total_matches + 1;
  points = u.points + 10;
  current_streak = u.current_streak + 1;
  longest_streak =
      if ltb u.longest_streak (u.current_streak + 1)
      then u.current_streak + 1
      else u.longest_streak;
}

abbrev pub lost : User → User
lost u = record u { losses = u.losses + 1; total_matches = u.total_matches + 1; current_streak = 0 }

abbrev pub drawn : User → User
drawn u = record u { total_matches = u.total_matches + 1 }

-- The result on the board: only players with a verified wallet score.
abbrev pub score : PlayerState → PlayerState → Option ℕ → Board → Board
score p1 p2 none b =
    change_at (is_verified p2) p2.user_id drawn (change_at (is_verified p1) p1.user_id drawn b)
score p1 p2 (some winner) b =
    change_at (is_verified_in p1 p2 (loser_of p1 p2 winner)) (loser_of p1 p2 winner) lost
      (change_at (is_verified_in p1 p2 winner) winner won b)

abbrev pub IsKnown : Board → ℕ → Type 0
IsKnown b id = (u : User) × (b id ≡ some u)

-- A run that ends well and does to the table what a change does to the board.
pub record Refines (s : Records) (change : Board → Board) (r : Records × Result (Unit {0}))
    : Type 0 where
  pub ends : r.1 ≡ ok tt
  pub shows : (asked : ℕ) → find_user r.0.users asked ≡ change (find_user s.users) asked
  pub same_refused : r.0.refused ≡ s.refused

pub find_user-written :
    (us : List User) (id asked : ℕ) (u v : User)
    → find_user us id ≡ some u
    → v.id ≡ u.id
    → find_user (replace_user v us) asked ≡ (if id == asked then some v else find_user us asked)
find_user-written us id asked u v found same =
    ground (arith, find_user-id us id u found, find_user-replace_user v u us asked)

pub changed_at :
    (us : List User) (id asked : ℕ) (u : User) (change : User → User)
    → find_user us id ≡ some u
    → (if id == asked then some (change u) else find_user us asked)
      ≡ change_at true id change (find_user us) asked
changed_at us id asked u change found = elim (Bool-cases (id == asked)) [
  | inl a ↦ rw (a, ap (find_user us) (sym (same a)) ∙ found) refl
  | inr a ↦ rw a refl
]
  where
    same : (id == asked) ≡ true → id ≡ asked
    same a = ground arith
