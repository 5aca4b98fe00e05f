-- ===== src/Game/Results/Soundness.antt =====
-- The columns of statistics, over what src/modules/game/service/game.service.ts writes to them for a result.
use swafri_backend.Common.{
  ℕ, ◌+◌, ◌*◌, ◌≤◌, ◌≡◌, refl, subst, inl, inr, Bool, true, false, some, List, [], ◌∷◌, ◌==◌,
  if◌then◌else◌, ltb, All, arith, Bool-cases,
}
use swafri_backend.Users.{User, find_user, replace_user}
use swafri_backend.Records.{Records, next_refused, later_refused}
use swafri_backend.Game.Results.{after_win, after_loss, after_draw}

-- The streak is not above the longest one where the database takes every write, and else not above the
-- wins.
abbrev pub streak_bound : (reliable : Bool) → User → ℕ
streak_bound true u = u.longest_streak
streak_bound false u = u.wins

-- No more results than matches, ten points for each win, and bounds of the streaks.
pub record IsSoundUser (reliable : Bool) (u : User) : Type 0 where
  pub results : u.wins + u.losses ≤ u.total_matches
  pub scored : 10 * u.wins ≤ u.points
  pub streaks : u.current_streak ≤ streak_bound reliable u
  pub won : u.longest_streak ≤ u.wins

-- A reliable database takes all coming writes.
abbrev pub IsAnswering : (reliable : Bool) → List Bool → Type 0
IsAnswering true refused = refused ≡ []
IsAnswering false refused = Unit

abbrev pub IsSoundTable : (reliable : Bool) → Records → Type 0
IsSoundTable reliable s = All (IsSoundUser reliable) s.users × IsAnswering reliable s.refused

pub later-IsAnswering :
    (reliable : Bool) (refused : List Bool)
    → IsAnswering reliable refused
    → IsAnswering reliable (later_refused refused)
later-IsAnswering true refused h = rw h refl
later-IsAnswering false refused h = tt

module _ {κ} (P : User → Type κ) where
  pub All-find_user :
      (us : List User) (id : ℕ) (u : User) → All P us → find_user us id ≡ some u → P u
  All-find_user [] id u h found = absurd (ground arith)
  All-find_user (v ∷ us) id u (p, h) found = elim (Bool-cases (v.id == id)) [
    | inl a ↦ subst P (ground arith) p
    | inr a ↦ All-find_user us id u h (ground arith)
  ]

  if_both : (test : Bool) (v w : User) → P v → P w → P (if test then v else w)
  if_both true v w p q = p
  if_both false v w p q = q

  pub All-replace_user : (v : User) (us : List User) → P v → All P us → All P (replace_user v us)
  All-replace_user v [] p h = tt
  All-replace_user v (w ∷ us) p (q, h) = (if_both (w.id == v.id) v w p q, All-replace_user v us p h)

  -- The second of two writes to a row makes up for the first.
  pub All-replace_twice :
      (v w : User) (us : List User)
      → P w
      → (v.id == w.id) ≡ true
      → All P us
      → All P (replace_user w (replace_user v us))
  All-replace_twice v w [] p same h = tt
  All-replace_twice v w (x ∷ us) p same (q, h) = (
    elim (Bool-cases (x.id == v.id)) [
      | inl a ↦ rw (a, same) p
      | inr a ↦ rw a (if_both (x.id == w.id) w x p q)
    ],
    All-replace_twice v w us p same h,
  )

pub sound_win :
    (reliable : Bool) (u : User)
    → IsSoundUser reliable u
    → ltb u.longest_streak (u.current_streak + 1) ≡ false
    → IsSoundUser reliable (after_win u)
sound_win reliable u h kept = record {
  results = omega (arith, h.results);
  scored = omega (arith, h.scored);
  streaks = bound reliable h;
  won = omega (arith, h.won);
}
  where
    bound :
        (reliable : Bool)
        → IsSoundUser reliable u
        → u.current_streak + 1 ≤ streak_bound reliable (after_win u)
    bound true h = ground arith
    bound false h = omega (arith, h.streaks)

-- A win whose second write is rejected.
pub sound_late :
    (reliable : Bool) (u : User) (refused : List Bool)
    → IsSoundUser reliable u
    → IsAnswering reliable refused
    → next_refused (later_refused refused) ≡ true
    → IsSoundUser reliable (after_win u)
sound_late true u refused h answering late = absurd (ground arith)
sound_late false u refused h answering late = record {
  results = omega (arith, h.results);
  scored = omega (arith, h.scored);
  streaks = omega (arith, h.streaks);
  won = omega (arith, h.won);
}

streaks-wins : (reliable : Bool) (u : User) → IsSoundUser reliable u → u.current_streak ≤ u.wins
streaks-wins true u h = omega (arith, h.streaks, h.won)
streaks-wins false u h = h.streaks

pub sound_longer :
    (reliable : Bool) (u : User)
    → IsSoundUser reliable u
    → IsSoundUser reliable (record (after_win u) { longest_streak = u.current_streak + 1 })
sound_longer reliable u h = record {
  results = omega (arith, h.results);
  scored = omega (arith, h.scored);
  streaks = bound reliable h;
  won = omega (arith, streaks-wins reliable u h);
}
  where
    bound :
        (reliable : Bool)
        → IsSoundUser reliable u
        → u.current_streak + 1
          ≤ streak_bound reliable (record (after_win u) { longest_streak = u.current_streak + 1 })
    bound true h = omega arith
    bound false h = omega (arith, h.streaks)

pub sound_loss :
    (reliable : Bool) (u : User) → IsSoundUser reliable u → IsSoundUser reliable (after_loss u)
sound_loss reliable u h = record {
  results = omega (arith, h.results);
  scored = h.scored;
  streaks = omega arith;
  won = h.won;
}

pub sound_draw :
    (reliable : Bool) (u : User) → IsSoundUser reliable u → IsSoundUser reliable (after_draw u)
sound_draw reliable u h = record {
  results = omega (arith, h.results);
  scored = h.scored;
  streaks = bound reliable h;
  won = h.won;
}
  where
    bound :
        (reliable : Bool)
        → IsSoundUser reliable u
        → u.current_streak ≤ streak_bound reliable (after_draw u)
    bound true h = h.streaks
    bound false h = h.streaks

pub sound_bonus :
    (reliable : Bool) (n : ℕ) (u : User)
    → IsSoundUser reliable u
    → IsSoundUser reliable (record u { points = u.points + n })
sound_bonus reliable n u h = record {
  results = h.results;
  scored = omega (arith, h.scored);
  streaks = bound reliable h;
  won = h.won;
}
  where
    bound :
        (reliable : Bool)
        → IsSoundUser reliable u
        → u.current_streak ≤ streak_bound reliable (record u { points = u.points + n })
    bound true h = h.streaks
    bound false h = h.streaks
