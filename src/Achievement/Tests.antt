-- ===== src/Achievement/Tests.antt =====
-- Two badges and one user.
use swafri_backend.Common.{
  ◌*◌, ◌≡◌, refl, Bool, true, false, none, some, [], ◌∷◌, ◌++◌, codes, map, length, ok,
}
use swafri_backend.Users.{User, user}
use swafri_backend.Records.{Records, Achievement}
use swafri_backend.Achievement.{
  ge, Criterion, parse_criteria, evaluate, numeric_column, check_and_award,
}
use swafri_backend.Achievement.Criteria.{parse_criteria-spell}
use swafri_backend.Achievement.Awards.{
  all_due, name_of, pair_of, check_and_award-all_due, check_and_award-again,
}

abbrev ann : User
ann = record {
  id = 1;
  email = 11;
  username = 21;
  password = 0;
  avatar = none;
  wallet_address = some 31;
  role = user;
  is_active = true;
  deleted_at = none;
  wins = 3;
  losses = 1;
  total_matches = 4;
  current_streak = 2;
  longest_streak = 2;
  points = 30;
  refresh_token = none;
  blockchain_profile_id = none;
  wallet_verified_at = some 5;
}

abbrev first_win : Achievement
first_win = record { id = 7; name = 70; criteria = codes "wins >= 1" }

abbrev veteran : Achievement
veteran = record { id = 8; name = 80; criteria = codes "totalMatches>100" }

abbrev records : Records
records = record {
  users = ann ∷ [];
  matches = [];
  achievements = first_win ∷ veteran ∷ [];
  earned = [];
  jobs = [];
  refused = [];
}

abbrev nothing_else : User → Criterion → Bool
nothing_else u c = false

parse_criteria-spell_example :
    parse_criteria (codes "wins >= 10")
    ≡ some (record { column = codes "wins"; operator = ge; value = 10 })
parse_criteria-spell_example =
    parse_criteria-spell (codes "wins") (32 ∷ []) (32 ∷ []) (codes "10") true ge refl refl refl refl
      refl refl

first_badge : all_due nothing_else ann [] records.achievements ≡ first_win ∷ []
unfolding evaluate parse_criteria numeric_column
first_badge = refl

check_and_award-all_due_example :
    ((check_and_award nothing_else 1 records).1
      ≡ ok (record {
        badges = map name_of (all_due nothing_else ann [] records.achievements);
        bonus_points = length (map name_of (all_due nothing_else ann [] records.achievements)) * 20;
      }))
    × ((check_and_award nothing_else 1 records).0.earned
        ≡ [] ++ map (pair_of ann) (all_due nothing_else ann [] records.achievements))
    × ((check_and_award nothing_else 1 records).0.users ≡ records.users)
    × ((check_and_award nothing_else 1 records).0.achievements ≡ records.achievements)
    × ((check_and_award nothing_else 1 records).0.refused ≡ [])
check_and_award-all_due_example =
    check_and_award-all_due nothing_else 1 records ann refl (((refl), tt), (tt, tt)) refl

check_and_award-again_example :
    (check_and_award nothing_else 1 ((check_and_award nothing_else 1 records).0)).1
    ≡ ok (record { badges = []; bonus_points = 0 })
check_and_award-again_example =
    check_and_award-again nothing_else 1 records ann refl (((refl), tt), (tt, tt)) refl
