-- ===== src/Users/Tests.antt =====
-- Three users on pages of two.
use swafri_backend.Common.{ℕ, ◌<◌, ◌≡◌, ◌↔◌, Bool, true, false, none, [], ◌∷◌, length, arith}
use swafri_backend.Users.{User, user}
use swafri_backend.Users.Listing.{UserFilters, find_all, find_all-has_next}

abbrev somebody : (id : ℕ) → User
somebody id = record {
  id = id;
  email = id;
  username = id;
  password = 0;
  avatar = none;
  wallet_address = none;
  role = user;
  is_active = true;
  deleted_at = none;
  wins = 0;
  losses = 0;
  total_matches = 0;
  current_streak = 0;
  longest_streak = 0;
  points = 0;
  refresh_token = none;
  blockchain_profile_id = none;
  wallet_verified_at = none;
}

abbrev everybody : UserFilters
everybody = record { role = none; is_active = none; include_deleted = false; search = none }

abbrev never : (text part : ℕ) → Bool
never text part = false

find_all-has_next_example :
    ((find_all never
        (somebody 1 ∷ somebody 2 ∷ somebody 3 ∷ [])
        everybody
        (record { page = 1; limit = 2 })).has_next
      ≡ true)
    ↔ (0
        < length (
            (find_all never
              (somebody 1 ∷ somebody 2 ∷ somebody 3 ∷ [])
              everybody
              (record { page = 2; limit = 2 })).data_of_page))
find_all-has_next_example =
    find_all-has_next never (somebody 1 ∷ somebody 2 ∷ somebody 3 ∷ []) everybody 1 2 (omega arith)
