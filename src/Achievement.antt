-- ===== src/Achievement.antt =====
-- src/modules/achievement/service/achievement.service.ts: the criteria of the badges and their award.
pub mod Criteria
pub mod Awards
mod Tests
use swafri_backend.Common.{
  ℕ, ◌+◌, ◌*◌, Bool, true, false, ◌&&◌, Option, none, some, List, [], ◌∷◌, ◌++◌, ◌==◌,
  if◌then◌else◌, ltb, leb, is_some, any, filter, map, length, codes, same_text, take_while,
  drop_while, all_of, is_word, is_space, is_digit, parse_digits, Result, ok, err,
}
use swafri_backend.Effects.{Run, ◌>>=◌, ◌>>◌, read, return}
use swafri_backend.Users.{User, find_user}
use swafri_backend.Records.{Records, Achievement, Job, mint_badge, create_earned, add_job, is_pair}

pub data Operator : Type 0 where
  ge gt le lt eq : Operator

pub record Criterion : Type 0 where
  pub column : List ℕ
  pub operator : Operator
  pub value : ℕ

-- After `>` or `<`: the operator with an equals sign, if there is one.
abbrev pub after_angle : (strict loose : Operator) → List ℕ → Option (Operator × List ℕ)
after_angle strict loose [] = some (strict, [])
after_angle strict loose (c ∷ cs) = if c == 61 then some (loose, cs) else some (strict, c ∷ cs)

abbrev pub skip_equals : List ℕ → List ℕ
skip_equals [] = []
skip_equals (c ∷ cs) = if c == 61 then cs else c ∷ cs

-- After `=`: `===?` needs one more.
abbrev pub after_equals : List ℕ → Option (Operator × List ℕ)
after_equals [] = none
after_equals (c ∷ cs) = if c == 61 then some (eq, skip_equals cs) else none

abbrev pub read_operator : List ℕ → Option (Operator × List ℕ)
read_operator [] = none
read_operator (c ∷ cs) =
    if c == 62
    then after_angle gt ge cs
    else if c == 60
    then after_angle lt le cs
    else if c == 61
    then after_equals cs
    else none

abbrev pub read_value : List ℕ → Operator → List ℕ → Option Criterion
read_value column operator [] = none
read_value column operator (d ∷ ds) =
    if all_of is_digit (d ∷ ds)
    then some (record { column = column; operator = operator; value = parse_digits 0 (d ∷ ds) })
    else none

abbrev pub read_rest : List ℕ → Option (Operator × List ℕ) → Option Criterion
read_rest [] rest = none
read_rest (c ∷ cs) none = none
read_rest (c ∷ cs) (some (operator, rest)) = read_value (c ∷ cs) operator (drop_while is_space rest)

-- The regular expression of `evaluate`, `^(\w+)\s*(>=|>|<=|<|===?)\s*(\d+)$`. No part can begin with a
-- character that the part before it may take, so the longest match of each part is the only one.
unfoldable pub parse_criteria : List ℕ → Option Criterion
parse_criteria text =
    read_rest (take_while is_word text)
      (read_operator (drop_while is_space (drop_while is_word text)))

-- The columns of a user that hold numbers.
unfoldable pub numeric_column : User → List ℕ → Option ℕ
numeric_column u name =
    if same_text name (codes "wins")
    then some u.wins
    else if same_text name (codes "losses")
    then some u.losses
    else if same_text name (codes "totalMatches")
    then some u.total_matches
    else if same_text name (codes "currentStreak")
    then some u.current_streak
    else if same_text name (codes "longestStreak")
    then some u.longest_streak
    else if same_text name (codes "points")
    then some u.points
    else none

abbrev pub compares : Operator → ℕ → ℕ → Bool
compares ge actual value = leb value actual
compares gt actual value = ltb value actual
compares le actual value = leb actual value
compares lt actual value = ltb actual value
compares eq actual value = actual == value

-- `user.walletAddress && user.walletVerifiedAt`; an empty address is 0.
abbrev pub mint_for : User → (badge_name : ℕ) → Option ℕ → Option ℕ → Run Records (Unit {0})
mint_for u badge_name (some address) (some verified_at) =
    if address == 0 then return tt else add_job (mint_badge address badge_name)
mint_for u badge_name (some address) none = return tt
mint_for u badge_name none verified_at = return tt

abbrev pub award : User → Achievement → Run Records (Unit {0})
award u a = do create_earned u.id a.id; mint_for u a.name u.wallet_address u.wallet_verified_at

pub record Awarded : Type 0 where
  pub badges : List ℕ
  pub bonus_points : ℕ

-- `other` is what JavaScript answers for the names that are no column with numbers: for a name that a
-- user does not have, no; for a text, a date or a flag, what its comparison with a number gives.
module _ (other : User → Criterion → Bool) where
  abbrev pub meets : User → Criterion → Option ℕ → Bool
  meets u c none = other u c
  meets u c (some actual) = compares c.operator actual c.value

  abbrev pub evaluate_parsed : User → Option Criterion → Bool
  evaluate_parsed u none = false
  evaluate_parsed u (some c) = meets u c (numeric_column u c.column)

  unfoldable pub evaluate : (criteria : List ℕ) → User → Bool
  evaluate criteria u = evaluate_parsed u (parse_criteria criteria)

  -- The loop: `earned` is what was read before it.
  unfoldable pub award_each :
      User → (earned : List (ℕ × ℕ)) → List Achievement → Run Records (List ℕ)
  award_each u earned [] = return []
  award_each u earned (a ∷ rest) =
      let later = award_each u earned rest in
      if any (is_pair u.id a.id) earned
      then later
      else if evaluate a.criteria u
      then (award u a >> (later >>= λ (names : List ℕ). return (a.name ∷ names)))
      else later

  abbrev pub award_found : Option User → Run Records (List ℕ)
  award_found none s = (s, ok [])
  award_found (some u) s = award_each u s.earned s.achievements s

  unfoldable pub check_and_award : (user_id : ℕ) → Run Records Awarded
  check_and_award user_id = do
    found ← read (λ (s : Records). find_user s.users user_id)
    badges ← award_found found
    return (record { badges = badges; bonus_points = length badges * 20 })
