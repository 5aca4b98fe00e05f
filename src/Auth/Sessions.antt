-- ===== src/Auth/Sessions.antt =====
-- src/modules/auth/service/auth.service.ts without the sign-in by wallet: registration, login, logout.
use swafri_backend.Common.{
  ℕ, ◌-◌, ◌*◌, true, not, ◌||◌, Option, none, some, ◌==◌, if◌then◌else◌, is_some, Result, ok, err,
  unauthorized, forbidden, conflict, unique_violation,
}
use swafri_backend.Effects.{Run, ◌>>=◌, ◌>>◌, ensure, require, read, modify, return}
use swafri_backend.Redis.{Redis, blacklist}
use swafri_backend.Users.{
  User, user, Accounts, create, find_by_email, find_by_username, set_refresh_token_hash,
  remove_refresh_token,
}
use swafri_backend.Auth.{
  Claims, Crypto, seconds, generate_token_pair, verify_access_token, verify_refresh_token,
}
use swafri_backend.Auth.Guard.{on_redis, truthy}

-- The row of a new user, with the defaults of the schema.
abbrev pub new_user :
    (id email username password : ℕ) → (wallet verified_at profile_id : Option ℕ) → User
new_user id email username password wallet verified_at profile_id = record {
  id = id;
  email = email;
  username = username;
  password = password;
  avatar = none;
  wallet_address = wallet;
  role = user;
  is_active = true;
  deleted_at = none;
  wins = 0;
  losses = 0;
  total_matches = 0;
  current_streak = 0;
  longest_streak = 0;
  points = 0;
  refresh_token = none;
  blockchain_profile_id = profile_id;
  wallet_verified_at = verified_at;
}

-- Tokens for a user, and the hash of the refresh token in the user's row.
unfoldable pub open_session :
    Crypto → (now : ℕ) → User → (jti1 jti2 salt : ℕ) → Run Accounts (ℕ × ℕ)
open_session k now u jti1 jti2 salt = do
  let tokens = generate_token_pair k now u.id u.email u.role jti1 jti2
  set_refresh_token_hash u.id (k.hash_password salt (tokens.1))
  return tokens

-- `catch` of a P2002.
abbrev pub catch_duplicate {ℓ κ} : {S : Type ℓ} {A : Type κ} → S × Result A → S × Result A
catch_duplicate (s, ok a) = (s, ok a)
catch_duplicate (s, err unique_violation) = (s, err (conflict "Duplicate field value entered"))
catch_duplicate (s, err e) = (s, err e)

abbrev pub insert_account : Crypto → (now : ℕ) → User → (jti1 jti2 salt : ℕ) → Run Accounts (ℕ × ℕ)
insert_account k now row jti1 jti2 salt = do u ← create row; open_session k now u jti1 jti2 salt

unfoldable pub register :
    Crypto
    → (now id email username password profile_id : ℕ) → (jti1 jti2 salt1 salt2 : ℕ)
    → Run Accounts (ℕ × ℕ)
register k now id email username password profile_id jti1 jti2 salt1 salt2 = do
  email_taken ← read (λ (s : Accounts). is_some (find_by_email s.users email))
  ensure (not email_taken) (conflict "Email already in use")
  username_taken ← read (λ (s : Accounts). is_some (find_by_username s.users username))
  ensure (not username_taken) (conflict "Username already in use")
  λ s. catch_duplicate (
      insert_account k now
        (new_user id email username (k.hash_password salt1 password) none none (some profile_id))
        jti1 jti2 salt2 s)

-- The user, if the password is right.
abbrev pub with_password : Crypto → (password : ℕ) → Option User → Option User
with_password k password none = none
with_password k password (some u) = if k.compare_passwords password u.password then some u else none

unfoldable pub login :
    Crypto → (now email password : ℕ) → (jti1 jti2 salt : ℕ) → Run Accounts (ℕ × ℕ)
login k now email password jti1 jti2 salt = do
  found ← read (λ (s : Accounts). with_password k password (find_by_email s.users email))
  u ← require found (unauthorized "Invalid credentials")
  ensure u.is_active (forbidden "Account is deactivated")
  open_session k now u jti1 jti2 salt

-- For the rest of the token's life; `jti` and `exp` are tested for being there and not empty.
abbrev pub revoke_until : (now jti : ℕ) → Option ℕ → Redis → Redis
revoke_until now jti none r = r
revoke_until now jti (some exp) r =
    if jti == 0 || exp == 0 then r else blacklist now jti ((exp - seconds now) * 1000) r

abbrev pub revoke : (now : ℕ) → Option Claims → Redis → Redis
revoke now none r = r
revoke now (some c) r = revoke_until now c.jti c.exp r

abbrev pub access_claims : Crypto → (now : ℕ) → Option ℕ → Option Claims
access_claims k now none = none
access_claims k now (some token) = verify_access_token k now token true

abbrev pub refresh_claims : Crypto → (now : ℕ) → Option ℕ → Option Claims
refresh_claims k now none = none
refresh_claims k now (some token) = verify_refresh_token k now token

unfoldable pub logout :
    Crypto → (now user_id : ℕ) → (access refresh : Option ℕ) → Run Accounts (Unit {0})
logout k now user_id access refresh = do
  remove_refresh_token user_id
  modify (on_redis (revoke now (access_claims k now (truthy access))))
  modify (on_redis (revoke now (refresh_claims k now (truthy refresh))))
