-- ===== src/Auth/Guard.antt =====
-- src/core/guard/jwt-auth.guard.ts and src/core/guard/roles.guard.ts.
use swafri_backend.Common.{
  ℕ, ◌-◌, ◌*◌, Bool, true, false, not, Option, none, some, List, [], ◌∷◌, ◌==◌, if◌then◌else◌, ltb,
  any, Result, ok, err, unauthorized, forbidden, internal_error,
}
use swafri_backend.Effects.{Run, ◌>>=◌, ◌>>◌, ensure, require, read, modify, return}
use swafri_backend.Redis.{
  Redis, is_blacklisted, blacklist, cache_active_status, get_cached_active_status,
}
use swafri_backend.Users.{User, Role, user, admin, Accounts, find_user, set_refresh_token_hash}
use swafri_backend.Auth.{
  Claims, Crypto, seconds, verify_access_token, verify_refresh_token, generate_token_pair,
}

-- `req.user`.
pub record Identity : Type 0 where
  pub user_id : ℕ
  pub email : ℕ
  pub role : Option Role

-- A request that passes, with the cookies that are set if its tokens were rotated.
pub record Admitted : Type 0 where
  pub identity : Identity
  pub cookies : Option (ℕ × ℕ)

abbrev pub on_redis : (Redis → Redis) → Accounts → Accounts
on_redis change s = record s { redis = change s.redis }

-- A cookie that is absent or empty.
abbrev pub truthy : Option ℕ → Option ℕ
truthy none = none
truthy (some token) = if token == 0 then none else some token

-- The user as the database has it on a miss of the cache.
abbrev pub assert_stored : (now user_id : ℕ) → Option User → Run Accounts (Unit {0})
assert_stored now user_id none s = (s, ok tt)
assert_stored now user_id (some u) s =
    ensure u.is_active (forbidden "Account is deactivated")
      (on_redis (cache_active_status now user_id u.is_active) s)

abbrev pub assert_cached : (now user_id : ℕ) → Option Bool → Run Accounts (Unit {0})
assert_cached now user_id (some cached) s = ensure cached (forbidden "Account is deactivated") s
assert_cached now user_id none s = assert_stored now user_id (find_user s.users user_id) s

unfoldable pub assert_active : (now user_id : ℕ) → Run Accounts (Unit {0})
assert_active now user_id s =
    assert_cached now user_id (get_cached_active_status now user_id s.redis) s

abbrev pub attach_user : Claims → Option (ℕ × ℕ) → Admitted
attach_user c cookies = record {
  identity = record { user_id = c.sub; email = c.email; role = c.role };
  cookies = cookies;
}

-- `user?.refreshToken`, with the user; an empty text is none.
abbrev pub with_session : Option User → Option (User × ℕ)
with_session none = none
with_session (some u) = elim (truthy u.refresh_token) [
  | none ↦ none
  | some hashed ↦ some (u, hashed)
]

-- Milliseconds; a token without `exp` has seven days.
abbrev pub remaining : (now : ℕ) → Option ℕ → ℕ
remaining now none = 7 * 24 * 60 * 60 * 1000
remaining now (some exp) = if exp == 0 then 7 * 24 * 60 * 60 * 1000 else (exp - seconds now) * 1000

unfoldable pub handle_silent_refresh :
    Crypto → (now : ℕ) → Option ℕ → (jti1 jti2 salt : ℕ) → Run Accounts Admitted
handle_silent_refresh k now cookie jti1 jti2 salt = do
  token ← require (truthy cookie) (unauthorized "Session expired — please log in again")
  payload ←
      require (verify_refresh_token k now token) (unauthorized "Invalid or expired refresh token")
  revoked ← read (λ (s : Accounts). is_blacklisted now payload.jti s.redis)
  ensure (not revoked) (unauthorized "Refresh token has been revoked")
  found ← read (λ (s : Accounts). with_session (find_user s.users payload.sub))
  (u, hashed) ← require found (unauthorized "Session revoked — please log in again")
  ensure u.is_active (forbidden "Account is deactivated")
  ensure (k.compare_passwords token hashed) (unauthorized "Refresh token mismatch")
  modify (on_redis (blacklist now payload.jti (remaining now payload.exp)))
  let tokens = generate_token_pair k now u.id u.email u.role jti1 jti2
  set_refresh_token_hash u.id (k.hash_password salt (tokens.1))
  modify (on_redis (cache_active_status now u.id u.is_active))
  renewed ← require (verify_access_token k now (tokens.0) false) internal_error
  return (attach_user renewed (some tokens))

-- The guard's own test: expired from the second after `exp` on.
abbrev pub is_past : (now : ℕ) → Option ℕ → Bool
is_past now none = false
is_past now (some exp) = ltb exp (seconds now)

abbrev pub admit_current : (now : ℕ) → Claims → Run Accounts Admitted
admit_current now payload = do assert_active now payload.sub; return (attach_user payload none)

unfoldable pub can_activate :
    Crypto → (now : ℕ) → (access refresh : Option ℕ) → (jti1 jti2 salt : ℕ) → Run Accounts Admitted
can_activate k now access refresh jti1 jti2 salt = do
  token ← require (truthy access) (unauthorized "No access token provided")
  payload ← require (verify_access_token k now token true) (unauthorized "Invalid access token")
  revoked ← read (λ (s : Accounts). is_blacklisted now payload.jti s.redis)
  ensure (not revoked) (unauthorized "Access token has been revoked")
  if is_past now payload.exp
      then handle_silent_refresh k now refresh jti1 jti2 salt
      else admit_current now payload

abbrev pub is_role : Role → Role → Bool
is_role user user = true
is_role admin admin = true
is_role _ _ = false

-- `RolesGuard.canActivate`; the message of the second refusal is left out.
unfoldable pub roles_can_activate : (required : List Role) → Option Role → Result (Unit {0})
roles_can_activate [] role = ok tt
roles_can_activate (r ∷ rs) none = err (forbidden "Access denied")
roles_can_activate (r ∷ rs) (some role) =
    if any (is_role role) (r ∷ rs) then ok tt else err (forbidden "Access denied")
