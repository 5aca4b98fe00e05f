-- ===== src/Auth/Access.antt =====
-- Who passes the guard of src/core/guard/jwt-auth.guard.ts after a change to the account.
use swafri_backend.Common.{
  List, ℕ, ◌+◌, ◌≤◌, ◌≡◌, refl, inl, inr, true, false, Option, none, some, ◌==◌, if◌then◌else◌, ltb,
  ok, err, forbidden, arith, Bool-cases,
}
use swafri_backend.Effects.{◌>>=◌}
use swafri_backend.Redis.{
  Redis, is_blacklisted, get_cached_active_status, invalidate_active_status, set_otp,
}
use swafri_backend.Redis.Expiry.{get-delete}
use swafri_backend.Users.{
  User, Accounts, find_user, replace_user, find_by_id, is_deleted, set_active_status, write_columns,
  any_by_email,
}
use swafri_backend.Users
use swafri_backend.Users.Rows.{find_user-id, find_user-replace_user}
use swafri_backend.Users.Service.{deactivate, soft_delete}
use swafri_backend.Auth.{
  Claims, Crypto, seconds, verify_access_token, reset_claims, generate_reset_token,
}
use swafri_backend.Auth.Guard.{can_activate, assert_active, attach_user, is_past}
use swafri_backend.Auth.Password.{request_password_reset}

-- A token that is neither listed nor past gets what the state of the account says.
can_activate-current :
    (k : Crypto) (now access : ℕ) (refresh : Option ℕ) (jti1 jti2 salt : ℕ) (s : Accounts)
    (c : Claims)
    → (access == 0) ≡ false
    → k.decode access ≡ some c
    → is_blacklisted now c.jti s.redis ≡ false
    → is_past now c.exp ≡ false
    → can_activate k now (some access) refresh jti1 jti2 salt s
      ≡ (assert_active now c.sub >>= λ _ t. (t, ok (attach_user c none))) s
unfolding can_activate verify_access_token
can_activate-current k now access refresh jti1 jti2 salt s c given is_c free current =
    rw (given, is_c, free, current) refl

-- Without a cached status the row decides.
assert_active-row :
    (now user_id : ℕ) (s : Accounts) (u : User)
    → get_cached_active_status now user_id s.redis ≡ none
    → find_user s.users user_id ≡ some u
    → (assert_active now user_id s).1
      ≡ (if u.is_active then ok tt else err (forbidden "Account is deactivated"))
unfolding assert_active
assert_active-row now user_id s u missing found = elim (Bool-cases u.is_active) [
  | inl a ↦ rw (missing, found, a) refl
  | inr a ↦ rw (missing, found, a) refl
]

can_activate-row :
    (k : Crypto) (now access : ℕ) (refresh : Option ℕ) (jti1 jti2 salt : ℕ) (s : Accounts)
    (c : Claims) (u : User)
    → (access == 0) ≡ false
    → k.decode access ≡ some c
    → is_blacklisted now c.jti s.redis ≡ false
    → is_past now c.exp ≡ false
    → get_cached_active_status now c.sub s.redis ≡ none
    → find_user s.users c.sub ≡ some u
    → (can_activate k now (some access) refresh jti1 jti2 salt s).1
      ≡ (if u.is_active then ok (attach_user c none) else err (forbidden "Account is deactivated"))
unfolding assert_active
can_activate-row k now access refresh jti1 jti2 salt s c u given is_c free current missing found =
    rw (can_activate-current k now access refresh jti1 jti2 salt s c given is_c free current)
      (elim (Bool-cases u.is_active) [
        | inl a ↦ rw (missing, found, a) refl
        | inr a ↦ rw (missing, found, a) refl
      ])

invalidated :
    (now user_id : ℕ) (r : Redis)
    → get_cached_active_status now user_id (invalidate_active_status user_id r) ≡ none
unfolding get_cached_active_status invalidate_active_status
invalidated now user_id r = ground (arith, get-delete now user_id user_id r.active)

still_free :
    (now jti user_id : ℕ) (r : Redis)
    → is_blacklisted now jti (invalidate_active_status user_id r) ≡ is_blacklisted now jti r
unfolding is_blacklisted invalidate_active_status
still_free now jti user_id r = refl

row_written :
    (us : List User) (id : ℕ) (u v : User)
    → find_user us id ≡ some u
    → v.id ≡ u.id
    → find_user (replace_user v us) id ≡ some v
row_written us id u v found same =
    ground (arith, find_user-id us id u found, find_user-replace_user v u us id)

deactivate_leaves :
    (id by : ℕ) (s : Accounts) (u : User)
    → find_user s.users id ≡ some u
    → u.is_active ≡ true
    → (id == by) ≡ false
    → (deactivate id by s).0 ≡ (record {
      users = replace_user (record u { is_active = false }) s.users;
      redis = invalidate_active_status id s.redis;
    })
unfolding deactivate set_active_status find_by_id write_columns
deactivate_leaves id by s u found active other = simp (other, found, active)

-- Once another user has deactivated a user who was active, each request with an access token of
-- that user that is neither revoked nor past its expiry is refused as of a deactivated account,
-- whatever status was cached before.
pub can_activate-deactivate :
    (k : Crypto) (later access : ℕ) (refresh : Option ℕ) (jti1 jti2 salt by : ℕ) (s : Accounts)
    (c : Claims) (u : User)
    → find_user s.users c.sub ≡ some u
    → u.is_active ≡ true
    → (c.sub == by) ≡ false
    → (access == 0) ≡ false
    → k.decode access ≡ some c
    → is_blacklisted later c.jti s.redis ≡ false
    → is_past later c.exp ≡ false
    → (can_activate k later (some access) refresh jti1 jti2 salt ((deactivate c.sub by s).0)).1
      ≡ err (forbidden "Account is deactivated")
can_activate-deactivate k later access refresh jti1 jti2 salt by s c u found active other given is_c
      free current =
    rw (deactivate_leaves c.sub by s u found active other) (
      can_activate-row k later access refresh jti1 jti2 salt _ c (record u { is_active = false })
        given is_c (rw (still_free later c.jti c.sub s.redis) free) current
        (invalidated later c.sub s.redis)
        (row_written s.users c.sub u (record u { is_active = false }) found refl))

soft_delete_leaves :
    (id by now : ℕ) (s : Accounts) (u : User)
    → find_user s.users id ≡ some u
    → u.deleted_at ≡ none
    → (id == by) ≡ false
    → (soft_delete id by now s).0 ≡ (record {
      users = replace_user (record u { deleted_at = some now }) s.users;
      redis = invalidate_active_status id s.redis;
    })
unfolding soft_delete Users.soft_delete find_by_id write_columns
soft_delete_leaves id by now s u found kept other = simp (other, found, kept)

-- The deletion of an account that is active leaves its access tokens good: the guard still admits a
-- request with one that is neither revoked nor expired, in the name of the deleted user.
pub can_activate-soft_delete :
    (k : Crypto) (now later access : ℕ) (refresh : Option ℕ) (jti1 jti2 salt by : ℕ) (s : Accounts)
    (c : Claims) (u : User)
    → find_user s.users c.sub ≡ some u
    → u.is_active ≡ true
    → u.deleted_at ≡ none
    → (c.sub == by) ≡ false
    → (access == 0) ≡ false
    → k.decode access ≡ some c
    → is_blacklisted later c.jti s.redis ≡ false
    → is_past later c.exp ≡ false
    → (can_activate k later (some access) refresh jti1 jti2 salt ((soft_delete c.sub by now s).0)).1
      ≡ ok (attach_user c none)
can_activate-soft_delete k now later access refresh jti1 jti2 salt by s c u found active kept other
      given is_c free current =
    rw (soft_delete_leaves c.sub by now s u found kept other) (
      rw
        (can_activate-row k later access refresh jti1 jti2 salt _ c
          (record u { deleted_at = some now }) given is_c
          (rw (still_free later c.jti c.sub s.redis) free) current (invalidated later c.sub s.redis)
          (row_written s.users c.sub u (record u { deleted_at = some now }) found refl))
        (rw active refl))

request_leaves :
    (k : Crypto) (now email otp jti : ℕ) (s : Accounts) (u : User)
    → any_by_email s.users email ≡ some u
    → request_password_reset k now email otp true jti s ≡ (
      record s { redis = set_otp k.hash_otp now u.id otp 600 s.redis },
      ok (generate_reset_token k now u.id u.email jti false),
    )
unfolding request_password_reset
request_leaves k now email otp jti s u found = simp found

reset_admitted :
    (k : Crypto) (now later email otp jti : ℕ) (refresh : Option ℕ) (jti1 jti2 salt : ℕ)
    (s : Accounts) (u : User)
    → find_user s.users u.id ≡ some u
    → u.is_active ≡ true
    → get_cached_active_status later u.id s.redis ≡ none
    → is_blacklisted later jti s.redis ≡ false
    → seconds later ≤ seconds now + 600
    → (can_activate k later
        (some (k.sign (reset_claims now u.id email jti false)))
        refresh
        jti1
        jti2
        salt
        (record s { redis = set_otp k.hash_otp now u.id otp 600 s.redis })).1
      ≡ ok (attach_user (reset_claims now u.id email jti false) none)
unfolding set_otp get_cached_active_status is_blacklisted
reset_admitted k now later email otp jti refresh jti1 jti2 salt s u found active missing free le =
    rw
      (can_activate-row k later (k.sign claims) refresh jti1 jti2 salt
        (record s { redis = set_otp k.hash_otp now u.id otp 600 s.redis }) claims u
        (k.sign_positive claims) (k.decode-sign claims) free current missing found)
      (rw active refl)
  where
    claims : Claims
    claims = reset_claims now u.id email jti false

    current : ltb (seconds now + 600) (seconds later) ≡ false
    current = ground arith

-- The token that the request of a password reset answers with passes the guard as an access token
-- of the user, without the code and without the password, until the second in which it ends: for
-- an email whose user is active, when the mail is sent, no status of the user is cached and the
-- token's identifier is not revoked.
pub can_activate-request_password_reset :
    (k : Crypto) (now later email otp jti : ℕ) (refresh : Option ℕ) (jti1 jti2 salt token : ℕ)
    (s : Accounts) (u : User)
    → any_by_email s.users email ≡ some u
    → find_user s.users u.id ≡ some u
    → u.is_active ≡ true
    → get_cached_active_status later u.id s.redis ≡ none
    → is_blacklisted later jti s.redis ≡ false
    → seconds later ≤ seconds now + 600
    → (request_password_reset k now email otp true jti s).1 ≡ ok token
    → (can_activate k later
        (some token)
        refresh
        jti1
        jti2
        salt
        ((request_password_reset k now email otp true jti s).0)).1
      ≡ ok (attach_user (reset_claims now u.id u.email jti false) none)
unfolding generate_reset_token
can_activate-request_password_reset k now later email otp jti refresh jti1 jti2 salt token s u asked
      found active missing free le got =
    rw (is_signed, request_leaves k now email otp jti s u asked)
      (reset_admitted k now later u.email otp jti refresh jti1 jti2 salt s u found active missing
        free le)
  where
    is_signed : token ≡ k.sign (reset_claims now u.id u.email jti false)
    is_signed = ground (arith, request_leaves k now email otp jti s u asked)
