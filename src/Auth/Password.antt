-- ===== src/Auth/Password.antt =====
-- src/modules/auth/service/password.service.ts, and the two reset handlers of
-- src/modules/auth/controller/auth.controller.ts.
use swafri_backend.Common.{
  ℕ, Bool, true, false, Option, none, some, if◌then◌else◌, bad_request, unauthorized, not_found,
}
use swafri_backend.Effects.{Run, ◌>>=◌, ◌>>◌, ensure, require, read, modify, return}
use swafri_backend.Redis.{set_otp, verify_otp, otp_exists, delete_otp}
use swafri_backend.Users.{Accounts, find_user, any_by_email, update_password}
use swafri_backend.Auth.{Claims, Crypto, generate_reset_token, verify_reset_token}
use swafri_backend.Auth.Guard.{on_redis, truthy}

-- The mail that follows is not awaited for the result: its failure is only logged.
unfoldable pub change_password :
    Crypto → (user_id current_password new_password salt : ℕ) → Run Accounts (Unit {0})
change_password k user_id current_password new_password salt = do
  found ← read (λ (s : Accounts). find_user s.users user_id)
  u ← require found (not_found "User not found")
  ensure (k.compare_passwords current_password u.password)
      (unauthorized "Current password is incorrect")
  update_password user_id (k.hash_password salt new_password)
  return tt

-- `mailed`: whether the mail with the code is sent.
unfoldable pub request_password_reset :
    Crypto → (now email otp : ℕ) → (mailed : Bool) → (jti : ℕ) → Run Accounts ℕ
request_password_reset k now email otp mailed jti = do
  found ← read (λ (s : Accounts). any_by_email s.users email)
  u ← require found (not_found "Email not found")
  modify (on_redis (set_otp k.hash_otp now u.id otp 600))
  ensure mailed (bad_request "Failed to send OTP email. Check SMTP configuration.")
  return (generate_reset_token k now u.id u.email jti false)

unfoldable pub verify_otp_step : Crypto → (now user_id otp jti : ℕ) → Run Accounts ℕ
verify_otp_step k now user_id otp jti = do
  found ← read (λ (s : Accounts). find_user s.users user_id)
  u ← require found (bad_request "Invalid or expired OTP")
  valid ← read (λ (s : Accounts). verify_otp k.hash_otp now user_id otp s.redis)
  ensure valid (bad_request "Invalid or expired OTP")
  return (generate_reset_token k now u.id u.email jti true)

unfoldable pub reset_password :
    Crypto → (now user_id new_password salt : ℕ) → Run Accounts (Unit {0})
reset_password k now user_id new_password salt = do
  found ← read (λ (s : Accounts). find_user s.users user_id)
  require found (bad_request "Invalid reset session")
  still_valid ← read (λ (s : Accounts). otp_exists now user_id s.redis)
  ensure still_valid (bad_request "OTP session expired — request a new OTP")
  update_password user_id (k.hash_password salt new_password)
  modify (on_redis (delete_otp user_id))

-- The handlers of the controller: the token is a cookie. The first answers with the new cookie.
unfoldable pub handle_verify_otp : Crypto → (now : ℕ) → Option ℕ → (otp jti : ℕ) → Run Accounts ℕ
handle_verify_otp k now cookie otp jti = do
  token ← require (truthy cookie) (unauthorized "Reset session expired")
  payload ← require (verify_reset_token k now token) (unauthorized "Invalid or expired reset token")
  verify_otp_step k now payload.sub otp jti

abbrev pub if_verified : Option Claims → Option Claims
if_verified none = none
if_verified (some c) = if c.otp_verified then some c else none

unfoldable pub handle_reset_password :
    Crypto → (now : ℕ) → Option ℕ → (new_password salt : ℕ) → Run Accounts (Unit {0})
handle_reset_password k now cookie new_password salt = do
  token ← require (truthy cookie) (unauthorized "Reset session expired")
  payload ←
      require (if_verified (verify_reset_token k now token))
        (unauthorized "OTP verification required")
  reset_password k now payload.sub new_password salt
