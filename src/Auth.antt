-- ===== src/Auth.antt =====
-- src/modules/auth/service/token.service.ts, over what jsonwebtoken, bcrypt and node's crypto do. A token
-- is a number, 0 is the empty text, and `now` is in milliseconds.
pub mod Guard
pub mod Password
pub mod Sessions
pub mod Revocation
pub mod Access
pub mod Recovery
pub mod WalletSignIn
mod Tests
use swafri_backend.Common.{
  ℕ, ◌+◌, ◌/◌, ◌≡◌, Bool, true, false, ◌&&◌, Option, none, some, ◌==◌, if◌then◌else◌, ltb,
}
use swafri_backend.Users.{Role, User}

-- `TokenPayload` and `ResetTokenPayload`: a reset token has a purpose and no role. `exp` is in seconds.
pub record Claims : Type 0 where
  pub sub : ℕ
  pub email : ℕ
  pub role : Option Role
  pub jti : ℕ
  pub exp : Option ℕ
  pub for_reset : Bool
  pub otp_verified : Bool

-- `decode` gives the payload of a token whose signature fits `jwt.secret`, and `decode_refresh` of one
-- whose signature fits `jwt.refreshSecret`. The lifetimes are the configured ones, in seconds.
pub record Crypto : Type 0 where
  pub decode : ℕ → Option Claims
  pub decode_refresh : ℕ → Option Claims
  pub sign : Claims → ℕ
  pub sign_refresh : Claims → ℕ
  pub decode-sign : (c : Claims) → decode (sign c) ≡ some c
  pub sign_positive : (c : Claims) → (sign c == 0) ≡ false
  pub decode_refresh-sign_refresh : (c : Claims) → decode_refresh (sign_refresh c) ≡ some c
  pub hash_password : (salt plain : ℕ) → ℕ
  pub compare_passwords : (plain hashed : ℕ) → Bool
  pub compare-hash : (salt plain : ℕ) → compare_passwords plain (hash_password salt plain) ≡ true
  pub hash_otp : ℕ → ℕ
  pub access_seconds : ℕ
  pub refresh_seconds : ℕ

abbrev pub seconds : ℕ → ℕ
seconds now = now / 1000

-- jsonwebtoken: a token is expired from the second `exp` on.
abbrev pub is_current : (now : ℕ) → Option ℕ → Bool
is_current now none = true
is_current now (some exp) = ltb (seconds now) exp

abbrev pub if_current : (now : ℕ) → Option Claims → Option Claims
if_current now none = none
if_current now (some c) = if is_current now c.exp then some c else none

unfoldable pub verify_access_token :
    Crypto → (now token : ℕ) → (ignore_expiration : Bool) → Option Claims
verify_access_token k now token ignore_expiration =
    if ignore_expiration then k.decode token else if_current now (k.decode token)

unfoldable pub verify_refresh_token : Crypto → (now token : ℕ) → Option Claims
verify_refresh_token k now token = if_current now (k.decode_refresh token)

abbrev pub if_for_reset : Option Claims → Option Claims
if_for_reset none = none
if_for_reset (some c) = if c.for_reset then some c else none

unfoldable pub verify_reset_token : Crypto → (now token : ℕ) → Option Claims
verify_reset_token k now token = if_for_reset (if_current now (k.decode token))

abbrev pub session_claims : (id email : ℕ) → Role → (jti exp : ℕ) → Claims
session_claims id email role jti exp = record {
  sub = id;
  email = email;
  role = some role;
  jti = jti;
  exp = some exp;
  for_reset = false;
  otp_verified = false;
}

unfoldable pub generate_token_pair : Crypto → (now id email : ℕ) → Role → (jti1 jti2 : ℕ) → ℕ × ℕ
generate_token_pair k now id email role jti1 jti2 = (
  k.sign (session_claims id email role jti1 (seconds now + k.access_seconds)),
  k.sign_refresh (session_claims id email role jti2 (seconds now + k.refresh_seconds)),
)

-- Ten minutes.
abbrev pub reset_claims : (now id email jti : ℕ) → (otp_verified : Bool) → Claims
reset_claims now id email jti otp_verified = record {
  sub = id;
  email = email;
  role = none;
  jti = jti;
  exp = some (seconds now + 600);
  for_reset = true;
  otp_verified = otp_verified;
}

unfoldable pub generate_reset_token : Crypto → (now id email jti : ℕ) → (otp_verified : Bool) → ℕ
generate_reset_token k now id email jti otp_verified =
    k.sign (reset_claims now id email jti otp_verified)
