-- ===== src/Auth/Tests.antt =====
-- The lemmas of the siblings at a small installation: one user, and tokens that spell out their payload.
mod Tokens
use swafri_backend.Common.{
  ◌+◌, ℕ, unauthorized, zero, suc, ◌+◌, ◌*◌, ◌/◌, ◌%◌, ◌<◌, ◌≡◌, refl, ap, ◌∙◌, Bool, true, false,
  Option, none, some, [], ◌∷◌, ◌==◌, ok, err, forbidden, bad_request, arith,
}
use swafri_backend.Redis.{get, is_blacklisted, get_cached_active_status, otp_exists}
use swafri_backend.Users.{User, Role, user, admin, Accounts, any_by_email, find_by_email}
use swafri_backend.Users.Service.{deactivate, soft_delete}
use swafri_backend.Auth.{
  Claims, Crypto, session_claims, reset_claims, generate_token_pair, generate_reset_token,
}
use swafri_backend.Auth.Tests.Tokens.{sign, decode, decode-sign, sign_positive}
use swafri_backend.Auth.Guard.{can_activate, attach_user}
use swafri_backend.Auth.Sessions.{login, logout}
use swafri_backend.Auth.Password.{request_password_reset, reset_password}
use swafri_backend.Auth.Revocation.{IsUnauthorized, can_activate-logout}
use swafri_backend.Auth.Access.{
  can_activate-deactivate, can_activate-soft_delete, can_activate-request_password_reset,
}
use swafri_backend.Wallet.{Ethers, verify_wallet_signature}
use swafri_backend.Auth.WalletSignIn.{Fresh, sign_in}
use swafri_backend.Auth.WalletSignIn.Once.{sign_in_twice}
use swafri_backend.Auth.Recovery.{login-reset_password}

compare_same : (plain : ℕ) → (plain == plain) ≡ true
compare_same plain = ground arith

abbrev crypto : Crypto
crypto = record {
  decode = decode;
  decode_refresh = decode;
  sign = sign;
  sign_refresh = sign;
  decode-sign = decode-sign;
  sign_positive = sign_positive;
  decode_refresh-sign_refresh = decode-sign;
  hash_password = λ salt plain. plain;
  compare_passwords = λ plain hashed. plain == hashed;
  compare-hash = λ salt plain. compare_same plain;
  hash_otp = λ otp. otp;
  access_seconds = 900;
  refresh_seconds = 604800;
}

abbrev alice : User
alice = record {
  id = 1;
  email = 5;
  username = 6;
  password = 7;
  avatar = none;
  wallet_address = none;
  role = user;
  is_active = true;
  deleted_at = none;
  wins = 0;
  losses = 0;
  total_matches = 0;
  current_streak = 0;
  longest_streak = 0;
  points = 0;
  refresh_token = some 4;
  blockchain_profile_id = none;
  wallet_verified_at = none;
}

-- Alice has asked for a code, and her status is cached.
abbrev installation : Accounts
installation = record {
  users = alice ∷ [];
  redis = record {
    blacklisted = [];
    otps = (1, record { value = 123456; expires_at = 900000 }) ∷ [];
    active = (1, record { value = true; expires_at = 20000 }) ∷ [];
    wallet_challenges = [];
    sign_ins = [];
  };
}

abbrev access : Claims
access = session_claims 1 5 user 2 900

abbrev refresh : Claims
refresh = session_claims 1 5 user 3 604800

same_claims :
    (token : ℕ) (d : Claims)
    → some (sign refresh) ≡ some token
    → decode token ≡ some d
    → d ≡ refresh
same_claims token d a b = ground (arith, decode-sign refresh)

can_activate-logout_example : IsUnauthorized (
    (can_activate crypto 30000
      (some (sign access))
      (some (sign refresh))
      8
      9
      0
      ((logout crypto 10000 1 (some (sign access)) (some (sign refresh)) installation).0)).1)
can_activate-logout_example =
    can_activate-logout crypto 10000 30000 1 (sign access) (some (sign refresh)) 8 9 0 900
      installation access alice refl (sign_positive access) (decode-sign access) refl refl
      (λ token d a b.
        (ap (λ c. c.sub) (same_claims token d a b), ap (λ c. c.jti == 2) (same_claims token d a b)))
      (omega arith) refl

can_activate-deactivate_example :
    (can_activate crypto 15000 (some (sign access)) none 8 9 0 ((deactivate 1 2 installation).0)).1
    ≡ err (forbidden "Account is deactivated")
unfolding is_blacklisted get
can_activate-deactivate_example =
    can_activate-deactivate crypto 15000 (sign access) none 8 9 0 2 installation access alice refl
      refl refl (sign_positive access) (decode-sign access) refl refl

can_activate-request_password_reset_example :
    (can_activate crypto 30000
      (some (sign (reset_claims 10000 1 5 2 false)))
      none
      8
      9
      0
      ((request_password_reset crypto 10000 5 654321 true 2 installation).0)).1
    ≡ ok (attach_user (reset_claims 10000 1 5 2 false) none)
unfolding any_by_email get_cached_active_status get is_blacklisted request_password_reset sign
    generate_reset_token
can_activate-request_password_reset_example =
    can_activate-request_password_reset crypto 10000 30000 5 654321 2 none 8 9 0
      (sign (reset_claims 10000 1 5 2 false)) installation alice refl refl refl refl refl
      (omega arith) refl

login-reset_password_example :
    ((login crypto 20000 5 77 8 9 0 ((reset_password crypto 10000 1 77 0 installation).0)).1
      ≡ ok (generate_token_pair crypto 20000 1 5 user 8 9))
    × ((reset_password crypto 20000 1 78 0 ((reset_password crypto 10000 1 77 0 installation).0)).1
        ≡ err (bad_request "OTP session expired — request a new OTP"))
unfolding find_by_email otp_exists get
login-reset_password_example =
    login-reset_password crypto 10000 20000 77 0 77 8 9 0 78 0 installation alice refl refl refl
      refl

abbrev ethers : Ethers
ethers = record {
  lower = λ address. address;
  text_of = λ address. address ∷ [];
  recover = λ message signature. some signature;
  profile = λ address user_id. address + user_id;
}

abbrev fresh : Fresh
fresh = record {
  id = 3;
  email = 50;
  username = 60;
  fallback_username = 61;
  password = 70;
  profile_id = 80;
}

-- A challenge is stored for the wallet 9.
abbrev challenged : Accounts
challenged = record installation {
  redis = record installation.redis {
    sign_ins = (9, record { value = 75 ∷ 58 ∷ 58 ∷ 77 ∷ []; expires_at = 900000 }) ∷ [];
  };
}

sign_in_twice_example :
    (sign_in crypto ethers 20000 9 9 fresh 8 9 0
      ((sign_in crypto ethers 10000 9 9 fresh 6 7 0 challenged).0)).1
    ≡ err (unauthorized "Challenge expired or not found. Request a new challenge.")
unfolding get verify_wallet_signature
sign_in_twice_example =
    sign_in_twice crypto ethers 10000 20000 9 9 9 9 fresh fresh 6 7 0 8 9 0 challenged
      (75 ∷ 58 ∷ 58 ∷ 77 ∷ []) refl refl refl
