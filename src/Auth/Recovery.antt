-- ===== src/Auth/Recovery.antt =====
-- A password reset of src/modules/auth/service/password.service.ts and the login after it.
use swafri_backend.Common.{
  ℕ, ◌≡◌, refl, inl, inr, Bool, true, false, some, List, [], ◌∷◌, ◌==◌, if◌then◌else◌, ok, err,
  unauthorized, bad_request, find, arith, Bool-cases, subst,
}
use swafri_backend.Redis.{Redis, otp_exists, delete_otp}
use swafri_backend.Redis.Expiry.{get-delete}
use swafri_backend.Users.{
  User, Accounts, find_user, replace_user, find_by_email, update_password, write_columns,
  set_refresh_token_hash,
}
use swafri_backend.Users.Rows.{find_user-replace_user}
use swafri_backend.Auth.{Crypto, generate_token_pair}
use swafri_backend.Auth.Sessions.{login, open_session}
use swafri_backend.Auth.Password.{reset_password}

find_passes :
    (test : User → Bool) (u : User) (us : List User) → find test us ≡ some u → test u ≡ true
find_passes test u [] h = absurd (ground arith)
find_passes test u (w ∷ us) h = elim (Bool-cases (test w)) [
  | inl a ↦ subst (λ x. test x ≡ true) (ground arith) a
  | inr a ↦ find_passes test u us (ground arith)
]

-- The first row that meets a test is still the first one after a write that keeps the test.
find-replace_user :
    (test : User → Bool) (v u : User) (us : List User)
    → find test us ≡ some u
    → v.id ≡ u.id
    → test v ≡ true
    → find test (replace_user v us) ≡ some v
find-replace_user test v u [] h same kept = absurd (ground arith)
find-replace_user test v u (w ∷ us) h same kept = elim (Bool-cases (w.id == v.id)) [
  | inl a ↦ rw (a, kept) refl
  | inr a ↦ elim (Bool-cases (test w)) [
    | inl b ↦ absurd (ground arith)
    | inr b ↦ rw (a, b) (find-replace_user test v u us (ground arith) same kept)
  ]
]

reset_leaves :
    (k : Crypto) (now user_id new_password salt : ℕ) (s : Accounts) (u : User)
    → find_user s.users user_id ≡ some u
    → otp_exists now user_id s.redis ≡ true
    → reset_password k now user_id new_password salt s ≡ (
      record {
        users = replace_user (record u { password = k.hash_password salt new_password }) s.users;
        redis = delete_otp user_id s.redis;
      },
      ok tt,
    )
unfolding reset_password update_password write_columns
reset_leaves k now user_id new_password salt s u found otp = simp (found, otp)

refused_again :
    (k : Crypto) (now user_id new_password salt : ℕ) (s : Accounts) (u : User)
    → find_user s.users user_id ≡ some u
    → otp_exists now user_id s.redis ≡ false
    → (reset_password k now user_id new_password salt s).1
      ≡ err (bad_request "OTP session expired — request a new OTP")
unfolding reset_password
refused_again k now user_id new_password salt s u found otp = simp (found, otp)

no_otp : (now user_id : ℕ) (r : Redis) → otp_exists now user_id (delete_otp user_id r) ≡ false
unfolding otp_exists delete_otp
no_otp now user_id r = ground (arith, get-delete now user_id user_id r.otps)

found_by_email :
    (s : Accounts) (u : User) (password : ℕ)
    → find_by_email s.users u.email ≡ some u
    → find_by_email (replace_user (record u { password = password }) s.users) u.email
      ≡ some (record u { password = password })
unfolding find_by_email
found_by_email s u password h =
    find-replace_user _ (record u { password = password }) u s.users h refl
      (find_passes _ u s.users h)

login_answer :
    (k : Crypto) (now email password jti1 jti2 salt : ℕ) (s : Accounts) (u : User)
    → find_by_email s.users email ≡ some u
    → find_user s.users u.id ≡ some u
    → u.is_active ≡ true
    → (login k now email password jti1 jti2 salt s).1 ≡ (
        if k.compare_passwords password u.password
        then ok (generate_token_pair k now u.id u.email u.role jti1 jti2)
        else err (unauthorized "Invalid credentials"))
unfolding login open_session set_refresh_token_hash write_columns
login_answer k now email password jti1 jti2 salt s u by_email by_id active =
    elim (Bool-cases (k.compare_passwords password u.password)) [
      | inl a ↦ simp (by_email, a, active, by_id)
      | inr a ↦ simp (by_email, a)
    ]

-- After a password reset of an active user for whom a code is stored and whom the lookup by email
-- finds, a login with this email is answered with a pair of tokens exactly if the password that is
-- entered passes the comparison with the hash of the new one, and as invalid credentials
-- otherwise; and a second reset is refused.
pub login-reset_password :
    (k : Crypto) (now later new_password salt entered jti1 jti2 salt2 third salt3 : ℕ)
    (s : Accounts) (u : User)
    → find_user s.users u.id ≡ some u
    → find_by_email s.users u.email ≡ some u
    → u.is_active ≡ true
    → otp_exists now u.id s.redis ≡ true
    → ((login k later u.email entered jti1 jti2 salt2
          ((reset_password k now u.id new_password salt s).0)).1
        ≡ (if k.compare_passwords entered (k.hash_password salt new_password)
            then ok (generate_token_pair k later u.id u.email u.role jti1 jti2)
            else err (unauthorized "Invalid credentials")))
      × ((reset_password k later u.id third salt3
            ((reset_password k now u.id new_password salt s).0)).1
          ≡ err (bad_request "OTP session expired — request a new OTP"))
login-reset_password k now later new_password salt entered jti1 jti2 salt2 third salt3 s u by_id
      by_email active otp =
    rw (reset_leaves k now u.id new_password salt s u by_id otp) (
      login_answer k later u.email entered jti1 jti2 salt2 _ changed
          (found_by_email s u (k.hash_password salt new_password) by_email) stored active,
      refused_again k later u.id third salt3 _ changed stored (no_otp later u.id s.redis),
    )
  where
    changed : User
    changed = record u { password = k.hash_password salt new_password }

    stored : find_user (replace_user changed s.users) u.id ≡ some changed
    stored = ground (arith, find_user-replace_user changed u s.users u.id)
