-- ===== src/Auth/Revocation.antt =====
-- A session after its logout.
use swafri_backend.Common.{
  ℕ, ◌-◌, ◌*◌, ◌≤◌, ◌<◌, ◌≡◌, refl, ap, inl, inr, true, false, ◌||◌, Option, none, some, String,
  ◌==◌, ltb, Result, err, unauthorized, arith, Option-cases, Bool-cases, ◌⊎◌,
}
use swafri_backend.Redis.{Redis, is_blacklisted}
use swafri_backend.Redis.Expiry.{is_blacklisted-blacklist}
use swafri_backend.Users.{User, Accounts, find_user, replace_user, remove_refresh_token}
use swafri_backend.Users.Rows.{find_user-id, find_user-replace_user, write_columns-found}
use swafri_backend.Auth.{
  Claims, Crypto, seconds, verify_access_token, verify_refresh_token, is_current,
}
use swafri_backend.Auth.Guard.{truthy, can_activate, handle_silent_refresh}
use swafri_backend.Auth.Sessions.{logout, revoke, refresh_claims}

abbrev pub IsUnauthorized {ℓ} : {A : Type ℓ} → Result A → Type ℓ
IsUnauthorized r = (message : String) × (r ≡ err (unauthorized message))

-- Nothing is taken off the list by the revocation of another token.
revoke_keeps :
    (now later jti : ℕ) (c : Option Claims) (r : Redis)
    → is_blacklisted later jti r ≡ true
    → ((d : Claims) → c ≡ some d → (d.jti == jti) ≡ false)
    → is_blacklisted later jti (revoke now c r) ≡ true
revoke_keeps now later jti none r h other = h
revoke_keeps now later jti (some c) r h other = elim (Option-cases c.exp) [
  | inl no_exp ↦ rw no_exp h
  | inr (exp, is_exp) ↦ elim (Bool-cases (c.jti == 0 || exp == 0)) [
    | inl a ↦ rw (is_exp, a) h
    | inr a ↦
        rw
          (
            is_exp,
            a,
            is_blacklisted-blacklist now later c.jti jti ((exp - seconds now) * 1000) r,
            other c refl,
          )
          h
  ]
]

-- A token that is revoked is on the list for as long as it is not expired.
revoke_lists :
    (now later exp : ℕ) (c : Claims) (r : Redis)
    → (c.jti == 0) ≡ false
    → c.exp ≡ some exp
    → now ≤ later
    → seconds later < exp
    → is_blacklisted later c.jti (revoke now (some c) r) ≡ true
revoke_lists now later exp c r jti_given is_exp le current =
    rw (is_exp, ap (λ b. b || exp == 0) jti_given, positive)
      (rw (is_blacklisted-blacklist now later c.jti c.jti ((exp - seconds now) * 1000) r)
        (ground arith))
  where
    positive : (exp == 0) ≡ false
    positive = ground arith

-- A silent refresh for a user whose row has no refresh token is refused.
refresh_refused :
    (k : Crypto) (now : ℕ) (cookie : Option ℕ) (jti1 jti2 salt : ℕ) (s : Accounts) (user_id : ℕ)
    (u : User)
    → find_user s.users user_id ≡ some u
    → u.refresh_token ≡ none
    → ((token : ℕ) (c : Claims)
        → cookie ≡ some token
        → k.decode_refresh token ≡ some c
        → c.sub ≡ user_id)
    → IsUnauthorized ((handle_silent_refresh k now cookie jti1 jti2 salt s).1)
unfolding handle_silent_refresh verify_refresh_token
refresh_refused k now none jti1 jti2 salt s user_id u found cleared own = (_, refl)
refresh_refused k now (some token) jti1 jti2 salt s user_id u found cleared own =
    elim (Bool-cases (token == 0)) [
      | inl a ↦ rw a (_, refl)
      | inr a ↦ elim (Option-cases (k.decode_refresh token)) [
        | inl no_claims ↦ rw (a, no_claims) (_, refl)
        | inr (c, is_claims) ↦ elim (Bool-cases (is_current now c.exp)) [
          | inr b ↦ rw (a, is_claims, b) (_, refl)
          | inl b ↦ elim (Bool-cases (is_blacklisted now c.jti s.redis)) [
            | inl d ↦ rw (a, is_claims, b, d) (_, refl)
            | inr d ↦ rw (a, is_claims, b, d, own token c refl is_claims, found, cleared) (_, refl)
          ]
        ]
      ]
    ]

refused :
    (k : Crypto) (now access : ℕ) (refresh : Option ℕ) (jti1 jti2 salt : ℕ) (s : Accounts)
    (user_id exp : ℕ) (c : Claims) (u : User)
    → (access == 0) ≡ false
    → k.decode access ≡ some c
    → c.exp ≡ some exp
    → is_blacklisted now c.jti s.redis ≡ true ⊎ exp < seconds now
    → find_user s.users user_id ≡ some u
    → u.refresh_token ≡ none
    → ((token : ℕ) (d : Claims)
        → refresh ≡ some token
        → k.decode_refresh token ≡ some d
        → d.sub ≡ user_id)
    → IsUnauthorized ((can_activate k now (some access) refresh jti1 jti2 salt s).1)
unfolding can_activate verify_access_token
refused k now access refresh jti1 jti2 salt s user_id exp c u given is_c is_exp over found cleared
      own =
    elim over [
      | inl listed ↦ rw (given, is_c, listed) (_, refl)
      | inr past ↦ elim (Bool-cases (is_blacklisted now c.jti s.redis)) [
        | inl a ↦ rw (given, is_c, a) (_, refl)
        | inr a ↦
            rw (given, is_c, a, is_exp, is_over past)
              (refresh_refused k now refresh jti1 jti2 salt s user_id u found cleared own)
      ]
    ]
  where
    is_over : exp < seconds now → ltb exp (seconds now) ≡ true
    is_over past = ground arith

logout_leaves :
    (k : Crypto) (now user_id access : ℕ) (refresh : Option ℕ) (s : Accounts) (c : Claims)
    (u : User)
    → find_user s.users user_id ≡ some u
    → (access == 0) ≡ false
    → k.decode access ≡ some c
    → (logout k now user_id (some access) refresh s).0 ≡ (record {
      users = replace_user (record u { refresh_token = none }) s.users;
      redis = revoke now (refresh_claims k now (truthy refresh)) (revoke now (some c) s.redis);
    })
unfolding logout verify_access_token remove_refresh_token
logout_leaves k now user_id access refresh s c u found given is_c =
    rw (write_columns-found s user_id (λ v. record v { refresh_token = none }) u found, given, is_c)
      refl

-- What a refresh cookie that is read at the logout tells of its token.
refresh_other :
    (k : Crypto) (now user_id jti : ℕ) (refresh : Option ℕ)
    → ((token : ℕ) (d : Claims)
        → refresh ≡ some token
        → k.decode_refresh token ≡ some d
        → (d.sub ≡ user_id) × ((d.jti == jti) ≡ false))
    → (d : Claims) → refresh_claims k now (truthy refresh) ≡ some d
    → (d.jti == jti) ≡ false
unfolding verify_refresh_token
refresh_other k now user_id jti none own d h = absurd (ground arith)
refresh_other k now user_id jti (some token) own d h = elim (Bool-cases (token == 0)) [
  | inl a ↦ absurd (ground arith)
  | inr a ↦ elim (Option-cases (k.decode_refresh token)) [
    | inl b ↦ absurd (ground arith)
    | inr (e, b) ↦ ground (arith, own token e refl b)
  ]
]

-- After a logout with both cookies, from any time on but the second in which the access token ends, a
-- request with these cookies is unauthorized. The access token has an identifier and an expiry; the
-- refresh token, where its signature fits, is the same user's and has another identifier.
pub can_activate-logout :
    (k : Crypto) (now later user_id access : ℕ) (refresh : Option ℕ) (jti1 jti2 salt exp : ℕ)
    (s : Accounts) (c : Claims) (u : User)
    → find_user s.users user_id ≡ some u
    → (access == 0) ≡ false
    → k.decode access ≡ some c
    → (c.jti == 0) ≡ false
    → c.exp ≡ some exp
    → ((token : ℕ) (d : Claims)
        → refresh ≡ some token
        → k.decode_refresh token ≡ some d
        → (d.sub ≡ user_id) × ((d.jti == c.jti) ≡ false))
    → now ≤ later
    → (seconds later == exp) ≡ false
    → IsUnauthorized (
        (can_activate k later
          (some access)
          refresh
          jti1
          jti2
          salt
          ((logout k now user_id (some access) refresh s).0)).1)
can_activate-logout k now later user_id access refresh jti1 jti2 salt exp s c u found given is_c
      jti_given is_exp own le off =
    rw (logout_leaves k now user_id access refresh s c u found given is_c) (
      refused k later access refresh jti1 jti2 salt _ user_id exp c
        (record u { refresh_token = none }) given is_c is_exp over kept_row refl
        (λ token d a b. (own token d a b).0))
  where
    kept_row :
        find_user (replace_user (record u { refresh_token = none }) s.users) user_id
        ≡ some (record u { refresh_token = none })
    kept_row = ground (
      arith,
      find_user-id s.users user_id u found,
      find_user-replace_user (record u { refresh_token = none }) u s.users user_id,
    )

    over :
        is_blacklisted later c.jti
            (revoke now (refresh_claims k now (truthy refresh)) (revoke now (some c) s.redis))
          ≡ true
        ⊎ exp < seconds later
    over = elim (Bool-cases (ltb (seconds later) exp)) [
      | inl a ↦ inl (
          revoke_keeps now later c.jti (refresh_claims k now (truthy refresh))
            (revoke now (some c) s.redis)
            (revoke_lists now later exp c s.redis jti_given is_exp le (ground arith))
            (refresh_other k now user_id c.jti refresh own))
      | inr a ↦ inr (ground arith)
    ]
