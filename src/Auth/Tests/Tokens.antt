-- ===== src/Auth/Tests/Tokens.antt =====
-- Tokens that spell out their payload, as numbers: each field is a power of two before what follows.
use swafri_backend.Common.{
  ℕ, zero, suc, ◌+◌, ◌*◌, ◌/◌, ◌%◌, ◌<◌, ◌≡◌, refl, ap, ◌∙◌, Bool, true, false, Option, none, some,
  ◌==◌, arith,
}
use swafri_backend.Users.{Role, user, admin}
use swafri_backend.Auth.{Claims}

-- 2 ^ a * (2 * b + 1).
abbrev shift : ℕ → ℕ → ℕ
shift zero b = 2 * b + 1
shift (suc a) b = 2 * shift a b

abbrev unshift_step : Bool → ℕ × ℕ → ℕ → ℕ × ℕ
unshift_step true (a, b) n = (suc a, b)
unshift_step false rest n = (0, n / 2)

abbrev unshift : (fuel n : ℕ) → ℕ × ℕ
unshift zero n = (0, 0)
unshift (suc fuel) n = unshift_step (n % 2 == 0) (unshift fuel (n / 2)) n

shift_bound : (a b : ℕ) → a < shift a b
shift_bound zero b = omega arith
shift_bound (suc a) b = omega (arith, shift_bound a b)

shift_positive : (a b : ℕ) → (shift a b == 0) ≡ false
shift_positive a b = ground (arith, shift_bound a b)

unshift-shift : (fuel a b : ℕ) → a < fuel → unshift fuel (shift a b) ≡ (a, b)
unshift-shift zero a b h = absurd (omega arith)
unshift-shift (suc fuel) zero b h = ground arith
unshift-shift (suc fuel) (suc a) b h =
    ap (λ test. unshift_step test (unshift fuel (2 * shift a b / 2)) (2 * shift a b)) even
    ∙ ap (λ n. unshift_step true (unshift fuel n) (2 * shift a b)) half
    ∙ ap (λ r. unshift_step true r (2 * shift a b)) (unshift-shift fuel a b (omega arith))
  where
    even : (2 * shift a b % 2 == 0) ≡ true
    even = ground arith

    half : 2 * shift a b / 2 ≡ shift a b
    half = omega arith

abbrev peel : ℕ → ℕ × ℕ
peel n = unshift n n

peel-shift : (a b : ℕ) → peel (shift a b) ≡ (a, b)
peel-shift a b = unshift-shift (shift a b) a b (shift_bound a b)

abbrev role_code : Option Role → ℕ
role_code none = 0
role_code (some user) = 1
role_code (some admin) = 2

abbrev role_of : ℕ → Option Role
role_of zero = none
role_of (suc zero) = some user
role_of (suc (suc n)) = some admin

abbrev exp_code : Option ℕ → ℕ
exp_code none = 0
exp_code (some exp) = suc exp

abbrev exp_of : ℕ → Option ℕ
exp_of zero = none
exp_of (suc exp) = some exp

abbrev flag_code : Bool → ℕ
flag_code true = 1
flag_code false = 0

role_of-role_code : (r : Option Role) → role_of (role_code r) ≡ r
role_of-role_code none = refl
role_of-role_code (some user) = refl
role_of-role_code (some admin) = refl

exp_of-exp_code : (e : Option ℕ) → exp_of (exp_code e) ≡ e
exp_of-exp_code none = refl
exp_of-exp_code (some exp) = refl

flag_lem : (b : Bool) → (flag_code b == 1) ≡ b
flag_lem true = refl
flag_lem false = refl

unfoldable pub sign : Claims → ℕ
sign c = shift c.sub (
    shift c.email (
      shift (role_code c.role) (
        shift c.jti
          (shift (exp_code c.exp) (shift (flag_code c.for_reset) (flag_code c.otp_verified))))))

abbrev decode5 : (sub email role jti exp : ℕ) → ℕ × ℕ → Option Claims
decode5 sub email role jti exp (for_reset, otp_verified) = some (record {
  sub = sub;
  email = email;
  role = role_of role;
  jti = jti;
  exp = exp_of exp;
  for_reset = for_reset == 1;
  otp_verified = otp_verified == 1;
})

abbrev decode4 : (sub email role jti : ℕ) → ℕ × ℕ → Option Claims
decode4 sub email role jti (exp, rest) = decode5 sub email role jti exp (peel rest)

abbrev decode3 : (sub email role : ℕ) → ℕ × ℕ → Option Claims
decode3 sub email role (jti, rest) = decode4 sub email role jti (peel rest)

abbrev decode2 : (sub email : ℕ) → ℕ × ℕ → Option Claims
decode2 sub email (role, rest) = decode3 sub email role (peel rest)

abbrev decode1 : (sub : ℕ) → ℕ × ℕ → Option Claims
decode1 sub (email, rest) = decode2 sub email (peel rest)

abbrev decode0 : ℕ × ℕ → Option Claims
decode0 (sub, rest) = decode1 sub (peel rest)

unfoldable pub decode : ℕ → Option Claims
decode n = decode0 (peel n)

pub decode-sign : (c : Claims) → decode (sign c) ≡ some c
unfolding decode sign
decode-sign c =
    (ap decode0 (peel-shift _ _)
      ∙ ap (decode1 c.sub) (peel-shift _ _)
      ∙ ap (decode2 c.sub c.email) (peel-shift _ _)
      ∙ ap (decode3 c.sub c.email (role_code c.role)) (peel-shift _ _)
      ∙ ap (decode4 c.sub c.email (role_code c.role) c.jti) (peel-shift _ _)
      ∙ ap (decode5 c.sub c.email (role_code c.role) c.jti (exp_code c.exp))
          (peel-shift (flag_code c.for_reset) (flag_code c.otp_verified)))
    ∙ (rw
        (
          role_of-role_code c.role,
          exp_of-exp_code c.exp,
          flag_lem c.for_reset,
          flag_lem c.otp_verified,
        )
        refl)

pub sign_positive : (c : Claims) → (sign c == 0) ≡ false
unfolding sign
sign_positive c = shift_positive c.sub _
