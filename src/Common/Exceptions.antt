-- ===== src/Common/Exceptions.antt =====
-- Handlers that throw: a result, and the exceptions of @nestjs/common that the services raise.
-- `unique_violation` is Prisma's P2002, `database_failure` any other rejected query and `internal_error`
-- any other error.
use Prim.Native.String.{String}
use mathlib.Core.Path.{◌≡◌, refl}
use mathlib.Core.Logic.{◌⊎◌, inl, inr}
use mathlib.Core.Bool.{Bool, true, false}
use mathlib.Core.Option.{Option, none, some}

pub data HttpException : Type 0 where
  bad_request : String → HttpException
  unauthorized : String → HttpException
  forbidden : String → HttpException
  not_found : String → HttpException
  conflict : String → HttpException
  unique_violation : HttpException
  database_failure : HttpException
  internal_error : HttpException

pub data Result {ℓ} (A : Type ℓ) : Type ℓ where
  err : HttpException → Result A
  ok : A → Result A

-- `await` inside a handler: what the callee throws ends the caller.
infixl 5 ◌>>=◌
abbrev pub ◌>>=◌ {ℓ κ} : {V : Type ℓ} {W : Type κ} → Result V → (V → Result W) → Result W
err thrown >>= next = err thrown
ok value >>= next = next value

infixl 5 ◌>>◌
abbrev pub ◌>>◌ {κ} : {W : Type κ} → Result (Unit {0}) → Result W → Result W
check >> next = check >>= λ (_ : Unit {0}). next

-- `if (!test) throw e`.
abbrev pub guard : Bool → HttpException → Result (Unit {0})
guard test e = elim test [ false ↦ err e | true ↦ ok tt ]

-- `if (!value) throw e`.
abbrev pub or_throw {ℓ} : {V : Type ℓ} → Option V → HttpException → Result V
or_throw found e = elim found [ none ↦ err e | some v ↦ ok v ]

-- What a handler that returns has got from the call it awaited.
pub awaited {ℓ κ} :
    {V : Type ℓ} {W : Type κ} (call : Result V) (next : V → Result W) {w : W}
    → (call >>= next) ≡ ok w
    → (v : V) × (call ≡ ok v) × (next v ≡ ok w)
awaited (err thrown) next h = cc
awaited (ok value) next h = (value, refl, h)

pub Result-cases {ℓ} :
    {V : Type ℓ} (r : Result V) → ((e : HttpException) × (r ≡ err e)) ⊎ ((v : V) × (r ≡ ok v))
Result-cases (err e) = inl (e, refl)
Result-cases (ok v) = inr (v, refl)
