-- ===== src/Users.antt =====
-- The User table of prisma/schema.prisma with the queries of src/modules/user/repository/user.repository.ts
-- and src/modules/auth/repository/auth.repository.ts. Texts that are only compared are numbers.
pub mod Rows
pub mod Service
pub mod Listing
mod Tests
use swafri_backend.Common.{
  ℕ, ◌+◌, Bool, true, false, not, ◌&&◌, ◌||◌, Option, none, some, List, [], ◌∷◌, ◌++◌, ◌==◌,
  if◌then◌else◌, ltb, is_some, is_value, any, find, filter, length, Result, ok, err,
  unique_violation, database_failure,
}
use swafri_backend.Effects.{Run}
use swafri_backend.Redis.{Redis}

pub data Role : Type 0 where
  user admin : Role

pub record User : Type 0 where
  pub id : ℕ
  pub email : ℕ
  pub username : ℕ
  pub password : ℕ
  pub avatar : Option ℕ
  pub wallet_address : Option ℕ
  pub role : Role
  pub is_active : Bool
  pub deleted_at : Option ℕ
  pub wins : ℕ
  pub losses : ℕ
  pub total_matches : ℕ
  pub current_streak : ℕ
  pub longest_streak : ℕ
  pub points : ℕ
  pub refresh_token : Option ℕ
  pub blockchain_profile_id : Option ℕ
  pub wallet_verified_at : Option ℕ

-- What the account services share: the table and the Redis store.
pub record Accounts : Type 0 where
  pub users : List User
  pub redis : Redis

abbrev pub find_user : List User → ℕ → Option User
find_user [] id = none
find_user (u ∷ us) id = if u.id == id then some u else find_user us id

abbrev pub replace_user : User → List User → List User
replace_user u [] = []
replace_user u (v ∷ us) = (if v.id == u.id then u else v) ∷ replace_user u us

-- A write to columns that no unique index covers; a missing row makes it throw.
abbrev pub write_found : Accounts → (User → User) → Option User → Accounts × Result User
write_found s change none = (s, err database_failure)
write_found s change (some u) =
    (record s { users = replace_user (change u) s.users }, ok (change u))

unfoldable pub write_columns : (id : ℕ) → (User → User) → Run Accounts User
write_columns id change s = write_found s change (find_user s.users id)

abbrev pub is_same_wallet : Option ℕ → Option ℕ → Bool
is_same_wallet none b = false
is_same_wallet (some a) b = is_value b a

-- Another row has one of the values that must be unique; rows of deleted users count.
abbrev pub clashes : User → User → Bool
clashes u v =
    not (v.id == u.id)
    && (v.email == u.email
        || v.username == u.username
        || is_same_wallet u.wallet_address v.wallet_address)

-- A write to such columns.
abbrev pub write_checked : Accounts → (User → User) → Option User → Accounts × Result User
write_checked s change none = (s, err database_failure)
write_checked s change (some u) =
    if any (clashes (change u)) s.users
    then (s, err unique_violation)
    else write_found s change (some u)

unfoldable pub write_unique : (id : ℕ) → (User → User) → Run Accounts User
write_unique id change s = write_checked s change (find_user s.users id)

unfoldable pub create : User → Run Accounts User
create u s =
    if is_some (find_user s.users u.id) || any (clashes u) s.users
    then (s, err unique_violation)
    else (record s { users = s.users ++ u ∷ [] }, ok u)

abbrev pub is_deleted : User → Bool
is_deleted u = is_some u.deleted_at

abbrev pub unless_deleted : Option User → Option User
unless_deleted none = none
unless_deleted (some u) = if is_deleted u then none else some u

-- The user repository leaves deleted users out by default; the authentication repository does not.
unfoldable pub find_by_id : List User → (id : ℕ) → (include_deleted : Bool) → Option User
find_by_id us id include_deleted =
    if include_deleted then find_user us id else unless_deleted (find_user us id)

unfoldable pub find_by_email : List User → (email : ℕ) → Option User
find_by_email us email = find (λ (u : User). u.email == email && not (is_deleted u)) us

unfoldable pub find_by_username : List User → (username : ℕ) → Option User
find_by_username us username = find (λ (u : User). u.username == username && not (is_deleted u)) us

-- `lower` is the case folding of the database and of `toLowerCase`.
abbrev pub has_wallet : (lower : ℕ → ℕ) → ℕ → Option ℕ → Bool
has_wallet lower address none = false
has_wallet lower address (some a) = lower a == lower address

unfoldable pub find_by_wallet_address : (lower : ℕ → ℕ) → List User → (address : ℕ) → Option User
find_by_wallet_address lower us address =
    find (λ (u : User). has_wallet lower address u.wallet_address && not (is_deleted u)) us

unfoldable pub any_by_email : List User → (email : ℕ) → Option User
any_by_email us email = find (λ (u : User). u.email == email) us

unfoldable pub set_refresh_token_hash : (id hashed : ℕ) → Run Accounts User
set_refresh_token_hash id hashed = write_columns id (λ u. record u { refresh_token = some hashed })

unfoldable pub remove_refresh_token : (id : ℕ) → Run Accounts User
remove_refresh_token id = write_columns id (λ u. record u { refresh_token = none })

unfoldable pub update_password : (id hashed : ℕ) → Run Accounts User
update_password id hashed = write_columns id (λ u. record u { password = hashed })

unfoldable pub update_role : (id : ℕ) → Role → Run Accounts User
update_role id role = write_columns id (λ u. record u { role = role })

unfoldable pub set_active_status : (id : ℕ) → Bool → Run Accounts User
set_active_status id is_active = write_columns id (λ u. record u { is_active = is_active })

unfoldable pub soft_delete : (id now : ℕ) → Run Accounts User
soft_delete id now = write_columns id (λ u. record u { deleted_at = some now })

unfoldable pub restore : (id : ℕ) → Run Accounts User
restore id = write_columns id (λ u. record u { deleted_at = none })

-- `updateWalletVerified` of the user service and `connectVerified` of the wallet repository.
unfoldable pub update_wallet_verified : (id address now : ℕ) → Run Accounts User
update_wallet_verified id address now =
    write_unique id (λ u. record u { wallet_address = some address; wallet_verified_at = some now })

unfoldable pub connect_verified : (id address profile_id now : ℕ) → Run Accounts User
connect_verified id address profile_id now = write_unique id (λ u. record u {
  wallet_address = some address;
  wallet_verified_at = some now;
  blockchain_profile_id = some profile_id;
})

unfoldable pub disconnect : (id : ℕ) → Run Accounts User
disconnect id = write_columns id (λ u. record u { wallet_address = none })
