-- ===== src/Users/Service.antt =====
-- src/modules/user/service/user.service.ts. What the answers leave out (password, refresh token, the
-- private columns) is left to the caller; `now` is in milliseconds.
use swafri_backend.Common.{
  ℕ, Bool, true, false, not, ◌&&◌, Option, none, some, ◌==◌, is_some, bad_request, forbidden,
  not_found, conflict,
}
use swafri_backend.Effects.{Run, ◌>>=◌, ◌>>◌, ensure, require, read, modify, return}
use swafri_backend.Redis.{Redis, invalidate_active_status, cache_active_status}
use swafri_backend.Users.{
  User, Role, Accounts, find_by_id, find_by_email, find_by_username, write_unique, is_deleted,
}
use swafri_backend.Users

unfoldable pub get_by_id : (id : ℕ) → Run Accounts User
get_by_id id s = require (find_by_id s.users id false) (not_found "User not found") s

-- The fields of `UpdateUserDto`; an empty text is 0.
pub record UpdateUser : Type 0 where
  pub email : Option ℕ
  pub username : Option ℕ
  pub avatar : Option ℕ

-- `dto.field && dto.field !== existing.field`, with the lookup that follows.
abbrev pub is_taken : (ℕ → Option User) → ℕ → Option ℕ → Bool
is_taken lookup old none = false
is_taken lookup old (some new) = not (new == 0) && not (new == old) && is_some (lookup new)

abbrev pub or_old : Option ℕ → ℕ → ℕ
or_old none old = old
or_old (some new) old = new

abbrev pub or_kept : Option ℕ → Option ℕ → Option ℕ
or_kept none old = old
or_kept (some new) old = some new

abbrev pub apply_update : UpdateUser → User → User
apply_update dto u = record u {
  email = or_old dto.email u.email;
  username = or_old dto.username u.username;
  avatar = or_kept dto.avatar u.avatar;
}

unfoldable pub update : (id : ℕ) → UpdateUser → Run Accounts User
update id dto = do
  found ← read (λ (s : Accounts). find_by_id s.users id false)
  existing ← require found (not_found "User not found")
  email_taken ← read (λ (s : Accounts). is_taken (find_by_email s.users) existing.email dto.email)
  ensure (not email_taken) (conflict "Email already in use")
  username_taken ←
      read (λ (s : Accounts). is_taken (find_by_username s.users) existing.username dto.username)
  ensure (not username_taken) (conflict "Username already in use")
  write_unique id (apply_update dto)

unfoldable pub update_role : (id : ℕ) → Role → (requesting_user_id : ℕ) → Run Accounts User
update_role id role requesting_user_id = do
  ensure (not (id == requesting_user_id)) (forbidden "You cannot change your own role")
  found ← read (λ (s : Accounts). find_by_id s.users id true)
  require found (not_found "User not found")
  Users.update_role id role

abbrev pub on_redis : (Redis → Redis) → Accounts → Accounts
on_redis change s = record s { redis = change s.redis }

unfoldable pub activate : (id requesting_user_id : ℕ) → Run Accounts User
activate id requesting_user_id = do
  ensure (not (id == requesting_user_id)) (forbidden "You cannot activate your own account")
  found ← read (λ (s : Accounts). find_by_id s.users id true)
  existing ← require found (not_found "User not found")
  ensure (not existing.is_active) (bad_request "Account is already active")
  u ← Users.set_active_status id true
  modify (on_redis (invalidate_active_status id))
  return u

unfoldable pub deactivate : (id requesting_user_id : ℕ) → Run Accounts User
deactivate id requesting_user_id = do
  ensure (not (id == requesting_user_id)) (forbidden "You cannot deactivate your own account")
  found ← read (λ (s : Accounts). find_by_id s.users id true)
  existing ← require found (not_found "User not found")
  ensure existing.is_active (bad_request "Account is already inactive")
  u ← Users.set_active_status id false
  modify (on_redis (invalidate_active_status id))
  return u

unfoldable pub soft_delete : (id requesting_user_id now : ℕ) → Run Accounts (Unit {0})
soft_delete id requesting_user_id now = do
  ensure (not (id == requesting_user_id)) (forbidden "You cannot delete your own account")
  found ← read (λ (s : Accounts). find_by_id s.users id true)
  existing ← require found (not_found "User not found")
  ensure (not (is_deleted existing)) (bad_request "User is already deleted")
  Users.soft_delete id now
  modify (on_redis (invalidate_active_status id))

unfoldable pub restore : (id now : ℕ) → Run Accounts User
restore id now = do
  found ← read (λ (s : Accounts). find_by_id s.users id true)
  existing ← require found (not_found "User not found")
  ensure (is_deleted existing) (bad_request "User is not deleted")
  u ← Users.restore id
  modify (on_redis (cache_active_status now id u.is_active))
  return u
