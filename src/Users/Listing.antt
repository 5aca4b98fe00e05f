-- ===== src/Users/Listing.antt =====
-- The lists of users: `findAll` of src/modules/user/repository/user.repository.ts, and `findAllPublic` and
-- `findAll` of src/modules/user/service/user.service.ts. Rows stand in the table in the order of their
-- creation; what the answers leave out of a row is left to the caller.
use swafri_backend.Common.{
  ℕ, ◌+◌, ◌<◌, ◌≡◌, ◌↔◌, Bool, true, false, not, ◌&&◌, ◌||◌, Option, none, some, List, ◌==◌,
  if◌then◌else◌, length, filter, take, skip, newest_first,
}
use swafri_backend.Pagination.{Pagination, PaginatedResponse, offset, of_page}
use swafri_backend.Pagination.Pages.{length-take-skip, has_next-offset}
use swafri_backend.Users.{User, Role, user, admin, is_deleted}

pub record UserFilters : Type 0 where
  pub role : Option Role
  pub is_active : Option Bool
  pub include_deleted : Bool
  pub search : Option ℕ

abbrev same_role : Role → Role → Bool
same_role user user = true
same_role admin admin = true
same_role _ _ = false

abbrev passes_role : Option Role → User → Bool
passes_role none u = true
passes_role (some r) u = same_role u.role r

abbrev passes_active : Option Bool → User → Bool
passes_active none u = true
passes_active (some true) u = u.is_active
passes_active (some false) u = not u.is_active

-- `contains` is the database's search in a text, in any case; an empty search is 0 and `trim` is the text
-- without the white space around it.
module _ (contains : (text part : ℕ) → Bool) where
  abbrev passes_search : Option ℕ → User → Bool
  passes_search none u = true
  passes_search (some part) u =
      if part == 0 then true else contains u.username part || contains u.email part

  abbrev pub passes : UserFilters → User → Bool
  passes f u =
      (f.include_deleted || not (is_deleted u))
      && passes_role f.role u
      && passes_active f.is_active u
      && passes_search f.search u

  abbrev pub matching : List User → UserFilters → List User
  matching users filters = newest_first (filter (passes filters) users)

  unfoldable pub find_rows : List User → UserFilters → (limit offset : ℕ) → List User × ℕ
  find_rows users filters limit offset =
      (take limit (skip offset (matching users filters)), length (matching users filters))

  unfoldable pub find_all : List User → UserFilters → Pagination → PaginatedResponse User
  find_all users filters p =
      let rows = find_rows users filters p.limit (offset p) in
      of_page (rows.0) (rows.1) p.page p.limit

  abbrev searched : (trim : ℕ → ℕ) → Option ℕ → Option ℕ
  searched trim none = none
  searched trim (some text) = if trim text == 0 then none else some (trim text)

  unfoldable pub find_all_public :
      (trim : ℕ → ℕ) → List User → Pagination → (search : Option ℕ) → PaginatedResponse User
  find_all_public trim users p search =
      find_all users
        (record {
          role = none;
          is_active = some true;
          include_deleted = false;
          search = searched trim search;
        })
        p

  -- The flag of a page of users tells whether the page after it has anybody, for a positive limit.
  pub find_all-has_next :
      (users : List User) (filters : UserFilters) (page limit : ℕ)
      → 0 < limit
      → ((find_all users filters (record { page = page; limit = limit })).has_next ≡ true) ↔ (
          0
          < length
              ((find_all users filters (record { page = page + 1; limit = limit })).data_of_page))
  unfolding find_all find_rows of_page
  find_all-has_next users filters page limit positive =
      let flag =
        has_next-offset (matching users filters) (length (matching users filters)) page limit
          positive in
      let rows =
        length-take-skip limit (offset (record { page = page + 1; limit = limit }))
          (matching users filters) positive in
      ((λ b. rows.1 (flag.0 b)), (λ b. flag.1 (rows.0 b)))
