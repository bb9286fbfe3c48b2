-- ===== src/Store/Policies.antt =====
-- internal/store/policy.go: `PolicyStore`, over the calls of gorm.
pub mod Errors
pub mod Listing
pub mod Keys
pub mod Writes
pub mod Deletes
use policy_manager.Base.{
  ℕ, zero, suc, Bool, true, false, ◌||◌, String, Option, none, some, List, [], ◌∷◌, ◌++◌, ◌==◌,
  length, take, ltb, Result, ok, err, map_err, ◌>>=◌, if◌then◌else◌,
}
use policy_manager.Base.Int.{ℤ, pos, pos_part, ltb_ℤ, add64}
use policy_manager.Base.Ascii.{codes, text_of}
use policy_manager.Base.Base64.{encode, decode}
use policy_manager.Base.Decimal.{itoa, atoi}
use policy_manager.Store.Model.{Policy, PolicyFilter, PolicyListOptions, PolicyListResult}
use policy_manager.Store.Interface.{PolicyStore, StoreError, policy_not_found}
use policy_manager.Store.Database.{
  Condition, id_is, policy_type_is, enabled_is, DatabaseError, not_found, Query, Database,
}
use policy_manager.Store.Policies.Errors.{raw, map_unique_constraint_error}

abbrev pub default_order : String
default_order = "policy_type ASC, priority ASC, id ASC"

-- `if opts.Filter.X != nil { query = query.Where(…) }`
abbrev pub where_some {ℓ} : {A : Type ℓ} → (A → Condition) → Option A → List Condition
where_some condition none = []
where_some condition (some a) = condition a ∷ []

unfoldable pub filter_conditions : Option PolicyFilter → List Condition
filter_conditions none = []
filter_conditions (some filter) =
    where_some policy_type_is filter.policy_type ++ where_some enabled_is filter.enabled

unfoldable pub order_of : String → String
order_of order_by = if order_by == "" then default_order else order_by

-- The page size, 50 unless the options have a positive one.
unfoldable pub page_size_of : Option PolicyListOptions → ℤ
page_size_of none = pos 50
page_size_of (some opts) = if ltb_ℤ (pos 0) opts.page_size then opts.page_size else pos 50

-- The columns that an update writes.
abbrev pub updated_columns : List String
updated_columns =
    "display_name" ∷ "description" ∷ "label_selector" ∷ "priority" ∷ "rego_code" ∷ "enabled" ∷ []

parsed_or_zero : Option ℤ → ℤ
parsed_or_zero none = pos 0
parsed_or_zero (some parsed_offset) = parsed_offset

offset_at : Option (List ℕ) → ℤ
unfolding parsed_or_zero
offset_at none = pos 0
offset_at (some decoded) = parsed_or_zero (atoi decoded)

-- The offset that a page token stands for: zero if it is absent, empty or malformed.
pub offset_of : Option String → ℤ
unfolding offset_at
offset_of none = pos 0
offset_of (some page_token) =
    if page_token == "" then pos 0 else offset_at (decode (codes page_token))

pub token_of : ℤ → String
token_of next_offset = text_of (encode (itoa next_offset))

module _ {D : Type 0} (db : Database D) (to_lower : String → String) where
  -- One row more than the page is asked for; if it is there, there is a next page.
  page_of : ℤ → ℤ → List Policy → PolicyListResult
  unfolding token_of
  page_of page_size offset policies =
      if ltb (pos_part page_size) (length policies)
      then record {
        policies = take (pos_part page_size) policies;
        next_page_token = token_of (add64 offset page_size);
      }
      else record { policies = policies; next_page_token = "" }

  -- The query with the page size and the offset.
  pub list_page : List Condition → String → ℤ → ℤ → D → Result StoreError PolicyListResult
  unfolding page_of
  list_page conditions order page_size offset d =
      map_err raw (
        db.find
          (record {
            conditions = conditions;
            order = order;
            limit = some (add64 page_size (pos 1));
            offset = offset;
          })
          d)
      >>= λ policies. ok (page_of page_size offset policies)

  unfoldable pub list : Option PolicyListOptions → D → Result StoreError PolicyListResult
  unfolding list_page offset_of filter_conditions order_of page_size_of
  list none d = list_page [] default_order (page_size_of none) (pos 0) d
  list (some opts) d =
      list_page (filter_conditions opts.filter) (order_of opts.order_by) (page_size_of (some opts))
        (offset_of opts.page_token) d

  inserted : Policy → D → Result DatabaseError Policy × D → Result StoreError Policy × D
  inserted policy d (ok row, d') = (ok row, d')
  inserted policy d (err e, d') =
      (err (map_unique_constraint_error db to_lower e policy false d'), d')

  unfoldable pub create : Policy → D → Result StoreError Policy × D
  unfolding inserted
  create policy d = inserted policy d (db.insert policy d)

  deleted : Result DatabaseError ℕ × D → Result StoreError (Unit {0}) × D
  deleted (ok zero, d) = (err policy_not_found, d)
  deleted (ok (suc n), d) = (ok tt, d)
  deleted (err e, d) = (err (raw e), d)

  unfoldable pub delete : String → D → Result StoreError (Unit {0}) × D
  unfolding deleted
  delete id d = deleted (db.delete_where (id_is id ∷ []) d)

  updated : Policy → Result DatabaseError (ℕ × Policy) × D → Result StoreError Policy × D
  updated policy (ok (zero, row), d) = (err policy_not_found, d)
  updated policy (ok (suc n, row), d) = (ok row, d)
  updated policy (err e, d) = (err (map_unique_constraint_error db to_lower e policy true d), d)

  unfoldable pub update : Policy → D → Result StoreError Policy × D
  unfolding updated
  update policy d = updated policy (db.update_columns updated_columns policy d)

  unfoldable pub list_all : D → Result StoreError (List Policy)
  list_all d =
      map_err raw
        (db.find (record { conditions = []; order = "id ASC"; limit = none; offset = pos 0 }) d)

  get_error : DatabaseError → StoreError
  get_error not_found = policy_not_found
  get_error e = raw e

  unfoldable pub get : String → D → Result StoreError Policy
  unfolding get_error
  get id d = map_err get_error (db.first (id_is id ∷ []) d)

  -- `NewPolicy`
  abbrev pub new_policy : PolicyStore D
  new_policy = record {
    list = λ opts d. list (some opts) d;
    list_all = list_all;
    create = create;
    delete = delete;
    update = update;
    get = get;
  }
