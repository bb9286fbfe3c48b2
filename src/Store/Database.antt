-- ===== src/Store/Database.antt =====
-- The calls of gorm.io/gorm that internal/store/policy.go makes, on a database whose state is of type
-- `D`.
pub mod Relational
use policy_manager.Base.{ℕ, Bool, String, Option, List, Result}
use policy_manager.Base.Int.{ℤ}
use policy_manager.Store.Model.{Policy}

-- What the store puts into `Where`.
pub data Condition : Type 0 where
  id_is id_is_not policy_type_is : String → Condition
  enabled_is : Bool → Condition
  display_name_and_type_are : String → String → Condition
  priority_and_type_are : ℤ → String → Condition

-- gorm.ErrRecordNotFound, gorm.ErrDuplicatedKey, and any other error with its text.
pub data DatabaseError : Type 0 where
  not_found duplicated_key : DatabaseError
  other_error : String → DatabaseError

-- `Where`, `Order`, `Limit` and `Offset`; `none` is a query without `Limit`.
pub record Query : Type 0 where
  pub conditions : List Condition
  pub order : String
  pub limit : Option ℤ
  pub offset : ℤ

pub record Database (D : Type 0) : Type 0 where
  pub find : Query → D → Result DatabaseError (List Policy)
  -- `First`, by the primary key.
  pub first : List Condition → D → Result DatabaseError Policy
  -- `Create` with `RETURNING`: the row as it is stored.
  pub insert : Policy → D → Result DatabaseError Policy × D
  -- `Delete` with `RowsAffected`.
  pub delete_where : List Condition → D → Result DatabaseError ℕ × D
  -- `Updates` of the selected columns with `RETURNING`: `RowsAffected`, and the row as it is stored.
  pub update_columns : List String → Policy → D → Result DatabaseError (ℕ × Policy) × D
