-- ===== src/Service/Policies/Validation/Laws.antt =====
-- internal/service/policy.go: the rows that create and update write.
use policy_manager.Base.{
  ℕ, ◌≡◌, refl, false, String, Option, none, some, ◌==◌, eq_iff, arith, eqb, ◌↔◌, ok,
}
use policy_manager.Base.Int.{ℤ, pos, ◌≤ℤ◌}
use policy_manager.Base.Text.{trim_space}
use policy_manager.Api.Types
use policy_manager.Store.Model
use policy_manager.Service.Converter.{
  or_default, api_to_db_model, db_to_api_model, default_priority,
}
use policy_manager.Service.Converter.Laws.{api_to_db_model-db_to_api_model}
use policy_manager.Service.Policies.Validation.{
  validate_priority, validate_post_input, validate_patch_input, validate_patch_immutable_fields,
  merge_policy_onto_policy, patched, changes,
}

-- The priority is in range, and the Rego code is not blank.
pub record IsWellFormed (row : Model.Policy) : Type 0 where
  pub at_least : pos 1 ≤ℤ row.priority
  pub at_most : row.priority ≤ℤ pos 1000
  pub has_code : (trim_space row.rego_code == "") ≡ false

priority-range :
    (p : Option ℤ) (d : ℤ)
    → pos 1 ≤ℤ d
    → d ≤ℤ pos 1000
    → validate_priority p ≡ ok tt
    → (pos 1 ≤ℤ or_default d p) × (or_default d p ≤ℤ pos 1000)
unfolding validate_priority
priority-range none d lo hi h = (lo, hi)
priority-range (some p) d lo hi h = ground arith

post-code :
    (p : Types.Policy)
    → validate_post_input p ≡ ok tt
    → (trim_space (or_default "" p.rego_code) == "") ≡ false
unfolding validate_post_input
post-code p h = ground arith

post-name :
    (p : Types.Policy)
    → validate_post_input p ≡ ok tt
    → (trim_space (or_default "" p.display_name) == "") ≡ false
unfolding validate_post_input
post-name p h = ground arith

post-priority :
    (p : Types.Policy) → validate_post_input p ≡ ok tt → validate_priority p.priority ≡ ok tt
unfolding validate_post_input
post-priority p h = ground arith

-- A new policy that passes validation becomes a well-formed row, and its display name is not blank.
pub validate_post_input-IsWellFormed :
    (policy : Types.Policy) (id : String)
    → validate_post_input policy ≡ ok tt
    → IsWellFormed (api_to_db_model policy id)
      × ((trim_space (api_to_db_model policy id).display_name == "") ≡ false)
unfolding api_to_db_model
validate_post_input-IsWellFormed policy id h =
    let (lo, hi) =
      priority-range policy.priority default_priority (omega arith) (omega arith)
        (post-priority policy h) in
    (record { at_least = lo; at_most = hi; has_code = post-code policy h }, post-name policy h)

patch-code :
    (p : Types.Policy) (code : String)
    → validate_patch_input (some p) ≡ ok tt
    → (trim_space code == "") ≡ false
    → (trim_space (or_default "" (patched p.rego_code (some code))) == "") ≡ false
unfolding validate_patch_input
patch-code p code h k = ground arith

patch-priority :
    (p : Types.Policy)
    → validate_patch_input (some p) ≡ ok tt
    → validate_priority p.priority ≡ ok tt
unfolding validate_patch_input
patch-priority p h = ground arith

patched-range :
    (p : Option ℤ) (d : ℤ)
    → (pos 1 ≤ℤ or_default d p) × (or_default d p ≤ℤ pos 1000)
    → (pos 1 ≤ℤ or_default default_priority (patched p (some d)))
      × (or_default default_priority (patched p (some d)) ≤ℤ pos 1000)
patched-range none d h = h
patched-range (some p) d h = h

-- What an update writes to the database, from the stored row and the patch.
abbrev pub updated_row : Option Types.Policy → Model.Policy → Model.Policy
updated_row patch row =
    api_to_db_model (merge_policy_onto_policy patch (db_to_api_model row)) row.id

-- A patch that passes validation keeps a row well formed.
pub validate_patch_input-IsWellFormed :
    (patch : Types.Policy) (row : Model.Policy)
    → validate_patch_input (some patch) ≡ ok tt
    → IsWellFormed row
    → IsWellFormed (updated_row (some patch) row)
unfolding api_to_db_model db_to_api_model merge_policy_onto_policy
validate_patch_input-IsWellFormed patch row h w =
    let (lo, hi) =
      patched-range patch.priority row.priority (
        priority-range patch.priority row.priority w.at_least w.at_most (patch-priority patch h)) in
    record { at_least = lo; at_most = hi; has_code = patch-code patch row.rego_code h w.has_code }

-- No patch changes the identifier or the type of a row, and a patch that names no field changes
-- nothing but the two times, which are the database's to set.
pub updated_row_keeps :
    (patch : Option Types.Policy) (row : Model.Policy)
    → ((updated_row patch row).id ≡ row.id)
      × ((updated_row patch row).policy_type ≡ row.policy_type)
      × (updated_row none row ≡ record row { create_time = 0; update_time = 0 })
unfolding api_to_db_model db_to_api_model merge_policy_onto_policy
updated_row_keeps none row = (refl, refl, api_to_db_model-db_to_api_model row)
updated_row_keeps (some patch) row = (refl, refl, api_to_db_model-db_to_api_model row)

-- A field of the patch is left out, or equals the existing one.
abbrev pub Agrees : {A : Type 0} → Option A → Option A → Type 0
Agrees none existing = Unit
Agrees (some p) existing = existing ≡ some p

changes_iff_text : (p e : Option String) → (changes ◌==◌ p e ≡ false) ↔ Agrees p e
unfolding changes
changes_iff_text none e = (λ h. tt, λ h. refl)
changes_iff_text (some p) none = (λ h. cc, λ h. cc)
changes_iff_text (some p) (some e) = ground (arith, eq_iff p e)

changes_iff_time : (p e : Option ℕ) → (changes eqb p e ≡ false) ↔ Agrees p e
unfolding changes
changes_iff_time none e = (λ h. tt, λ h. refl)
changes_iff_time (some p) none = (λ h. cc, λ h. cc)
changes_iff_time (some p) (some e) = ground arith

immutable_iff :
    (p e : Types.Policy)
    → (validate_patch_immutable_fields (some p) e ≡ ok tt) ↔ (
        (changes ◌==◌ p.path e.path ≡ false)
        × (changes ◌==◌ p.id e.id ≡ false)
        × (changes ◌==◌ p.policy_type e.policy_type ≡ false)
        × (changes eqb p.create_time e.create_time ≡ false)
        × (changes eqb p.update_time e.update_time ≡ false))
immutable_iff p e = unfold validate_patch_immutable_fields in ground arith

-- A patch passes the check of the fixed fields exactly when each of path, identifier, type and the two
-- times is left out of it or equals the existing value.
pub validate_patch_immutable_fields_iff :
    (patch existing : Types.Policy)
    → (validate_patch_immutable_fields (some patch) existing ≡ ok tt) ↔ (
        Agrees patch.path existing.path
        × Agrees patch.id existing.id
        × Agrees patch.policy_type existing.policy_type
        × Agrees patch.create_time existing.create_time
        × Agrees patch.update_time existing.update_time)
validate_patch_immutable_fields_iff patch existing =
    let a = changes_iff_text patch.path existing.path in
    let b = changes_iff_text patch.id existing.id in
    let c = changes_iff_text patch.policy_type existing.policy_type in
    let d = changes_iff_time patch.create_time existing.create_time in
    let e = changes_iff_time patch.update_time existing.update_time in
    let all = immutable_iff patch existing in
    (
      λ h. let (p, q, r, s, t) = all.0 h in (a.0 p, b.0 q, c.0 r, d.0 s, e.0 t),
      λ h. all.1 (a.1 h.0, b.1 h.1, c.1 h.2, d.1 h.3, e.1 h.4),
    )
