-- ===== src/Store/Policies/Listing/Wanted.antt =====
-- internal/store/policy.go, List: what a listing is asked for, without its queries.
use mathlib.Core.List.{Perm}
use policy_manager.Base.{
  ℕ, zero, suc, ◌+◌, ◌<◌, ◌^◌, ◌≡◌, refl, ap, ◌∙◌, Bool, true, false, not, ◌&&◌, ◌++◌, subst,
  String, Option, none, some, List, [], ◌∷◌, ◌==◌, length, take, drop, ltb, ok, if◌then◌else◌,
  arith,
}
use policy_manager.Base.Int.{ℤ, pos, negsuc, ltb_ℤ}
use policy_manager.Base.Ascii.{text_of}
use policy_manager.Base.Base64.{encode}
use policy_manager.Base.Decimal.{itoa}
use policy_manager.Store.Model.{Policy, PolicyFilter, PolicyListOptions}
use policy_manager.Store.Database.{policy_type_is, enabled_is, Database}
use policy_manager.Store.Database.Relational.{meets, meets_all, select, IsRelational}
use policy_manager.Store.Policies.{
  where_some, filter_conditions, order_of, page_size_of, offset_of, token_of, list_page, list,
}
use policy_manager.Store.Policies.Listing.{offset_of-token_of, offset_of-none, list_page-page_at}

-- The rows that a filter asks for: each field that it has is that of the row.
abbrev pub has_type : Option String → Policy → Bool
has_type none p = true
has_type (some t) p = p.policy_type == t

abbrev pub has_state : Option Bool → Policy → Bool
has_state none p = true
has_state (some true) p = p.enabled
has_state (some false) p = not p.enabled

abbrev pub wanted : Option PolicyFilter → Policy → Bool
wanted none p = true
wanted (some f) p = has_type f.policy_type p && has_state f.enabled p

abbrev pub kept : (Policy → Bool) → List Policy → List Policy
kept f [] = []
kept f (p ∷ ps) = if f p then p ∷ kept f ps else kept f ps

-- The order that is asked for, and where none is, that by type, priority and identifier.
abbrev pub wanted_order : String → String
wanted_order order_by = if order_by == "" then "policy_type ASC, priority ASC, id ASC" else order_by

-- The page size that is asked for if it is positive, and 50 if it is not.
abbrev pub wanted_size : ℤ → ℕ
wanted_size (pos (suc k)) = suc k
wanted_size (pos zero) = 50
wanted_size (negsuc k) = 50

-- A page token is an offset in decimal, in Base64.
abbrev pub text_for : ℕ → String
text_for n = text_of (encode (itoa (pos n)))

pub data TokenFor : Option String → ℕ → Type 0 where
  no_token : TokenFor none 0
  empty_token : TokenFor (some "") 0
  a_token : (n : ℕ) → n < 2 ^ 63 → TokenFor (some (text_for n)) n

TokenFor-offset_of : {token : Option String} {n : ℕ} → TokenFor token n → offset_of token ≡ pos n
unfolding offset_of token_of
TokenFor-offset_of no_token = offset_of-none
TokenFor-offset_of empty_token = refl
TokenFor-offset_of (a_token n fits) = offset_of-token_of n fits

wanted_size-page_size_of :
    (opts : PolicyListOptions) → page_size_of (some opts) ≡ pos (wanted_size opts.page_size)
unfolding page_size_of
wanted_size-page_size_of opts = go opts.page_size
  where
    go : (z : ℤ) → (if ltb_ℤ (pos 0) z then z else pos 50) ≡ pos (wanted_size z)
    go (pos zero) = refl
    go (pos (suc k)) = ground arith
    go (negsuc k) = ground arith

and_true : (a : Bool) → (a && true) ≡ a
and_true true = refl
and_true false = refl

meets_all-wanted :
    (f : Option PolicyFilter) (p : Policy) → meets_all (filter_conditions f) p ≡ wanted f p
unfolding filter_conditions meets_all meets
meets_all-wanted none p = refl
meets_all-wanted (some f) p = go f.policy_type f.enabled
  where
    go :
        (t : Option String) (e : Option Bool)
        → meets_all (where_some policy_type_is t ++ where_some enabled_is e) p
          ≡ (has_type t p && has_state e p)
    go none none = refl
    go none (some true) = and_true p.enabled
    go none (some false) = and_true (not p.enabled)
    go (some t) none = refl
    go (some t) (some true) = ap (λ b. (p.policy_type == t) && b) (and_true p.enabled)
    go (some t) (some false) = ap (λ b. (p.policy_type == t) && b) (and_true (not p.enabled))

select-kept :
    (f : Option PolicyFilter) (rows : List Policy)
    → select (filter_conditions f) rows ≡ kept (wanted f) rows
unfolding select
select-kept f [] = refl
select-kept f (p ∷ ps) = rw (meets_all-wanted f p, select-kept f ps) refl

module _ {D : Type 0} (db : Database D) (to_lower : String → String)
    (relational : IsRelational db) where
  list-list_page :
      (opts : PolicyListOptions) (d : D) (n : ℕ)
      → offset_of opts.page_token ≡ pos n
      → list db to_lower (some opts) d
        ≡ list_page db to_lower
            (filter_conditions opts.filter)
            (wanted_order opts.order_by)
            (pos (wanted_size opts.page_size))
            (pos n)
            d
  unfolding list order_of
  list-list_page opts d n at_n = λ i.
      list_page db to_lower (filter_conditions opts.filter) (wanted_order opts.order_by)
        (wanted_size-page_size_of opts i) (at_n i) d

  -- Over a database that behaves as SQL documents and whose reads do not fail: a listing with a page
  -- token for the offset `n`, or with none for the offset 0, puts the rows that its filter asks for into
  -- an order that its ORDER BY allows, by type, priority and identifier if it has none, and returns from
  -- the `n`th on as many as its page size, 50 if that is not positive, with the Base64 text of the next
  -- offset in decimal if there are more rows and the empty text if there are not, as long as the offsets
  -- fit into 64 bits.
  pub list-wanted :
      (opts : PolicyListOptions) (d : D) (n : ℕ)
      → TokenFor opts.page_token n
      → n + wanted_size opts.page_size + 1 < 2 ^ 63
      → (rows : List Policy) × Perm rows (kept (wanted opts.filter) (relational.table d))
        × (relational.is_ordered (wanted_order opts.order_by) rows ≡ true)
        × (list db to_lower (some opts) d
            ≡ ok (record {
              policies = take (wanted_size opts.page_size) (drop n rows);
              next_page_token =
                  if ltb (wanted_size opts.page_size) (length (drop n rows))
                  then text_for (n + wanted_size opts.page_size)
                  else "";
            }))
  unfolding token_of
  list-wanted opts d n token fits =
      let k = wanted_size opts.page_size in
      let (rows, perm, ordered, finds) =
        relational.find-orders (filter_conditions opts.filter) (wanted_order opts.order_by)
          (some (pos (suc k))) n d in
      (
        rows,
        subst (λ rs. Perm rows rs) (select-kept opts.filter (relational.table d)) perm,
        ordered,
        list-list_page opts d n (TokenFor-offset_of token)
            ∙ list_page-page_at db to_lower relational (filter_conditions opts.filter)
                (wanted_order opts.order_by) d k n rows fits finds,
      )
