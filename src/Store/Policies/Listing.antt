-- ===== src/Store/Policies/Listing.antt =====
-- internal/store/policy.go, List: the pages of a listing and their tokens.
pub mod Wanted
use policy_manager.Base.{
  ℕ, suc, ◌+◌, ◌<◌, ◌^◌, ◌≡◌, refl, sym, ap, ◌∙◌, false, String, Option, none, some, List, [], ◌∷◌,
  ◌==◌, length, take, drop, ltb, ok, if◌then◌else◌, arith, Bool-cases, inl, inr, length-take-suc,
  take-take-suc, take_all, All, eq_iff,
}
use policy_manager.Base.Int.{pos, add64, add64_pos}
use policy_manager.Base.Ascii.{codes, codes-text_of}
use policy_manager.Base.Base64.{encode, decode, encode-ascii, decode-encode}
use policy_manager.Base.Decimal.{itoa, atoi, itoa-ascii, atoi-itoa}
use policy_manager.Store.Model.{Policy, PolicyListOptions, PolicyListResult}
use policy_manager.Store.Database.{Condition, Database}
use policy_manager.Store.Database.Relational.{select, IsTotal, IsRelational}
use policy_manager.Store.Policies.{
  filter_conditions, order_of, page_size_of, parsed_or_zero, offset_at, offset_of, token_of,
  page_of, list_page, list,
}

All-weaken : (s : List ℕ) → All (λ c. c < 128) s → All (λ c. c < 256) s
All-weaken [] h = tt
All-weaken (c ∷ s) h = (omega arith, All-weaken s h.1)

itoa-IsBytes : (n : ℕ) → All (λ c. c < 256) (itoa (pos n))
itoa-IsBytes n = All-weaken (itoa (pos n)) (itoa-ascii n)

no_number :
    {s : List ℕ} {n : ℕ}
    → ◌≡◌ {A = Option (List ℕ)} (some s) (decode (codes ""))
    → atoi s ≡ some (pos n)
    → ⊥
unfolding decode codes atoi
no_number {s} h k = let empty : s ≡ [] = cc in cc (ap atoi empty)

token_bytes : (n : ℕ) → n < 2 ^ 63 → decode (codes (token_of (pos n))) ≡ some (itoa (pos n))
unfolding token_of
token_bytes n fits =
    ap decode (codes-text_of (encode (itoa (pos n))) (encode-ascii (itoa (pos n)) (itoa-IsBytes n)))
    ∙ decode-encode (itoa (pos n)) (itoa-IsBytes n)

-- A token is not empty: an empty text does not decode to a number.
pub token_of-ne : (n : ℕ) → n < 2 ^ 63 → (token_of (pos n) == "") ≡ false
token_of-ne n fits = elim (Bool-cases (token_of (pos n) == "")) [
  | inl e ↦ absurd (
      no_number
        (sym (token_bytes n fits) ∙ ap (λ t. decode (codes t)) ((eq_iff (token_of (pos n)) "").0 e))
        (atoi-itoa n fits))
  | inr e ↦ e
]

-- A page token, the Base64 text of an offset in decimal, is read as that offset, for each offset that
-- fits into a 64-bit integer.
pub offset_of-token_of : (n : ℕ) → n < 2 ^ 63 → offset_of (some (token_of (pos n))) ≡ pos n
unfolding offset_of offset_at parsed_or_zero
offset_of-token_of n fits =
    rw (token_of-ne n fits) (rw (token_bytes n fits) (rw (atoi-itoa n fits) refl))

pub offset_of-none : offset_of none ≡ pos 0
unfolding offset_of
offset_of-none = refl

module _ {D : Type 0} (db : Database D) (to_lower : String → String)
    (relational : IsRelational db) where
  -- All rows that a listing is about, in its order.
  abbrev pub listed_rows : PolicyListOptions → D → List Policy
  listed_rows opts d =
      relational.sort (order_of opts.order_by)
        (select (filter_conditions opts.filter) (relational.table d))

  -- The page of `k` rows from the `n`th on, and the token of the next one if there are more rows.
  abbrev pub page_at : ℕ → ℕ → List Policy → PolicyListResult
  page_at k n rows = record {
    policies = take k (drop n rows);
    next_page_token = if ltb k (length (drop n rows)) then token_of (pos (n + k)) else "";
  }

  page_of-page_at :
      (k n : ℕ) (rows : List Policy)
      → n + k < 2 ^ 63
      → page_of db to_lower (pos k) (pos n) (take (suc k) (drop n rows)) ≡ page_at k n rows
  unfolding page_of
  page_of-page_at k n rows fits = elim (Bool-cases (ltb k (length (drop n rows)))) [
    | inl more ↦ rw (length-take-suc k (drop n rows)) (
        rw more (λ i. record {
          policies = take-take-suc k (drop n rows) i;
          next_page_token = token_of (add64_pos n k fits i);
        }))
    | inr last ↦
        let longer : ltb (suc k) (length (drop n rows)) ≡ false = ground arith in
        rw (length-take-suc k (drop n rows)) (
          rw last (λ i. record {
            policies =
                (take_all (suc k) (drop n rows) longer ∙ sym (take_all k (drop n rows) last)) i;
            next_page_token = "";
          }))
  ]

  -- A page of the rows that the query finds.
  pub list_page-page_at :
      (conditions : List Condition) (order : String) (d : D) (k n : ℕ) (rows : List Policy)
      → n + k + 1 < 2 ^ 63
      → db.find
          (record {
            conditions = conditions;
            order = order;
            limit = some (pos (suc k));
            offset = pos n;
          })
          d
        ≡ ok (take (suc k) (drop n rows))
      → list_page db to_lower conditions order (pos k) (pos n) d ≡ ok (page_at k n rows)
  unfolding list_page
  list_page-page_at conditions order d k n rows fits finds =
      let next : k + 1 ≡ suc k = omega arith in
      let limit : add64 (pos k) (pos 1) ≡ pos (suc k) =
        add64_pos k 1 (omega arith) ∙ ap (λ j. pos j) next in
      rw limit (rw finds (ap (λ p. ok p) (page_of-page_at k n rows (omega arith))))

  -- In a total order, the pages of a listing are those of one list of rows.
  pub list-page_at :
      (opts : PolicyListOptions) (d : D) (k n : ℕ)
      → page_size_of (some opts) ≡ pos k
      → offset_of opts.page_token ≡ pos n
      → n + k + 1 < 2 ^ 63
      → IsTotal (order_of opts.order_by)
      → list db to_lower (some opts) d ≡ ok (page_at k n (listed_rows opts d))
  unfolding list
  list-page_at opts d k n size offset fits total =
      (λ i.
        list_page db to_lower (filter_conditions opts.filter) (order_of opts.order_by) (size i)
          (offset i) d)
      ∙ list_page-page_at (filter_conditions opts.filter) (order_of opts.order_by) d k n
          (listed_rows opts d) fits
          (relational.find-reads (filter_conditions opts.filter) (order_of opts.order_by)
            (some (pos (suc k))) n d total)
