-- ===== src/Service/Evaluation/Request/Complete.antt =====
-- internal/service/evaluation.go over internal/store/policy.go: an evaluation against the store.
use policy_manager.Base.{
  ℕ, zero, suc, ◌+◌, ◌*◌, ◌≤◌, ◌<◌, ◌^◌, ◌≡◌, refl, sym, ap, ◌∙◌, true, String, Option, none, some,
  List, [], ◌∷◌, ◌++◌, length, take, drop, ltb, Result, ok, err, ◌>>=◌, map_err, arith, Bool-cases,
  inl, inr, take-append-drop, drop-drop, length-drop, take_all,
}
use policy_manager.Base.Int.{pos}
use policy_manager.Base.Dict.{Dict}
use policy_manager.Json.Go.{Go, Copies}
use policy_manager.Opa.Engine.{Rego, EmbeddedEngine}
use policy_manager.Store.Model.{Policy, PolicyListOptions, PolicyListResult}
use policy_manager.Store.Interface.{store_error_text}
use policy_manager.Store.Database.{enabled_is, Database}
use policy_manager.Store.Database.Relational.{select, IsRelational}
use policy_manager.Store.Policies.{
  default_order, page_size_of, filter_conditions, order_of, offset_of, token_of, list,
}
use policy_manager.Store.Policies.Listing.{
  page_at, list-page_at, offset_of-token_of, token_of-ne, offset_of-none,
}
use policy_manager.Service.Errors.{ServiceError}
use policy_manager.Service.Constraints.Validate.{JsonSchema}
use policy_manager.Service.Evaluation.{EvaluationRequest, Progress, evaluate_page}
use policy_manager.Service.Evaluation.Request.Fold.{
  applicable, begun, evaluate_all, answer, evaluate_page-append, evaluate_page-applicable,
}
use policy_manager.Service.Evaluation.Request.{
  page_options, end_of_page, round, evaluate_pages, respond, start_of, finish, evaluate_copy,
  evaluate_request,
}

module _ {F C S K Q : Type 0} (go : Go F) (js : JsonSchema F C S) (rego : Rego F K Q)
    (engine : EmbeddedEngine Q) where
  module _ {D : Type 0} (db : Database D) (to_lower : String → String)
      (relational : IsRelational db) (d : D) where
    -- `List` of the store, with the texts of its errors.
    abbrev pub list_enabled : PolicyListOptions → Result String PolicyListResult
    list_enabled opts = map_err store_error_text (list db to_lower (some opts) d)

    -- The enabled policies by type, priority and identifier.
    abbrev pub enabled_policies : List Policy
    enabled_policies =
        relational.sort default_order (select (enabled_is true ∷ []) (relational.table d))

    list_enabled-page :
        (token : Option String) (n : ℕ)
        → offset_of token ≡ pos n
        → n + 1001 < 2 ^ 63
        → list_enabled (page_options token)
          ≡ ok (page_at db to_lower relational 1000 n enabled_policies)
    unfolding page_options filter_conditions order_of page_size_of
    list_enabled-page token n at_n fits = ap (map_err store_error_text) (
        list-page_at db to_lower relational (page_options token) d 1000 n refl at_n (omega arith)
          (inr refl))

    -- What is left to do at the `n`th policy.
    abbrev Rest : ℕ → Dict String → ℕ → Type 0
    Rest fuel labels n =
        (token : Option String) (st : Progress F)
        → offset_of token ≡ pos n
        → evaluate_pages go js rego engine list_enabled fuel labels token st
          ≡ some (evaluate_page go js rego engine labels (drop n enabled_policies) st)

    end_of_page-last :
        (fuel : ℕ) (labels : Dict String) (r : Result ServiceError (Progress F))
        → end_of_page go js rego engine list_enabled
            (evaluate_pages go js rego engine list_enabled fuel labels)
            ""
            r
          ≡ some r
    unfolding end_of_page
    end_of_page-last fuel labels (err e) = refl
    end_of_page-last fuel labels (ok st) = refl

    end_of_page-more :
        (fuel n : ℕ) (labels : Dict String) (r : Result ServiceError (Progress F))
        → n + 1000 < 2 ^ 63
        → Rest fuel labels (n + 1000)
        → end_of_page go js rego engine list_enabled
            (evaluate_pages go js rego engine list_enabled fuel labels)
            (token_of (pos (n + 1000)))
            r
          ≡ some (
              r >>= λ st.
              evaluate_page go js rego engine labels (drop (n + 1000) enabled_policies) st)
    unfolding end_of_page
    end_of_page-more fuel n labels (err e) fits rest = refl
    end_of_page-more fuel n labels (ok st) fits rest =
        rw (token_of-ne (n + 1000) fits)
          (rest (some (token_of (pos (n + 1000)))) st (offset_of-token_of (n + 1000) fits))

    page_and_rest :
        (n : ℕ)
        → take 1000 (drop n enabled_policies) ++ drop (n + 1000) enabled_policies
          ≡ drop n enabled_policies
    page_and_rest n =
        ap (λ ps. take 1000 (drop n enabled_policies) ++ ps)
          (sym (drop-drop 1000 n enabled_policies))
        ∙ take-append-drop 1000 (drop n enabled_policies)

    round-page_at :
        (fuel n : ℕ) (labels : Dict String) (st : Progress F)
        → n + 1000 < 2 ^ 63
        → (ltb 1000 (length (drop n enabled_policies)) ≡ true → Rest fuel labels (n + 1000))
        → round go js rego engine list_enabled
            (evaluate_pages go js rego engine list_enabled fuel labels)
            labels
            st
            (ok (page_at db to_lower relational 1000 n enabled_policies))
          ≡ some (evaluate_page go js rego engine labels (drop n enabled_policies) st)
    unfolding round
    round-page_at fuel n labels st fits rest =
        elim (Bool-cases (ltb 1000 (length (drop n enabled_policies)))) [
          | inl more ↦ rw more (
              end_of_page-more fuel n labels
                (evaluate_page go js rego engine labels (take 1000 (drop n enabled_policies)) st)
                fits (rest more)
              ∙ ap (λ r. some r)
                  (sym (
                      evaluate_page-append go js rego engine labels
                        (take 1000 (drop n enabled_policies)) (drop (n + 1000) enabled_policies) st)
                    ∙ ap (λ ps. evaluate_page go js rego engine labels ps st) (page_and_rest n)))
          | inr last ↦ rw last (
              end_of_page-last fuel labels
                (evaluate_page go js rego engine labels (take 1000 (drop n enabled_policies)) st)
              ∙ ap (λ ps. some (evaluate_page go js rego engine labels ps st))
                  (take_all 1000 (drop n enabled_policies) last))
        ]

    more_fits :
        (n : ℕ)
        → ltb 1000 (length (drop n enabled_policies)) ≡ true
        → n + 1000 < length enabled_policies
    more_fits n h = ground (arith, length-drop n enabled_policies)

    -- Fuel for the pages that are left is enough.
    evaluate_pages-Rest :
        (fuel n : ℕ) (labels : Dict String)
        → length enabled_policies + 1001 < 2 ^ 63
        → n ≤ length enabled_policies
        → length enabled_policies ≤ n + 1000 * suc fuel
        → Rest (suc fuel) labels n
    unfolding evaluate_pages
    evaluate_pages-Rest zero n labels fits within enough token st at_n =
        ap
          (round go js rego engine list_enabled
            (evaluate_pages go js rego engine list_enabled zero labels) labels st)
          (list_enabled-page token n at_n (omega arith))
        ∙ round-page_at zero n labels st (omega arith)
            (λ more. absurd (let m = more_fits n more in omega arith))
    evaluate_pages-Rest (suc fuel) n labels fits within enough token st at_n =
        ap
          (round go js rego engine list_enabled
            (evaluate_pages go js rego engine list_enabled (suc fuel) labels) labels st)
          (list_enabled-page token n at_n (omega arith))
        ∙ round-page_at (suc fuel) n labels st (omega arith) (λ more.
          evaluate_pages-Rest fuel (n + 1000) labels fits (let m = more_fits n more in omega arith)
            (omega arith))

    finish-some :
        (req : EvaluationRequest F) (r : Result ServiceError (Progress F))
        → finish go js rego engine list_enabled req (some r)
          ≡ some (r >>= λ st. ok (answer go js rego engine req st))
    unfolding finish respond
    finish-some req (err e) = refl
    finish-some req (ok st) = refl

    -- Against a store with at most 1000 enabled policies for each unit of fuel, an evaluation returns,
    -- and its result is that of one pass over all enabled policies whose labels match, in the order of
    -- the store's default clause, each on what the ones before it have left, up to the first error: no
    -- page, and no policy at a page's edge, is lost or run twice. The database behaves as SQL documents,
    -- a deep copy is its original, and the policies can be counted in 64 bits.
    pub evaluate_request-all :
        (fuel : ℕ) (req : EvaluationRequest F)
        → Copies go
        → length enabled_policies + 1001 < 2 ^ 63
        → length enabled_policies ≤ 1000 * suc fuel
        → evaluate_request go js rego engine list_enabled (suc fuel) req
          ≡ some (
              evaluate_all go js rego engine
                (applicable req.request_labels enabled_policies)
                (begun req.service_instance)
              >>= λ st. ok (answer go js rego engine req st))
    unfolding evaluate_request evaluate_copy start_of
    evaluate_request-all fuel req copies fits enough =
        ap (evaluate_copy go js rego engine list_enabled (suc fuel) req)
          (copies.copy req.service_instance)
        ∙ ap (finish go js rego engine list_enabled req) (
            evaluate_pages-Rest fuel 0 req.request_labels fits (omega arith) (omega arith) none
              (begun req.service_instance) offset_of-none)
        ∙ finish-some req _
        ∙ ap (λ r. some (r >>= λ st. ok (answer go js rego engine req st)))
            (evaluate_page-applicable go js rego engine req.request_labels enabled_policies
              (begun req.service_instance))
