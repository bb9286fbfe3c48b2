-- ===== src/Service/Patch/Rfc7396/Equal.antt =====
-- RFC 7396 and `mergePatch` of internal/service/evaluation.go.
use policy_manager.Base.{
  ◌≡◌, refl, ap, ◌∙◌, Bool, true, false, not, ◌&&◌, String, Option, none, some, ◌==◌, eq_iff,
  eq_refl, arith, Bool-cases, inl, inr, is_some, ok,
}
use policy_manager.Json.{Value, null, obj, Object, empty, field, get, put, nested_object}
use policy_manager.Json.Laws.{get-put, get-delete}
use policy_manager.Json.Go.{Go, Copies}
use policy_manager.Service.Patch.{set_nested, merge_fields, merge_value, merge_patch}
use policy_manager.Service.Patch.Rfc7396.{
  rfc7396, rfc_member, is_plain, is_plain_value, is_mergeable, is_mergeable_value,
}

and-eq-true : (a b c : Bool) → (a && b && c) ≡ true → (a ≡ true) × (b ≡ true) × (c ≡ true)
and-eq-true true true true h = (refl, refl, refl)
and-eq-true false b c h = absurd (ground arith)
and-eq-true true false c h = absurd (ground arith)
and-eq-true true true false h = absurd (ground arith)

module _ {F : Type 0} where
  append : Object F → Object F → Object F
  append empty p = p
  append (field k v t) p = field k v (append t p)

  put-append :
      (k : String) (v : Value F) (t : Object F)
      → get k t ≡ none
      → put k v t ≡ append t (field k v empty)
  unfolding put get append
  put-append k v empty h = refl
  put-append k v (field j w t) h = elim (Bool-cases (j == k)) [
    | inl e ↦ absurd (let f : get k (field j w t) ≡ some w = rw e refl in cc)
    | inr n ↦ rw n (ap (field j w) (put-append k v t (rw n at h)))
  ]

  append-append : (t p q : Object F) → append (append t p) q ≡ append t (append p q)
  unfolding append
  append-append empty p q = refl
  append-append (field k v t) p q = ap (field k v) (append-append t p q)

  get-append : (j : String) (t p : Object F) → get j t ≡ none → get j (append t p) ≡ get j p
  unfolding get append
  get-append j empty p h = refl
  get-append j (field k v t) p h = elim (Bool-cases (k == j)) [
    | inl e ↦ absurd (let f : get j (field k v t) ≡ some v = rw e refl in cc)
    | inr n ↦ rw n (get-append j t p (rw n at h))
  ]

  append-empty : (t : Object F) → t ≡ append t empty
  unfolding append
  append-empty empty = refl
  append-empty (field k v t) = ap (field k v) (append-empty t)

  -- A name of the rest is another one.
  rest_ne :
      (k j : String) (rest : Object F)
      → not (is_some (get k rest)) ≡ true
      → is_some (get j rest) ≡ true
      → (k == j) ≡ false
  rest_ne k j rest h present = elim (Bool-cases (k == j)) [
    | inl e ↦ absurd (let same = (eq_iff k j).0 e in let g = rw same at h in ground arith)
    | inr n ↦ n
  ]

  in_field :
      (k j : String) (v : Value F) (rest : Object F)
      → is_some (get j rest) ≡ true
      → is_some (get j (field k v rest)) ≡ true
  unfolding get
  in_field k j v rest h = ground arith

  get-append_ne :
      (k j : String) (v : Value F) (t : Object F)
      → (k == j) ≡ false
      → get j t ≡ none
      → get j (append t (field k v empty)) ≡ none
  unfolding get
  get-append_ne k j v t ne h = get-append j t (field k v empty) h ∙ (rw ne refl)

  -- A plain patch of other names than the target's is put after it as it stands.
  mutual
    unfolding rfc7396 is_plain get append

    rfc7396-plain :
        (p t : Object F)
        → is_plain p ≡ true
        → ((j : String) → is_some (get j p) ≡ true → get j t ≡ none)
        → rfc7396 p t ≡ append t p
    rfc7396-plain empty t h new = append-empty t
    rfc7396-plain (field k v rest) t h new =
        let (plain, once, later) = and-eq-true (is_plain_value v) _ _ h in
        let first = rfc_member-plain v k t plain (new k (rw (eq_refl k) refl)) in
        rw first (
          rfc7396-plain rest (append t (field k v empty)) later (λ j present.
            get-append_ne k j v t (rest_ne k j rest once present)
              (new j (in_field k j v rest present)))
          ∙ append-append t (field k v empty) rest)

    rfc_member-plain :
        (v : Value F) (k : String) (t : Object F)
        → is_plain_value v ≡ true
        → get k t ≡ none
        → rfc_member v k t ≡ append t (field k v empty)
    rfc_member-plain null k t h new = absurd (cc)
    rfc_member-plain (obj p) k t h new =
        rw (new, rfc7396-plain p empty h (λ j present. refl)) (put-append k (obj p) t new)
    rfc_member-plain v k t h new = put-append k v t new

  -- A step leaves the other names of the target as they are.
  get-rfc_member_ne :
      (v : Value F) (k j : String) (t : Object F)
      → (k == j) ≡ false
      → get j (rfc_member v k t) ≡ get j t
  unfolding rfc7396
  get-rfc_member_ne null k j t ne = ground (arith, get-delete j k t)
  get-rfc_member_ne (obj p) k j t ne = get-put j k _ t ∙ rw ne refl
  get-rfc_member_ne v k j t ne = ground (arith, get-put j k v t)

  -- Only the target's values at the names of the patch matter.
  is_mergeable-ext :
      (p t t' : Object F)
      → ((j : String) → is_some (get j p) ≡ true → get j t ≡ get j t')
      → is_mergeable p t ≡ is_mergeable p t'
  unfolding is_mergeable get
  is_mergeable-ext empty t t' same = refl
  is_mergeable-ext (field k v rest) t t' same =
      let here = same k (rw (eq_refl k) refl) in
      rw (here, is_mergeable-ext rest t t' (λ j present. same j (in_field k j v rest present))) refl

  is_mergeable-rest :
      (v : Value F) (k : String) (rest t : Object F)
      → not (is_some (get k rest)) ≡ true
      → is_mergeable rest t ≡ true
      → is_mergeable rest (rfc_member v k t) ≡ true
  is_mergeable-rest v k rest t once h =
      is_mergeable-ext rest (rfc_member v k t) t
        (λ j present. get-rfc_member_ne v k j t (rest_ne k j rest once present))
      ∙ h

module _ {F : Type 0} (go : Go F) (copies : Copies go) where
  mutual
    unfolding merge_fields rfc7396 is_mergeable set_nested append get

    merge_fields-rfc7396 :
        (p t : Object F) → is_mergeable p t ≡ true → merge_fields go p t ≡ ok (rfc7396 p t)
    merge_fields-rfc7396 empty t h = refl
    merge_fields-rfc7396 (field k v rest) t h =
        let (first, once, later) =
          and-eq-true (is_mergeable_value v (nested_object (get k t))) _ _ h in
        rw (merge_value-rfc_member v k t (nested_object (get k t)) refl first)
          (merge_fields-rfc7396 rest (rfc_member v k t) (is_mergeable-rest v k rest t once later))

    merge_value-rfc_member :
        (v : Value F) (k : String) (t : Object F) (b : Option (Object F))
        → nested_object (get k t) ≡ b
        → is_mergeable_value v b ≡ true
        → merge_value go v k t ≡ ok (rfc_member v k t)
    merge_value-rfc_member null k t b e h = refl
    merge_value-rfc_member (obj p) k t none e h =
        rw (e, rfc7396-plain p empty h (λ j present. refl)) refl
    merge_value-rfc_member (obj p) k t (some b) e h =
        rw (e, copies.copy, merge_fields-rfc7396 p b h) refl
    merge_value-rfc_member v k t b e h = refl

  -- Merging a patch into a base gives what RFC 7396 gives, if copies are faithful and the patch is
  -- mergeable: no name stands twice in it, and its objects have no nulls where the base has no object.
  pub merge_patch-rfc7396 :
      (base patch : Object F)
      → is_mergeable patch base ≡ true
      → merge_patch go base patch ≡ ok (rfc7396 patch base)
  unfolding merge_patch
  merge_patch-rfc7396 base patch h = rw copies.copy (merge_fields-rfc7396 patch base h)
