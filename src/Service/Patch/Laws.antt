-- ===== src/Service/Patch/Laws.antt =====
-- What a merge patch leaves at each key.
use policy_manager.Base.{
  ◌≡◌, refl, subst, String, Option, none, some, ◌==◌, eq_iff, eq_refl, arith, false, Bool-cases,
  inl, inr, Result, ok, >>=-eq-ok,
}
use policy_manager.Json.{
  Value, null, obj, Object, empty, field, get, put, delete, IsMap, nested_object,
}
use policy_manager.Json.Laws.{get-put, get-delete}
use policy_manager.Json.Go.{Go, Copies}
use policy_manager.Service.Patch.{set_nested, merge_fields, merge_value, merge_patch}

module _ {F : Type 0} (go : Go F) where
  -- An object of the patch is merged into an object of the base, and replaces anything else.
  abbrev pub NestedAt : Option (Object F) → Object F → Option (Value F) → Type 0
  NestedAt none p r = r ≡ some (obj p)
  NestedAt (some b) p r = (m : Object F) × (merge_patch go b p ≡ ok m) × (r ≡ some (obj m))

  -- What a merge leaves at a key, from what the base and the patch hold there.
  abbrev pub MergedAt : Option (Value F) → Option (Value F) → Option (Value F) → Type 0
  MergedAt b none r = r ≡ b
  MergedAt b (some null) r = r ≡ none
  MergedAt b (some (obj p)) r = NestedAt (nested_object b) p r
  MergedAt b (some v) r = r ≡ some v

  set_nested-eq-ok :
      (b : Option (Object F)) (k : String) (p o r : Object F)
      → set_nested go b (λ x. merge_fields go p x) k p o ≡ ok r
      → (v : Value F) × NestedAt b p (some v) × (r ≡ put k v o)
  unfolding merge_patch
  set_nested-eq-ok none k p o r h = (obj p, refl, ground arith)
  set_nested-eq-ok (some b) k p o r h =
      let (b', copied, h2) = >>=-eq-ok (go.deep_copy b) _ h in
      let (m, merged, h3) = >>=-eq-ok (merge_fields go p b') _ h2 in
      (obj m, (m, rw copied merged, refl), ground arith)

  get-merge_value_ne :
      (v : Value F) (k j : String) (o r : Object F)
      → merge_value go v k o ≡ ok r
      → (k == j) ≡ false
      → get j r ≡ get j o
  unfolding merge_value
  get-merge_value_ne null k j o r h ne = ground (arith, get-delete j k o)
  get-merge_value_ne (obj p) k j o r h ne =
      let (v, at, e) = set_nested-eq-ok (nested_object (get k o)) k p o r h in
      ground (arith, get-put j k v o)
  get-merge_value_ne v k j o r h ne = ground (arith, get-put j k v o)

  merge_value-MergedAt :
      (v : Value F) (k : String) (o r : Object F)
      → merge_value go v k o ≡ ok r
      → MergedAt (get k o) (some v) (get k r)
  unfolding merge_value
  merge_value-MergedAt null k o r h = ground (arith, get-delete k k o, eq_refl k)
  merge_value-MergedAt (obj p) k o r h =
      let (v, at, e) = set_nested-eq-ok (nested_object (get k o)) k p o r h in
      rw (e, get-put, eq_refl) at
  merge_value-MergedAt v k o r h = ground (arith, get-put k k v o, eq_refl k)

  merge_fields-MergedAt :
      (p o r : Object F) (j : String)
      → IsMap p
      → merge_fields go p o ≡ ok r
      → MergedAt (get j o) (get j p) (get j r)
  unfolding merge_fields get
  merge_fields-MergedAt empty o r j d h = ground arith
  merge_fields-MergedAt (field k v rest) o r j d h =
      let (o', first, later) = >>=-eq-ok (merge_value go v k o) _ h in
      let ih = merge_fields-MergedAt rest o' r j d.1 later in
      elim (Bool-cases (k == j)) [
        | inl e ↦
            let same = (eq_iff k j).0 e in
            let gone : get j rest ≡ none = rw (← same) d.0 in
            let stays = rw gone at ih in
            rw (e, stays)
              (subst (λ x. MergedAt (get x o) (some v) (get x o')) same
                (merge_value-MergedAt v k o o' first))
        | inr ne ↦ rw ne (rw (get-merge_value_ne v k j o o' first ne) at ih)
      ]

  -- If copies are faithful and no key of the patch stands twice, a successful merge leaves at each key
  -- what the base and the patch hold there: a key that the patch does not name is kept, a null
  -- removes it, an object is merged into an object, and any other value replaces what was there.
  pub merge_patch-MergedAt :
      Copies go
      → (base patch r : Object F) (j : String) → IsMap patch
      → merge_patch go base patch ≡ ok r
      → MergedAt (get j base) (get j patch) (get j r)
  unfolding merge_patch
  merge_patch-MergedAt c base patch r j d h =
      merge_fields-MergedAt patch base r j d (rw c.copy at h)

  NestedAt-unique :
      (b : Option (Object F)) (p : Object F) (r s : Option (Value F))
      → NestedAt b p r
      → NestedAt b p s
      → r ≡ s
  NestedAt-unique none p r s h k = cc
  NestedAt-unique (some b) p r s (m, e, h) (n, f, k) = cc

  MergedAt-unique : (b p r s : Option (Value F)) → MergedAt b p r → MergedAt b p s → r ≡ s
  MergedAt-unique b none r s h k = cc
  MergedAt-unique b (some (obj p)) r s h k = NestedAt-unique (nested_object b) p r s h k
  MergedAt-unique b (some v) r s h k = cc

  -- The order in which the loop visits the patch does not matter: two patches that hold the same
  -- values, merged into the same base, leave the same value at each key.
  pub merge_patch_order :
      Copies go
      → (base p q r s : Object F) → IsMap p
      → IsMap q
      → ((j : String) → get j p ≡ get j q)
      → merge_patch go base p ≡ ok r
      → merge_patch go base q ≡ ok s
      → (j : String) → get j r ≡ get j s
  merge_patch_order c base p q r s dp dq same hp hq j =
      MergedAt-unique (get j base) (get j p) _ _ (merge_patch-MergedAt c base p r j dp hp)
        (rw same (merge_patch-MergedAt c base q s j dq hq))

  set_nested-total :
      Copies go
      → (b : Option (Object F)) (merge : Object F → Result String (Object F))
      → ((x : Object F) → (r : Object F) × (merge x ≡ ok r))
      → (k : String) (p o : Object F) → (r : Object F) × (set_nested go b merge k p o ≡ ok r)
  unfolding set_nested
  set_nested-total c none merge total k p o = (put k (obj p) o, refl)
  set_nested-total c (some b) merge total k p o =
      let (m, e) = total b in (put k (obj m) o, rw (c.copy, e))

  mutual
    unfolding merge_fields

    merge_fields-total :
        Copies go → (p o : Object F) → (r : Object F) × (merge_fields go p o ≡ ok r)
    merge_fields-total c empty o = (o, refl)
    merge_fields-total c (field k v rest) o =
        let (o', e) = merge_value-total c v k o in
        let (r, h) = merge_fields-total c rest o' in (r, rw e h)

    merge_value-total :
        Copies go
        → (v : Value F) (k : String) (o : Object F) → (r : Object F) × (merge_value go v k o ≡ ok r)
    merge_value-total c null k o = (delete k o, refl)
    merge_value-total c (obj p) k o =
        set_nested-total c (nested_object (get k o)) (λ b. merge_fields go p b)
          (λ b. merge_fields-total c p b) k p o
    merge_value-total c v k o = (put k v o, refl)

  -- If copies are faithful, every patch can be merged into every base.
  pub merge_patch-total :
      Copies go → (base patch : Object F) → (r : Object F) × (merge_patch go base patch ≡ ok r)
  unfolding merge_patch
  merge_patch-total c base patch = let (r, e) = merge_fields-total c patch base in (r, rw c.copy e)
