-- ===== src/Operator/Lookup.antt =====
-- Where the parts of a generated spec are found.
use kstone.Base.{
  ◌≡◌, refl, ap, ◌∙◌, Bool, false, Option, none, some, List, [], ◌∷◌, ◌++◌, if◌then◌else◌, arith,
  inl, inr, Bool-cases,
}
use kstone.Base.Text.{Text, text, text_eq, text_eq_refl}
use kstone.Base.Decimal.{itoa}
use kstone.Api.{Cluster}
use kstone.Unstructured.{
  Value, Fields, str, int, obj, arr, get, put, fields, at, get-put, get-put_ne,
}
use kstone.Operator.{Foreign, annotation}
use kstone.Operator.Generate.{
  generate_etcd_spec, is_https, template_fields, template_base, resource_fields, claim_fields,
  put_repository, put_secure, put_tolerations, put_affinity,
}

at-field :
    (key : Text) (path : List Text) (fs gs : Fields)
    → get key fs ≡ get key gs
    → at (key ∷ path) (obj fs) ≡ at (key ∷ path) (obj gs)
unfolding at
at-field key path fs gs h = ap (λ (o : Option Value). elim o [ none ↦ none | some v ↦ at path v ]) h

pub at-put :
    (key : Text) (path : List Text) (v : Value) (fs : Fields)
    → at (key ∷ path) (obj (put key v fs)) ≡ at path v
unfolding at
at-put key path v fs =
    let h : get key (put key v fs) ≡ some v =
      get-put key key v fs
      ∙ ap (λ (b : Bool). if b then some v else get key fs) (text_eq_refl key) in
    ap (λ (o : Option Value). elim o [ none ↦ none | some u ↦ at path u ]) h

module _ {X : Type 0} (k : Foreign X) (c : Cluster X) where
  get-repository :
      (key : Text) (fs : Fields)
      → text_eq (text "repository") key ≡ false
      → get key (put_repository k c fs) ≡ get key fs
  unfolding put_repository
  get-repository key fs h =
      ground
        (arith, get-put_ne (text "repository") key (str (annotation c (text "repository"))) fs h)

  get-secure :
      (key : Text) (fs : Fields)
      → text_eq (text "secure") key ≡ false
      → get key (put_secure k c fs) ≡ get key fs
  unfolding put_secure
  get-secure key fs h = elim (Bool-cases (is_https k c)) [
    | inl t ↦ rw t (get-put_ne (text "secure") key _ fs h)
    | inr t ↦ rw t refl
  ]

  get-tolerations :
      (key : Text) (fs : Fields)
      → text_eq (text "tolerations") key ≡ false
      → get key (put_tolerations k c.spec.tolerations fs) ≡ get key fs
  unfolding put_tolerations
  get-tolerations key fs h = ground (
    arith,
    get-put_ne (text "tolerations") key (arr (k.toleration_values c.spec.tolerations)) fs h,
  )

  get-affinity :
      (key : Text) (o : Option Fields) (fs : Fields)
      → text_eq (text "affinity") key ≡ false
      → get key (put_affinity k o fs) ≡ get key fs
  unfolding put_affinity
  get-affinity key none fs h = refl
  get-affinity key (some a) fs h = get-put_ne (text "affinity") key (obj a) fs h

  -- Below a name that no conditional part of the spec writes.
  at-spec :
      (key : Text) (path : List Text)
      → text_eq (text "repository") key ≡ false
      → text_eq (text "secure") key ≡ false
      → at (key ∷ path) (obj (generate_etcd_spec k c))
        ≡ at (key ∷ path) (
            obj (
              fields (
                (text "size", int c.spec.size)
                ∷ (text "version", str c.spec.version)
                ∷ (text "template", obj (template_fields k c))
                ∷ [])))
  unfolding generate_etcd_spec
  at-spec key path r s = at-field key path _ _ (get-repository key _ r ∙ get-secure key _ s)

  pub at-size : at (text "size" ∷ []) (obj (generate_etcd_spec k c)) ≡ some (int c.spec.size)
  unfolding at get text_eq
  at-size = at-spec (text "size") [] refl refl

  pub at-version :
      at (text "version" ∷ []) (obj (generate_etcd_spec k c)) ≡ some (str c.spec.version)
  unfolding at get text_eq
  at-version = at-spec (text "version") [] refl refl

  at-template :
      (path : List Text)
      → at (text "template" ∷ path) (obj (generate_etcd_spec k c))
        ≡ at path (obj (template_fields k c))
  unfolding at get text_eq
  at-template path = at-spec (text "template") path refl refl

  at-template_base :
      (key : Text) (path : List Text)
      → text_eq (text "tolerations") key ≡ false
      → text_eq (text "affinity") key ≡ false
      → at (text "template" ∷ key ∷ path) (obj (generate_etcd_spec k c))
        ≡ at (key ∷ path) (obj (template_base k c))
  unfolding template_fields
  at-template_base key path t a =
      let base = put_affinity k (k.affinity_fields c.spec.affinity) (template_base k c) in
      at-template (key ∷ path)
      ∙ at-field key path (template_fields k c) (template_base k c) (
          get-tolerations key base t
          ∙ get-affinity key (k.affinity_fields c.spec.affinity) (template_base k c) a)

  pub at-env :
      at (text "template" ∷ text "env" ∷ []) (obj (generate_etcd_spec k c))
      ≡ some (arr (k.env_values c.spec.env))
  unfolding at get text_eq template_base
  at-env = at-template_base (text "env") [] refl refl

  pub at-resource :
      (path : List Text)
      → at (text "template" ∷ text "resources" ∷ path) (obj (generate_etcd_spec k c))
        ≡ at path (obj (resource_fields k c))
  unfolding at get text_eq template_base
  at-resource path = at-template_base (text "resources") path refl refl

  pub at-claim :
      (path : List Text)
      → at
          (text "template" ∷ text "persistentVolumeClaimSpec" ∷ path)
          (obj (generate_etcd_spec k c))
        ≡ at path (obj (claim_fields k c))
  unfolding at get text_eq template_base
  at-claim path = at-template_base (text "persistentVolumeClaimSpec") path refl refl

  pub at-storage :
      at (text "resources" ∷ text "requests" ∷ text "storage" ∷ []) (obj (claim_fields k c))
      ≡ some (str (itoa c.spec.disk_size ++ text "Gi"))
  unfolding at get put text_eq claim_fields
  at-storage = elim (Bool-cases (text_eq c.spec.disk_type [])) [
    | inl t ↦ rw t refl
    | inr t ↦ rw t refl
  ]
