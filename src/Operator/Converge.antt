-- ===== src/Operator/Converge.antt =====
-- An update makes the comparison succeed: what generateEtcdSpec writes, Equal reads back.
use kstone.Base.{
  ℕ, ◌≡◌, ◌≢◌, refl, sym, ap, ◌∙◌, Bool, true, false, Option, none, some, List, [], ◌∷◌, ◌++◌,
  if◌then◌else◌, arith, ◌<◌, ==_refl, all,
}
use kstone.Base.Text.{Text, text, text_eq, text_eq_refl, text_eq_ne, trim_right2}
use kstone.Base.Decimal.{itoa, is_digit, itoa-digits}
use kstone.Api.{Cluster}
use kstone.Interfaces.{ok}
use kstone.Unstructured.{
  Value, Fields, obj, end, get, put, at, Accessors, AccessorLaws, as_text, as_int, as_values,
}
use kstone.Operator.{Foreign}
use kstone.Operator.Generate.{generate_etcd_spec, update_etcd_spec, resource_fields, put_amounts}
use kstone.Operator.Lookup.{at-put, at-size, at-version, at-env, at-resource, at-claim, at-storage}
use kstone.Operator.Compare.{
  object_equal, resource_equal, resources_equal, get_old_resource, get_desired_resource, env_equal,
  itoa_of_uint, storage_path, resource_type, resource_name, requests_cpu, requests_memory,
  limits_cpu, limits_memory, ResourceName,
}

-- What the comparison relies on in k8s.io/api and encoding/json: no quantity prints as the empty
-- text, those of a nil list print as "0", and a list of variables survives its JSON.
pub record ForeignLaws {X : Type 0} (k : Foreign X) : Type 0 where
  pub cpu_ne_nil : (o : Option X) → k.cpu_text o ≢ []
  pub memory_ne_nil : (o : Option X) → k.memory_text o ≢ []
  pub cpu_none : k.cpu_text none ≡ text "0"
  pub memory_none : k.memory_text none ≡ text "0"
  pub decode : (xs : List X) → k.decode_env (k.env_values xs) ≡ ok xs
  pub equal : (xs : List X) → k.env_equal xs xs ≡ true

trim_right2-digits : (s : Text) → all is_digit s ≡ true → trim_right2 b'G' b'i' (s ++ text "Gi") ≡ s
unfolding trim_right2
trim_right2-digits [] h = refl
trim_right2-digits (a ∷ s) h = ground (arith, trim_right2-digits s)

if_same : {A : Type 0} (b : Bool) (x : A) → (if b then x else x) ≡ x
if_same true x = refl
if_same false x = refl

small_uint : (n : ℕ) → n < 9223372036854775808 → itoa_of_uint n ≡ itoa n
unfolding itoa_of_uint
small_uint n h = ground arith

or_zero : Text → Text
or_zero t = if text_eq t [] then text "0" else t

or_zero-ne : (t : Text) → t ≢ [] → or_zero t ≡ t
unfolding or_zero
or_zero-ne t h = rw (text_eq_ne t [] h) refl

module _ {X : Type 0} (k : Foreign X) (laws : ForeignLaws k) where
  desired : ResourceName → Option X → Option X → Text
  desired requests_cpu r l = k.cpu_text r
  desired requests_memory r l = k.memory_text r
  desired limits_cpu r l = k.cpu_text l
  desired limits_memory r l = k.memory_text l

  desired-get :
      (a : Accessors) (n : ResourceName) (c : Cluster X)
      → desired n c.spec.requests c.spec.limits ≡ get_desired_resource a k c n
  unfolding desired get_desired_resource
  desired-get a requests_cpu c = refl
  desired-get a requests_memory c = refl
  desired-get a limits_cpu c = refl
  desired-get a limits_memory c = refl

  cpu_kept : (x : X) → or_zero (k.cpu_text (some x)) ≡ k.cpu_text (some x)
  cpu_kept x = or_zero-ne _ (laws.cpu_ne_nil (some x))

  memory_kept : (x : X) → or_zero (k.memory_text (some x)) ≡ k.memory_text (some x)
  memory_kept x = or_zero-ne _ (laws.memory_ne_nil (some x))

  amount_read :
      (n : ResourceName) (r l : Option X)
      → or_zero (
          as_text (
            at
              (resource_type n ∷ resource_name n ∷ [])
              (obj (put_amounts k (text "requests") r (put_amounts k (text "limits") l end)))))
        ≡ desired n r l
  unfolding desired or_zero at get put put_amounts resource_type resource_name text_eq
  amount_read requests_cpu none none = sym laws.cpu_none
  amount_read requests_cpu none (some y) = sym laws.cpu_none
  amount_read requests_cpu (some x) none = cpu_kept x
  amount_read requests_cpu (some x) (some y) = cpu_kept x
  amount_read requests_memory none none = sym laws.memory_none
  amount_read requests_memory none (some y) = sym laws.memory_none
  amount_read requests_memory (some x) none = memory_kept x
  amount_read requests_memory (some x) (some y) = memory_kept x
  amount_read limits_cpu none none = sym laws.cpu_none
  amount_read limits_cpu none (some y) = cpu_kept y
  amount_read limits_cpu (some x) none = sym laws.cpu_none
  amount_read limits_cpu (some x) (some y) = cpu_kept y
  amount_read limits_memory none none = sym laws.memory_none
  amount_read limits_memory none (some y) = memory_kept y
  amount_read limits_memory (some x) none = sym laws.memory_none
  amount_read limits_memory (some x) (some y) = memory_kept y

module _ {X : Type 0} (a : Accessors) (al : AccessorLaws a) (k : Foreign X) (laws : ForeignLaws k)
    (c : Cluster X) (etcd : Value)
    (spec : (path : List Text)
      → at (text "spec" ∷ path) etcd ≡ at path (obj (generate_etcd_spec k c))) where
  old_resource : (n : ResourceName) → get_old_resource a etcd n ≡ get_desired_resource a k c n
  unfolding get_old_resource resource_fields or_zero
  old_resource n =
      let path : List Text = resource_type n ∷ resource_name n ∷ [] in
      let read =
        al.string etcd (text "spec" ∷ text "template" ∷ text "resources" ∷ path)
        ∙ ap as_text (spec (text "template" ∷ text "resources" ∷ path) ∙ at-resource k c path) in
      ap or_zero read
      ∙ (amount_read k laws n c.spec.requests c.spec.limits ∙ desired-get k laws a n c)

  same_resources : (ns : List ResourceName) → resources_equal a k c etcd ns ≡ true
  unfolding resources_equal
  same_resources [] = refl
  same_resources (n ∷ ns) =
      rw (old_resource n, text_eq_refl (get_desired_resource a k c n)) (same_resources ns)

  same_env : env_equal a k c (ok c.spec.env) ≡ (true, none)
  unfolding env_equal
  same_env = rw (laws.equal c.spec.env) (if_same _ (true, none))

  -- An object whose spec is the generated one is equal.
  pub generated_equal :
      c.spec.disk_size < 9223372036854775808 → object_equal a k c etcd ≡ (true, none)
  unfolding object_equal resource_equal
  generated_equal h =
      let size =
        al.int64 etcd (text "spec" ∷ text "size" ∷ [])
        ∙ ap as_int (spec (text "size" ∷ []) ∙ at-size k c) in
      let version =
        al.string etcd (text "spec" ∷ text "version" ∷ [])
        ∙ ap as_text (spec (text "version" ∷ []) ∙ at-version k c) in
      let storage =
        al.string etcd storage_path
        ∙ ap as_text (
            spec (
              text "template"
              ∷ text "persistentVolumeClaimSpec"
              ∷ text "resources"
              ∷ text "requests"
              ∷ text "storage"
              ∷ [])
            ∙ (at-claim k c (text "resources" ∷ text "requests" ∷ text "storage" ∷ [])
                ∙ at-storage k c)) in
      let env =
        al.slice etcd (text "spec" ∷ text "template" ∷ text "env" ∷ [])
        ∙ ap as_values (spec (text "template" ∷ text "env" ∷ []) ∙ at-env k c) in
      let digits = trim_right2-digits (itoa c.spec.disk_size) (itoa-digits c.spec.disk_size) in
      rw
        (
          size,
          ==_refl,
          version,
          text_eq_refl,
          storage,
          digits,
          small_uint c.spec.disk_size h,
          text_eq_refl,
          same_resources (requests_cpu ∷ requests_memory ∷ limits_cpu ∷ limits_memory ∷ []),
          env,
          laws.decode c.spec.env,
        )
        same_env

-- After updateEtcdSpec on any object with a spec, Equal finds nothing to update: the update
-- succeeds, and the comparison of the object that it writes answers true with no error. The disk
-- size fits in an int, and the accessors and the values of k8s.io/api obey their laws.
pub update-equal :
    {X : Type 0} (a : Accessors) (k : Foreign X) (c : Cluster X) (fs : Fields)
    → AccessorLaws a
    → ForeignLaws k
    → a.has_map (obj fs) (text "spec") ≡ true
    → c.spec.disk_size < 9223372036854775808
    → (o : Value) × (update_etcd_spec k a (obj fs) c ≡ ok o) × (object_equal a k c o ≡ (true, none))
unfolding update_etcd_spec
update-equal a k c fs al laws found small =
    let o = put (text "spec") (obj (generate_etcd_spec k c)) fs in
    (
      obj o,
      rw found (al.set fs (obj (generate_etcd_spec k c)) (text "spec")),
      generated_equal a al k laws c (obj o)
          (λ path. at-put (text "spec") path (obj (generate_etcd_spec k c)) fs) small,
    )
