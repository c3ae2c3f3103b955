-- ===== src/Operator/Generate.antt =====
-- pkg/clusterprovider/providers/kstone/kstone.go, generateEtcdSpec and updateEtcdSpec: the spec of
-- the EtcdCluster that etcd-operator is given.
use kstone.Base.{
  Bool, true, false, not, Option, none, some, List, [], ◌∷◌, ◌++◌, if◌then◌else◌, get_or,
}
use kstone.Base.Text.{Text, text, text_eq, split, trim_space}
use kstone.Base.Decimal.{itoa}
use kstone.Base.Effect.{new_error}
use kstone.Api.{Cluster}
use kstone.Interfaces.{Result, err}
use kstone.Unstructured.{
  Value, Fields, null, bool, int, str, arr, obj, end, put, fields, strings, copy_dict, Accessors,
}
use kstone.Operator.{Foreign, annotation, scheme}

abbrev is_empty {ℓ} : {A : Type ℓ} → List A → Bool
is_empty [] = true
is_empty (x ∷ xs) = false

-- The names in the annotation extraServerCertSANs, trimmed, without the empty ones.
unfoldable pub cert_sans : List Text → List Text
cert_sans [] = []
cert_sans (san ∷ sans) =
    let rest = cert_sans sans in if text_eq (trim_space san) [] then rest else trim_space san ∷ rest

-- A nil slice if there is none.
unfoldable pub sans_value : List Text → Value
sans_value [] = null
sans_value (san ∷ sans) = arr (strings (san ∷ sans))

module _ {X : Type 0} (k : Foreign X) where
  unfoldable pub claim_fields : Cluster X → Fields
  claim_fields c =
      let base = fields (
        (text "accessModes", arr (strings (text "ReadWriteOnce" ∷ [])))
        ∷ (
          text "resources",
          obj (
              fields (
                (
                  text "requests",
                  obj (fields ((text "storage", str (itoa c.spec.disk_size ++ text "Gi")) ∷ [])),
                )
                ∷ [])),
        )
        ∷ []) in
      if text_eq c.spec.disk_type []
      then base
      else put (text "storageClassName") (str c.spec.disk_type) base

  unfoldable pub amounts : Option X → Value
  amounts list = obj (
      fields ((text "cpu", str (k.cpu_text list)) ∷ (text "memory", str (k.memory_text list)) ∷ []))

  unfoldable pub put_amounts : Text → Option X → Fields → Fields
  unfolding amounts
  put_amounts name none fs = fs
  put_amounts name (some list) fs = put name (amounts (some list)) fs

  unfoldable pub resource_fields : Cluster X → Fields
  unfolding put_amounts
  resource_fields c =
      put_amounts (text "requests") c.spec.requests (put_amounts (text "limits") c.spec.limits end)

  unfoldable pub tls_fields : Cluster X → Fields
  unfolding cert_sans sans_value
  tls_fields c =
      let base = fields (
        (text "autoGenerateClientCert", bool true)
        ∷ (text "autoGeneratePeerCert", bool true)
        ∷ (text "autoGenerateServerCert", bool true)
        ∷ (
          text "extraServerCertSANs",
          sans_value (cert_sans (split b',' (annotation c (text "extraServerCertSANs")))),
        )
        ∷ []) in
      if text_eq c.spec.auth_config.tls_secret []
      then base
      else put (text "externalCASecret") (str c.spec.auth_config.tls_secret) base

  abbrev pub is_https : Cluster X → Bool
  is_https c = text_eq (annotation c scheme) (text "https")

  unfoldable pub extra_args : Bool → Value
  extra_args true = arr (strings (text "logger=zap" ∷ text "client-cert-auth=true" ∷ []))
  extra_args false = arr (strings (text "logger=zap" ∷ []))

  unfoldable pub put_affinity : Option Fields → Fields → Fields
  put_affinity none fs = fs
  put_affinity (some affinity) fs = put (text "affinity") (obj affinity) fs

  unfoldable pub put_tolerations : List X → Fields → Fields
  put_tolerations ts fs =
      if is_empty ts then fs else put (text "tolerations") (arr (k.toleration_values ts)) fs

  unfoldable pub template_base : Cluster X → Fields
  unfolding claim_fields resource_fields extra_args
  template_base c = fields (
      (text "extraArgs", extra_args (is_https c))
      ∷ (text "labels", obj (copy_dict (get_or c.labels []) end))
      ∷ (text "annotations", obj (copy_dict (get_or c.annotations []) end))
      ∷ (text "env", arr (k.env_values c.spec.env))
      ∷ (text "persistentVolumeClaimSpec", obj (claim_fields c))
      ∷ (text "resources", obj (resource_fields c))
      ∷ [])

  unfoldable pub template_fields : Cluster X → Fields
  unfolding template_base put_affinity put_tolerations
  template_fields c =
      put_tolerations c.spec.tolerations
        (put_affinity (k.affinity_fields c.spec.affinity) (template_base c))

  unfoldable pub put_secure : Cluster X → Fields → Fields
  unfolding tls_fields
  put_secure c fs =
      if is_https c
      then put (text "secure")
          (obj (
            fields
              ((text "tls", obj (fields ((text "autoTLSCert", obj (tls_fields c)) ∷ []))) ∷ [])))
          fs
      else fs

  unfoldable pub put_repository : Cluster X → Fields → Fields
  put_repository c fs =
      if text_eq (annotation c (text "repository")) []
      then fs
      else put (text "repository") (str (annotation c (text "repository"))) fs

  unfoldable pub generate_etcd_spec : Cluster X → Fields
  unfolding template_fields put_secure put_repository
  generate_etcd_spec c = put_repository c (
      put_secure c (
        fields (
          (text "size", int c.spec.size)
          ∷ (text "version", str c.spec.version)
          ∷ (text "template", obj (template_fields c))
          ∷ [])))

  unfoldable pub update_etcd_spec : Accessors → Value → Cluster X → Result Value
  unfolding generate_etcd_spec
  update_etcd_spec a etcd c =
      if not (a.has_map etcd (text "spec"))
      then err (new_error (text "get spec error"))
      else a.set_field etcd (obj (generate_etcd_spec c)) (text "spec")
