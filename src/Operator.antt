-- ===== src/Operator.antt =====
-- pkg/clusterprovider/providers/kstone/kstone.go: the provider of clusters that etcd-operator runs.
-- This file: the annotations that AfterCreate writes, and the parameters of the other parts.
pub mod Generate
pub mod Compare
pub mod Lookup
pub mod Converge
pub mod Pairs
pub mod Annotations
pub mod Provider
pub mod Health
pub mod Contract
use kstone.Base.{
  ℕ, zero, suc, ◌+◌, ◌-◌, ◌≡◌, Bool, true, false, Option, none, some, List, [], ◌∷◌, ◌++◌,
  if◌then◌else◌, ltb, get_or,
}
use kstone.Base.Text.{Text, text, text_eq, cat}
use kstone.Base.Dict.{Dict, lookup, insert, find}
use kstone.Base.Decimal.{itoa}
use kstone.Base.Effect.{Go, Error, pure, panic, ◌>>=◌}
use kstone.Api.{Cluster, Spec, Status}
use kstone.Unstructured.{Value, Values, Fields}
use kstone.Interfaces.{Result}

-- What the provider computes with values of k8s.io/api: the text of the quantities of a
-- ResourceList, also of a nil one, the JSON of the lists and of the affinity, and
-- reflect.DeepEqual of two lists of environment variables.
pub record Foreign (X : Type 0) : Type 0 where
  pub cpu_text : Option X → Text
  pub memory_text : Option X → Text
  pub env_values : List X → Values
  pub decode_env : Values → Result (List X)
  pub env_equal : List X → List X → Bool
  pub affinity_fields : X → Option Fields
  pub toleration_values : List X → Values

-- int(x) of a uint that is used as a bound: negative numbers bound nothing.
abbrev pub rounds : ℕ → ℕ
rounds n = if ltb n 9223372036854775808 then n else 0

unfoldable pub url_key : Text → ℕ → Text
url_key name i = cat (name ∷ text "-etcd-" ∷ itoa i ∷ text ":2379" ∷ [])

unfoldable pub url_value : Text → Text → ℕ → Text
url_value name namespace i = cat (
    name
    ∷ text "-etcd-"
    ∷ itoa i
    ∷ text "."
    ∷ name
    ∷ text "-etcd-headless."
    ∷ namespace
    ∷ text ".svc.cluster.local:2379"
    ∷ [])

unfoldable pub arrow : Text → Text → ℕ → Text
arrow name namespace i = cat (url_key name i ∷ text "->" ∷ url_value name namespace i ∷ [])

-- The loop that builds extClientURL, with `size` as its bound and `left` rounds to go.
unfoldable pub url_loop : Text → Text → ℕ → ℕ → ℕ → Text → Text
url_loop name namespace size zero i urls = urls
url_loop name namespace size (suc left) i urls = url_loop name namespace size left (i + 1) (
    urls
    ++ (if ltb i (size - 1) then arrow name namespace i ++ text "," else arrow name namespace i))

abbrev pub scheme : Text
scheme = text "scheme"

abbrev pub imported_addr : Text
imported_addr = text "importedAddr"

abbrev pub ext_client_url : Text
ext_client_url = text "extClientURL"

module _ {X : Type 0} where
  -- A missing key reads as the empty text.
  abbrev pub annotation : Cluster X → Text → Text
  annotation c k = get_or (find k c.annotations) []

  unfoldable pub created_annotations : Cluster X → Dict Text → Dict Text
  unfolding url_loop
  created_annotations c annotations =
      let s = get_or (lookup scheme annotations) [] in
      let cert = cat (c.namespace ∷ text "/" ∷ c.name ∷ text "-etcd-client-cert" ∷ []) in
      let annotations' =
        if text_eq s (text "https")
        then insert (text "certName") cert annotations
        else annotations in
      let addr = cat (
        s
        ∷ text "://"
        ∷ c.name
        ∷ text "-etcd."
        ∷ c.namespace
        ∷ text ".svc.cluster.local:2379"
        ∷ []) in
      let n = rounds c.spec.size in
      insert ext_client_url (url_loop c.name c.namespace n n 0 [])
        (insert imported_addr addr annotations')

  -- A write to the annotations panics if they are a nil map.
  unfoldable pub annotate :
      {W : Type 0} → Cluster X → Option (Dict Text) → Go W (Cluster X × Option Error)
  unfolding created_annotations
  annotate c none = panic
  annotate c (some annotations) =
      pure (record c { annotations = some (created_annotations c annotations) }, none)

  unfoldable pub after_create : {W : Type 0} → Cluster X → Go W (Cluster X × Option Error)
  unfolding annotate
  after_create c = annotate c c.annotations
