-- ===== src/ClientSecret/Reference.antt =====
-- Which secret New of pkg/etcd/client.go reads, for a name with and without a namespace, and for the
-- name that AfterCreate of the kstone provider writes.
use kstone.Base.{◌≡◌, refl, ap, ◌∙◌, true, some, [], ◌∷◌, ◌++◌, get_or}
use kstone.Base.Text.{Text, text, text_eq, split, cat}
use kstone.Base.Split.{is_free, split-free, split-append, is_free-append}
use kstone.Base.Dict.{Dict, find, lookup, lookup-insert}
use kstone.Api.{Cluster}
use kstone.Interfaces.{ok}
use kstone.Controller.{cert_name}
use kstone.Operator.{created_annotations, scheme}
use kstone.ClientSecret.{path_namespace, named, secret_ref}

pub split-path :
    (a b : Text)
    → is_free b'/' a ≡ true
    → is_free b'/' b ≡ true
    → split b'/' (a ++ (text "/" ++ b)) ≡ a ∷ b ∷ []
split-path a b h k = split-append b'/' a b h ∙ ap (λ l. a ∷ l) (split-free b'/' b k)

-- A name `a/b` is the secret b of the namespace a, wherever the cluster is; a name with no slash is
-- a secret of the namespace of the cluster.
pub secret_ref-split :
    (namespace name a b : Text)
    → is_free b'/' namespace ≡ true
    → is_free b'/' name ≡ true
    → is_free b'/' a ≡ true
    → is_free b'/' b ≡ true
    → (secret_ref (namespace ++ (text "/" ++ name)) (a ++ (text "/" ++ b)) ≡ ok (a, b))
      × (secret_ref (namespace ++ (text "/" ++ name)) b ≡ ok (namespace, b))
unfolding secret_ref path_namespace named
secret_ref-split namespace name a b h₁ h₂ h₃ h₄ = (
  rw (split-path a b h₃ h₄) refl,
  rw (split-path namespace name h₁ h₂, split-free b'/' b h₄) refl,
)

module _ {X : Type 0} where
  created_cert :
      (c : Cluster X) (annotations : Dict Text)
      → lookup scheme annotations ≡ some (text "https")
      → find cert_name (some (created_annotations c annotations))
        ≡ some (cat (c.namespace ∷ text "/" ∷ c.name ∷ text "-etcd-client-cert" ∷ []))
  unfolding created_annotations text_eq
  created_cert c annotations h = rw h (simp (lookup-insert))

  -- The secret that is read for a cluster over https after AfterCreate is the client certificate of
  -- etcd-operator, in the namespace of the cluster, if the name and the namespace hold no slash.
  pub created-secret_ref :
      (c : Cluster X) (annotations : Dict Text)
      → lookup scheme annotations ≡ some (text "https")
      → is_free b'/' c.name ≡ true
      → is_free b'/' c.namespace ≡ true
      → secret_ref
          (c.namespace ++ (text "/" ++ c.name))
          (get_or (find cert_name (some (created_annotations c annotations))) [])
        ≡ ok (c.namespace, c.name ++ text "-etcd-client-cert")
  unfolding is_free
  created-secret_ref c annotations h n s =
      let f = is_free-append b'/' c.name (text "-etcd-client-cert") n refl in
      rw (created_cert c annotations h)
        (secret_ref-split c.namespace c.name c.namespace (c.name ++ text "-etcd-client-cert") s n s
          f).0
