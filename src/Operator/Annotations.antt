-- ===== src/Operator/Annotations.antt =====
-- AfterCreate and GetRuntimeEtcdMembers: the annotation extClientURL, which one writes and the other
-- reads.
use kstone.Base.{ℕ, ◌<◌, ◌≡◌, refl, true, none, some, [], arith}
use kstone.Base.Text.{Text}
use kstone.Base.Dict.{Dict, find, lookup, lookup-insert_self}
use kstone.Api.{Cluster}
use kstone.Members.{populate_extension_client_url_map}
use kstone.Operator.{
  url_key, url_value, url_loop, rounds, created_annotations, after_create, ext_client_url,
}
use kstone.Operator.Pairs.{is_name, loop_read, lookup_first}

rounds-eq : (n : ℕ) → n < 9223372036854775808 → rounds n ≡ n
rounds-eq n h = ground arith

module _ {X : Type 0} where
  created_urls :
      (c : Cluster X) (annotations : Dict Text)
      → find ext_client_url (some (created_annotations c annotations))
        ≡ some (url_loop c.name c.namespace (rounds c.spec.size) (rounds c.spec.size) 0 [])
  unfolding created_annotations
  created_urls c annotations = lookup-insert_self _ _ _

  -- AfterCreate on a cluster whose annotations are a map succeeds, and the URL annotation it leaves
  -- is read back, without an error, as a map that gives each member below the size, by its name and
  -- port, the address of its headless service. The name and the namespace hold neither `>` nor a
  -- comma, and the size is a positive int.
  pub after_create-read :
      {W : Type 0} (c : Cluster X) (annotations : Dict Text) (w : W)
      → c.annotations ≡ some annotations
      → is_name c.name ≡ true
      → is_name c.namespace ≡ true
      → 0 < c.spec.size
      → c.spec.size < 9223372036854775808
      → (created : Cluster X) × (written : Text) × (urls : Dict Text) × (after_create c w
          ≡ some ((created, none), w))
        × (find ext_client_url created.annotations ≡ some written)
        × (populate_extension_client_url_map written ≡ (some urls, none))
        × ((i : ℕ)
            → i < c.spec.size
            → lookup (url_key c.name i) urls ≡ some (url_value c.name c.namespace i))
  unfolding after_create
  after_create-read c annotations w a n s positive small = (
    record c { annotations = some (created_annotations c annotations) },
    _,
    _,
    rw a refl,
    created_urls c annotations,
    rw (rounds-eq c.spec.size small) (loop_read c.name c.namespace n s c.spec.size positive),
    lookup_first c.name c.namespace c.spec.size,
  )
