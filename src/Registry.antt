-- ===== src/Registry.antt =====
-- The registries of factories by name: pkg/clusterprovider/plugins.go, pkg/featureprovider/plugins.go,
-- pkg/backup/plugins.go and pkg/authentication/plugins.go. They differ in their types and in the
-- message of a missing name. A mutex makes each call one step.
pub mod Laws
use kstone.Base.{Option, none, some, List, [], ◌∷◌, map}
use kstone.Base.Text.{Text, text}
use kstone.Base.Dict.{Dict, lookup, insert}
use kstone.Base.Effect.{Go, Error, new_error, pure}
use kstone.Interfaces.{Result, ok, err}

-- A factory makes a `P` from a context.
abbrev pub Factories : Type 0 → Type 0 → Type 0 → Type 0
Factories W C P = Dict (C → Go W (Result P))

abbrev pub cluster_missing : Text
cluster_missing = text "fatal error,etcd cluster provider not found"

abbrev pub feature_missing : Text
feature_missing = text "fatal error,feature provider not found"

abbrev pub storage_missing : Text
storage_missing = text "fatal error,backup storage provider not found"

abbrev pub token_missing : Text
token_missing = text "fatal error,token provider not found"

module _ {W C P : Type 0} where
  -- A second registration of a name is logged, and replaces the first.
  unfoldable pub register : Text → (C → Go W (Result P)) → Factories W C P → Factories W C P
  register name factory providers = insert name factory providers

  unfoldable pub make : Text → Option (C → Go W (Result P)) → C → Go W (Result P)
  make missing none context = pure (err (new_error missing))
  make missing (some factory) context = factory context

  unfoldable pub get_provider : Text → Factories W C P → Text → C → Go W (Result P)
  unfolding make
  get_provider missing providers name context = make missing (lookup name providers) context

-- The keys of the map, in the order of an iteration.
unfoldable pub list_feature_provider : {W C P : Type 0} → Factories W C P → List Text
list_feature_provider providers = map (λ f. f.0) providers
