-- ===== src/EtcdStats.antt =====
-- pkg/etcd/stats.go: the number of keys and the indexes of a member, by the version of its storage.
-- The calls of the etcd clients are parameters.
use kstone.Base.{ℕ, List, [], ◌∷◌, length, if◌then◌else◌}
use kstone.Base.Text.{Text, text, text_eq}
use kstone.Base.Effect.{Go, new_error, pure, ◌>>=◌}
use kstone.Interfaces.{Result, ok, err, ClientConfig}
use kstone.EtcdClient.{EtcdLibrary, new_client_v3, new_short_connection_client_v2}

-- ConsistencyType of pkg/featureprovider/util.
pub data ConsistencyType : Type 0 where
  key_total revision index raft_applied_index raft_index : ConsistencyType

abbrev pub Metadata : Type 0
Metadata = List (ConsistencyType × ℕ)

-- Stat, after Init.
pub record Stat (W : Type 0) : Type 0 where
  pub get_total_key_num : Text → Go W (Result ℕ)
  pub get_index : Text → Go W (Result Metadata)
  pub close : Go W (Unit {0})

-- The header's revision and the two raft indexes of a status.
pub record Status : Type 0 where
  pub revision : ℕ
  pub raft_applied_index : ℕ
  pub raft_index : ℕ

-- A node's children, by their keys, and the index of the answer.
pub record Node : Type 0 where
  pub nodes : List Text
  pub index : ℕ

pub record StatCalls (W Client2 Client3 : Type 0) : Type 0 where
  pub count_v3 : Client3 → Text → Go W (Result ℕ)
  pub status_v3 : Client3 → Text → Go W (Result Status)
  pub close_v3 : Client3 → Go W (Unit {0})
  pub get_v2 : Client2 → Text → Go W (Result Node)

unfoldable pub metadata_v3 : Result Status → Result Metadata
metadata_v3 (err e) = err e
metadata_v3 (ok s) = ok (
    (ConsistencyType.revision, s.revision)
    ∷ (ConsistencyType.raft_applied_index, s.raft_applied_index)
    ∷ (ConsistencyType.raft_index, s.raft_index)
    ∷ [])

unfoldable pub metadata_v2 : Result Node → Result Metadata
metadata_v2 (err e) = err e
metadata_v2 (ok n) = ok (
    (ConsistencyType.index, n.index)
    ∷ (ConsistencyType.raft_applied_index, 0)
    ∷ (ConsistencyType.raft_index, 0)
    ∷ [])

unfoldable pub total_v2 : Result Node → Result ℕ
total_v2 (err e) = err e
total_v2 (ok n) = ok (length n.nodes)

module _ {W K Client2 Client3 : Type 0} (lib : EtcdLibrary W K Client2 Client3)
    (calls : StatCalls W Client2 Client3) where
  unfoldable pub stat_v3 : Client3 → Stat W
  unfolding metadata_v3
  stat_v3 cli = record {
    get_total_key_num = λ prefix. calls.count_v3 cli prefix;
    get_index = λ endpoint. calls.status_v3 cli endpoint >>= λ r. pure (metadata_v3 r);
    close = calls.close_v3 cli;
  }

  unfoldable pub stat_v2 : Client2 → Stat W
  unfolding metadata_v2 total_v2
  stat_v2 cli = record {
    get_total_key_num = λ prefix. calls.get_v2 cli prefix >>= λ r. pure (total_v2 r);
    get_index = λ endpoint. calls.get_v2 cli [] >>= λ r. pure (metadata_v2 r);
    close = pure tt;
  }

  unfoldable pub made_v3 : Result Client3 → Result (Stat W)
  unfolding stat_v3
  made_v3 (err e) = err e
  made_v3 (ok cli) = ok (stat_v3 cli)

  unfoldable pub made_v2 : Result Client2 → Result (Stat W)
  unfolding stat_v2
  made_v2 (err e) = err e
  made_v2 (ok cli) = ok (stat_v2 cli)

  -- NewEtcdStatBackend with Init; the configuration comes back with its defaults.
  unfoldable pub new_etcd_stat_backend : Text → ClientConfig → Go W (ClientConfig × Result (Stat W))
  unfolding made_v3 made_v2 new_client_v3 new_short_connection_client_v2
  new_etcd_stat_backend backend config =
      if text_eq backend (text "v2")
      then (do (c, cli) ← new_short_connection_client_v2 lib config; pure (c, made_v2 cli))
      else if text_eq backend (text "v3")
      then (do (c, cli) ← new_client_v3 lib config; pure (c, made_v3 cli))
      else pure (config, err (new_error (text "invalid storageBackend")))
