-- ===== src/Encoding.antt =====
-- pkg/etcd/encoding.go: Kubernetes objects as etcd stores them, their detection in a value and their
-- conversion. The serializers of apimachinery, encoding/json and the YAML decoder are parameters.
pub mod Search
pub mod Detect
pub mod Convert
pub mod Outputs
use kstone.Base.{
  ℕ, zero, suc, Bool, true, false, ◌&&◌, Option, none, some, List, [], ◌∷◌, ◌++◌, map, ltb,
  if◌then◌else◌, get_or, length,
}
use kstone.Base.Text.{Text, text, text_eq, has_prefix, join, cat}
use kstone.Base.Decimal.{itoa}
use kstone.Base.Dict.{Dict, lookup, insert}
use kstone.Base.Effect.{Error, new_error}
use kstone.Interfaces.{Result, ok, err}
use kstone.Interfaces.Results.{◌>>=◌, wrap_error}
use kstone.Encoding.Search.{index, index_any, drop, take}

abbrev pub storage_binary_media_type : Text
storage_binary_media_type = text "application/vnd.kubernetes.storagebinary"

abbrev pub protobuf_media_type : Text
protobuf_media_type = text "application/vnd.kubernetes.protobuf"

abbrev pub yaml_media_type : Text
yaml_media_type = text "application/yaml"

abbrev pub json_media_type : Text
json_media_type = text "application/json"

abbrev pub proto_encoding_prefix : Text
proto_encoding_prefix = 107 ∷ 56 ∷ 115 ∷ 0 ∷ []

abbrev pub media_type_list : List Text
media_type_list = json_media_type ∷ yaml_media_type ∷ []

abbrev pub media_type_map : Dict Text
media_type_map =
    (text "raw", storage_binary_media_type)
    ∷ (text "proto", protobuf_media_type)
    ∷ (text "yaml", yaml_media_type)
    ∷ (text "json", json_media_type)
    ∷ (storage_binary_media_type, text "raw")
    ∷ (protobuf_media_type, text "proto")
    ∷ (yaml_media_type, text "yaml")
    ∷ (json_media_type, text "json")
    ∷ []

-- json.Unmarshal into a RawMessage, and into a TypeMeta; the protobuf envelope Unknown with its
-- Raw and its TypeMeta; the serializers and the codecs that they make for a group and version.
pub record Serializers (Meta Info Version Codec Object : Type 0) : Type 0 where
  pub raw_message : Text → Result Text
  pub json_meta : Text → Result Meta
  pub yaml_meta : Text → Result Meta
  pub unmarshal_unknown : Text → Result (Text × Meta)
  pub supported : List Info
  pub info_for_media_type : Text → Option Info
  pub api_version : Meta → Text
  pub parse_group_version : Text → Result Version
  pub codec_for : Info → Version → Codec
  pub decode : Codec → Text → Result Object
  pub encode : Codec → Object → Result Text
  pub universal_decode : Text → Result Object
  pub json_encode : Object → Result Text

-- The verb %v on bytes.
unfoldable pub show_bytes : Text → Text
show_bytes s = cat (text "[" ∷ join (text " ") (map itoa s) ∷ text "]" ∷ [])

-- in[i:] at the first occurrence of the prefix.
unfoldable pub found_proto : Text → Option ℕ → Option Text
found_proto s none = none
found_proto s (some i) = if ltb i (length s) then some (drop i s) else none

unfoldable pub try_find_proto : Text → Option Text
unfolding found_proto
try_find_proto s = found_proto s (index s proto_encoding_prefix)

abbrev pub json_start_chars : Text
json_start_chars = text "{["

-- What follows the try at a candidate, with the rest of the loop.
unfoldable pub unmarshalled : Result Text → Option (Option Text) → Option (Option Text)
unmarshalled (ok js) rest = some (some js)
unmarshalled (err e) rest = rest

abbrev pub not_detected : Error
not_detected =
    new_error (text "error reading input, does not appear to contain valid JSON or binary data")

-- RawMessage.MarshalJSON answers the message.
unfoldable pub detected : Option Text → Option (Option Text) → Option (Result (Text × Text))
detected (some pb) js = some (ok (storage_binary_media_type, pb))
detected none none = none
detected none (some (some js)) = some (ok (json_media_type, js))
detected none (some none) = some (err not_detected)

module _ {Meta Info Version Codec Object : Type 0}
    (lib : Serializers Meta Info Version Codec Object) where
  -- The loop of tryFindJSON on fuel; the outer `none` is fuel that ran out.
  unfoldable pub json_loop : ℕ → Text → Option ℕ → Option (Option Text)
  unfolding unmarshalled
  json_loop zero s i = none
  json_loop (suc f) s none = some none
  json_loop (suc f) s (some i) =
      let t = drop i s in
      let rest = json_loop f (drop 1 t) (index_any (drop 1 t) json_start_chars) in
      if ltb i (length s)
      then (if ltb (length t) 2 then some none else unmarshalled (lib.raw_message t) rest)
      else some none

  unfoldable pub try_find_json : Text → Option (Option Text)
  unfolding json_loop
  try_find_json s = json_loop (suc (length s)) s (index_any s json_start_chars)

  unfoldable pub detect_and_extract : Text → Option (Result (Text × Text))
  unfolding detected try_find_proto try_find_json
  detect_and_extract s = detected (try_find_proto s) (try_find_json s)
