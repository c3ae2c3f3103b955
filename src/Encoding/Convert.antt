-- ===== src/Encoding/Convert.antt =====
-- pkg/etcd/encoding.go: the decoding of the envelope, and the conversions to YAML and to JSON.
use kstone.Base.{◌&&◌, Option, none, some, List, [], ◌∷◌, ◌++◌, ltb, if◌then◌else◌, get_or, length}
use kstone.Base.Text.{Text, text, text_eq, cat}
use kstone.Base.Dict.{Dict, lookup, insert}
use kstone.Base.Effect.{Error, new_error}
use kstone.Interfaces.{Result, ok, err}
use kstone.Interfaces.Results.{◌>>=◌, wrap_error}
use kstone.Encoding.Search.{take, drop}
use kstone.Encoding.{
  Serializers, storage_binary_media_type, protobuf_media_type, yaml_media_type, json_media_type,
  proto_encoding_prefix, media_type_list, media_type_map, show_bytes,
}

abbrev pub too_short : Text → Error
too_short s =
    new_error
      (text "input too short, expected 4 byte proto encoding prefix but got " ++ show_bytes s)

abbrev pub bad_prefix : Text → Error
bad_prefix s = new_error (
    cat (
      text "first 4 bytes "
      ∷ show_bytes (take 4 s)
      ∷ text ", do not match proto encoding prefix of "
      ∷ show_bytes proto_encoding_prefix
      ∷ []))

abbrev pub unsupported_type : Text → Error
unsupported_type media = new_error (text "unsupported inMediaType " ++ media)

abbrev pub unsupported_conversion : Error
unsupported_conversion =
    new_error (text "unsupported conversion: protobuf to kubernetes binary storage representation")

abbrev pub type_name : Text → Text
type_name media = get_or (lookup media media_type_map) []

module _ {Meta Info Version Codec Object : Type 0}
    (lib : Serializers Meta Info Version Codec Object) where
  unfoldable pub decode_unknown : Text → Result (Text × Meta)
  decode_unknown s =
      if ltb (length s) 4
      then err (too_short s)
      else if text_eq (take 4 s) proto_encoding_prefix
      then lib.unmarshal_unknown (drop 4 s)
      else err (bad_prefix s)

  unfoldable pub raw_of : Result (Text × Meta) → Text
  raw_of (ok u) = u.0
  raw_of (err e) = []

  unfoldable pub decode_raw_to_string : Text → Text
  unfolding raw_of decode_unknown
  decode_raw_to_string s = raw_of (decode_unknown s)

  unfoldable pub type_meta_from_binary_storage : Text → Result Meta
  unfolding decode_unknown
  type_meta_from_binary_storage s = do u ← decode_unknown s; ok u.1

  unfoldable pub decode_type_meta : Text → Text → Result Meta
  unfolding type_meta_from_binary_storage
  decode_type_meta media s =
      if text_eq media json_media_type
      then lib.json_meta s
      else if text_eq media storage_binary_media_type
      then type_meta_from_binary_storage s
      else if text_eq media yaml_media_type
      then lib.yaml_meta s
      else err (unsupported_type media)

  -- The first of the supported serializers stands in for one that is missing.
  unfoldable pub serializer_info : Option Info → List Info → Result Info
  serializer_info (some info) all = ok info
  serializer_info none [] = err (new_error (text "no serializers registered for []"))
  serializer_info none (info ∷ all) = ok info

  abbrev pub bad_version : Meta → Error → Error
  bad_version meta e = new_error (
      cat (
        text "unable to parse meta APIVersion '"
        ∷ lib.api_version meta
        ∷ text "': "
        ∷ e.message
        ∷ []))

  unfoldable pub new_codec : Meta → Text → Result Codec
  unfolding serializer_info
  new_codec meta media = do
    let m = if text_eq media storage_binary_media_type then protobuf_media_type else media
    info ← serializer_info (lib.info_for_media_type m) lib.supported
    gv ← wrap_error (bad_version meta) (lib.parse_group_version (lib.api_version meta))
    ok (lib.codec_for info gv)

  unfoldable pub same_type : Text → Text → Text
  same_type out s = if text_eq out json_media_type then s ++ 10 ∷ [] else s

  abbrev pub conversion_error : Text → Text → Error → Error
  conversion_error what media e =
      new_error (cat (text "error " ∷ what ∷ media ∷ text ": " ∷ e.message ∷ []))

  unfoldable pub transcode : Text → Text → Meta → Text → Result Text
  unfolding new_codec
  transcode media out meta s = do
    in_codec ← new_codec meta media
    out_codec ← new_codec meta out
    obj ← wrap_error (conversion_error (text "decoding from ") media) (lib.decode in_codec s)
    wrap_error (conversion_error (text "encoding to ") out) (lib.encode out_codec obj)

  unfoldable pub encoded : Text → Text → Text → Meta → Result Text
  unfolding same_type transcode
  encoded media out s meta =
      if text_eq media out then ok (same_type out s) else transcode media out meta s

  -- One round of the loop: what is stored under the name of the type `out`.
  unfoldable pub convert_to : Text → Text → Text → Result Text
  unfolding encoded decode_type_meta decode_raw_to_string
  convert_to media s out =
      if text_eq media storage_binary_media_type && text_eq out protobuf_media_type
      then ok (decode_raw_to_string s)
      else if text_eq media protobuf_media_type && text_eq out storage_binary_media_type
      then err unsupported_conversion
      else decode_type_meta media s >>= encoded media out s

  unfoldable pub convert_all : Text → Text → List Text → Dict Text → Result (Dict Text)
  unfolding convert_to
  convert_all media s [] m = ok m
  convert_all media s (out ∷ outs) m = do
    v ← convert_to media s out
    convert_all media s outs (insert (type_name out) v m)

  unfoldable pub convert_to_data : Text → Text → Result (Dict Text)
  unfolding convert_all
  convert_to_data media s = convert_all media s media_type_list []

  unfoldable pub json_or_value : Text → Result Text → Text
  json_or_value value (ok js) = js
  json_or_value value (err e) = value

  unfoldable pub convert_to_json : Text → Text
  unfolding json_or_value
  convert_to_json value =
      json_or_value value (do obj ← lib.universal_decode value; lib.json_encode obj)
