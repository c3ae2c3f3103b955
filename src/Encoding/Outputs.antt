-- ===== src/Encoding/Outputs.antt =====
-- What ConvertToData of pkg/etcd/encoding.go answers, and how it takes what DetectAndExtract found.
use kstone.Base.{
  ◌≡◌, ◌≢◌, ◌⊎◌, inl, inr, refl, sym, subst, Bool, true, false, some, [], ◌∷◌, ◌++◌, ◌&&◌, length,
  arith, ltb, Bool-cases,
}
use kstone.Base.Text.{Text, text, text_eq, text_eq_refl, text_eq_sound, text_eq_ne, has_prefix}
use kstone.Base.Dict.{Dict, insert, lookup}
use kstone.Interfaces.{Result, ok, err}
use kstone.Interfaces.Results.{◌>>=◌, >>=-eq-ok}
use kstone.Encoding.Search.{take, drop}
use kstone.Encoding.{
  Serializers, storage_binary_media_type, yaml_media_type, json_media_type, proto_encoding_prefix,
  detect_and_extract,
}
use kstone.Encoding.Detect.{is_proto, Detected, binary, json, neither, detect_and_extract-Detected}
use kstone.Encoding.Convert.{
  decode_unknown, type_meta_from_binary_storage, decode_type_meta, same_type, encoded, convert_to,
  convert_all, convert_to_data, type_name, unsupported_type,
}

take_proto :
    (t : Text)
    → is_proto t ≡ true
    → (text_eq (take 4 t) proto_encoding_prefix ≡ true) × (ltb (length t) 4 ≡ false)
unfolding has_prefix take text_eq
take_proto [] h = absurd (ground arith)
take_proto (a ∷ []) h = absurd (ground arith)
take_proto (a ∷ b ∷ []) h = absurd (ground arith)
take_proto (a ∷ b ∷ c ∷ []) h = absurd (ground arith)
take_proto (a ∷ b ∷ c ∷ d ∷ t) h = ground arith

ok_pair :
    {a b c d : Text} → ◌≡◌ {A = Result (Text × Text)} (ok (a, b)) (ok (c, d)) → (a ≡ c) × (b ≡ d)
ok_pair e = (cc, cc)

and_false : (b : Bool) → (b && false) ≡ false
and_false b = ground arith

json_not_binary : text_eq json_media_type storage_binary_media_type ≡ false
unfolding text_eq
json_not_binary = refl

unless_equal : {P : Type 0} (a b : Text) → (a ≡ b → P) → (a ≢ b) ⊎ P
unless_equal a b f = elim (Bool-cases (text_eq a b)) [
  | inl e ↦ inr (f (text_eq_sound a b e))
  | inr e ↦ inl (λ p. absurd (let k = text_eq_refl b in cc))
]

module _ {Meta Info Version Codec Object : Type 0}
    (lib : Serializers Meta Info Version Codec Object) where
  decode_unknown-proto :
      (t : Text) → is_proto t ≡ true → decode_unknown lib t ≡ lib.unmarshal_unknown (drop 4 t)
  unfolding decode_unknown
  decode_unknown-proto t h = let (p, q) = take_proto t h in rw (q, p) refl

  decode_type_meta-binary :
      (t : Text)
      → is_proto t ≡ true
      → decode_type_meta lib storage_binary_media_type t
        ≡ (lib.unmarshal_unknown (drop 4 t) >>= λ u. ok u.1)
  unfolding decode_type_meta type_meta_from_binary_storage text_eq
  decode_type_meta-binary t h = rw (decode_unknown-proto t h) refl

  decode_type_meta-json : (t : Text) → decode_type_meta lib json_media_type t ≡ lib.json_meta t
  unfolding decode_type_meta text_eq
  decode_type_meta-json t = refl

  abbrev Read : Text → Text → Type 0
  Read media t = decode_type_meta lib media t ≡ (lib.unmarshal_unknown (drop 4 t) >>= λ u. ok u.1)

  -- Where a result stands for the meta data of what was found.
  abbrev Taken : Text → Text → Type 0
  Taken media t =
      ((media ≡ storage_binary_media_type)
        × (decode_type_meta lib media t ≡ (lib.unmarshal_unknown (drop 4 t) >>= λ u. ok u.1)))
      ⊎ ((media ≡ json_media_type) × (decode_type_meta lib media t ≡ lib.json_meta t))

  -- What DetectAndExtract extracts has a type that decodeTypeMeta knows: from binary data it reads
  -- the envelope behind the four bytes of the prefix, with no error about the prefix, and from JSON
  -- the fields of the object.
  pub detected-decode_type_meta :
      (s media t : Text)
      → detect_and_extract lib s ≡ some (ok (media, t))
      → ((media ≡ storage_binary_media_type)
          × (decode_type_meta lib media t ≡ (lib.unmarshal_unknown (drop 4 t) >>= λ u. ok u.1)))
        ⊎ ((media ≡ json_media_type) × (decode_type_meta lib media t ≡ lib.json_meta t))
  detected-decode_type_meta s media t h =
      let (r, e, d) = detect_and_extract-Detected lib s in of r d (ground (arith, e, h))
    where
      of : (r : Result (Text × Text)) → Detected lib s r → r ≡ ok (media, t) → Taken media t
      of (ok _) (binary pre u e q n) k =
          let (m, v) = ok_pair k in
          inl (
            sym m,
            subst (λ z. Read z t) m
                (subst (λ z. Read storage_binary_media_type z) v (decode_type_meta-binary u q)),
          )
      of (ok _) (json pre u js p e q r n) k =
          let (m, v) = ok_pair k in
          inr (
            sym m,
            subst (λ z. decode_type_meta lib z t ≡ lib.json_meta t) m (decode_type_meta-json t),
          )
      of (err _) (neither p n) k = cc

  -- A media type other than the three that decodeTypeMeta knows is an error, protobuf among them:
  -- the branches of the loop that name protobuf are never taken.
  pub convert_to_data_unsupported :
      (media s : Text)
      → media ≢ json_media_type
      → media ≢ yaml_media_type
      → media ≢ storage_binary_media_type
      → convert_to_data lib media s ≡ err (unsupported_type media)
  unfolding convert_to_data convert_all convert_to decode_type_meta
  convert_to_data_unsupported media s j y b =
      rw
        (
          text_eq_ne media json_media_type j,
          text_eq_ne media yaml_media_type y,
          text_eq_ne media storage_binary_media_type b,
          json_not_binary,
          and_false,
        )
        refl

  stored :
      (j y : Text)
      → insert (type_name yaml_media_type) y (insert (type_name json_media_type) j [])
        ≡ (text "json", j) ∷ (text "yaml", y) ∷ []
  unfolding insert lookup text_eq
  stored j y = refl

  convert_to-same_json :
      (s j : Text) → convert_to lib json_media_type s json_media_type ≡ ok j → j ≡ s ++ 10 ∷ []
  unfolding convert_to encoded same_type decode_type_meta text_eq
  convert_to-same_json s j h = let (meta, p, q) = >>=-eq-ok (lib.json_meta s) _ h in cc

  convert_to-same_yaml :
      (s y : Text) → convert_to lib yaml_media_type s yaml_media_type ≡ ok y → y ≡ s
  unfolding convert_to encoded same_type decode_type_meta text_eq
  convert_to-same_yaml s y h = let (meta, p, q) = >>=-eq-ok (lib.yaml_meta s) _ h in cc

  -- What ConvertToData answers without an error holds the two names json and yaml and no other,
  -- each with what its round of the loop gave; the input itself, with a line feed, is the JSON of a
  -- JSON input, and the input itself is the YAML of a YAML input.
  pub convert_to_data-outputs :
      (media s : Text) (m : Dict Text)
      → convert_to_data lib media s ≡ ok m
      → (j : Text) × (y : Text) × (m ≡ (text "json", j) ∷ (text "yaml", y) ∷ [])
        × (convert_to lib media s json_media_type ≡ ok j)
        × (convert_to lib media s yaml_media_type ≡ ok y)
        × ((media ≢ json_media_type) ⊎ (j ≡ s ++ 10 ∷ []))
        × ((media ≢ yaml_media_type) ⊎ (y ≡ s))
  unfolding convert_to_data convert_all
  convert_to_data-outputs media s m h =
      let (j, p, q) = >>=-eq-ok (convert_to lib media s json_media_type) _ h in
      let (y, r, t) = >>=-eq-ok (convert_to lib media s yaml_media_type) _ q in
      (
        j,
        y,
        (let k : ok m
                ≡ ok (
                    insert (type_name yaml_media_type) y
                      (insert (type_name json_media_type) j [])) =
              sym t in
            cc (k, stored j y)),
        p,
        r,
        unless_equal media json_media_type (λ e.
            convert_to-same_json s j (subst (λ z. convert_to lib z s json_media_type ≡ ok j) e p)),
        unless_equal media yaml_media_type (λ e.
            convert_to-same_yaml s y (subst (λ z. convert_to lib z s yaml_media_type ≡ ok y) e r)),
      )
