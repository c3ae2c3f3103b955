-- ===== src/Router/Replies.antt =====
-- What EtcdKeyList of pkg/router/router.go answers for a value.
use kstone.Base.{◌≡◌, refl, true, some, [], if◌then◌else◌}
use kstone.Base.Text.{Text, text, text_eq}
use kstone.Base.Dict.{Dict, lookup, lookup-insert, lookup-insert_self}
use kstone.Base.Effect.{Error}
use kstone.Interfaces.{Result, ok, err}
use kstone.Encoding.{Serializers, detect_and_extract}
use kstone.Encoding.Convert.{convert_to_data, convert_to_json}
use kstone.Encoding.Detect.{detect_and_extract-Detected}
use kstone.Router.{converted, Reply, internal_error, with_json, converted_value, show_value}

module _ {Meta Info Version Codec Object O : Type 0}
    (codecs : Serializers Meta Info Version Codec Object) where
  -- The answer of EtcdKeyList for the value, by what is detected in it and what comes of that.
  pub data Shown (value : Text) (r : Reply O) : Type 0 where
    undetected :
        (e : Error)
        → detect_and_extract codecs value ≡ some (err e)
        → r ≡ internal_error e
        → Shown value r
    unconverted :
        (media s : Text) (e : Error) (d : Dict Text)
        → detect_and_extract codecs value ≡ some (ok (media, s))
        → convert_to_data codecs media s ≡ err e
        → r ≡ record { status = 200; body = converted e.message d }
        → lookup (text "json") d ≡ some (convert_to_json codecs value)
        → Shown value r
    shown :
        (media s : Text) (m d : Dict Text)
        → detect_and_extract codecs value ≡ some (ok (media, s))
        → convert_to_data codecs media s ≡ ok m
        → r ≡ record { status = 200; body = converted [] d }
        → ((k : Text)
            → lookup k d ≡ (
                if text_eq (text "json") k
                then some (convert_to_json codecs value)
                else lookup k m))
        → Shown value r

  -- For a value of a Kubernetes cluster EtcdKeyList always answers: 500 with the error of
  -- DetectAndExtract if that detects nothing, and else 200, with the message of the error if
  -- ConvertToData fails and with what it answers if not; under json stands what ConvertToJSON makes of
  -- the value, in both cases.
  pub show_value-Shown :
      (value : Text) → (r : Reply O) × (show_value codecs true value ≡ some r) × Shown value r
  unfolding show_value converted_value with_json
  show_value-Shown value = let (x, e, d) = detect_and_extract-Detected codecs value in rw e (of x e)
    where
      converted_to :
          (media s : Text)
          → detect_and_extract codecs value ≡ some (ok (media, s))
          → (c : Result (Dict Text)) → convert_to_data codecs media s ≡ c
          → Shown value (with_json (convert_to_json codecs value) c)
      converted_to media s e (err x) k =
          unconverted media s x _ e k refl
            (lookup-insert_self (text "json") (convert_to_json codecs value) [])
      converted_to media s e (ok m) k =
          shown media s m _ e k refl
            (λ j. lookup-insert (text "json") j (convert_to_json codecs value) m)

      of :
          (x : Result (Text × Text))
          → detect_and_extract codecs value ≡ some x
          → (r : Reply O) × (converted_value codecs value (some x) ≡ some r) × Shown value r
      of (err e) k = (internal_error e, refl, undetected e k refl)
      of (ok (media, s)) k = (
        with_json (convert_to_json codecs value) (convert_to_data codecs media s),
        refl,
        converted_to media s k (convert_to_data codecs media s) refl,
      )
