-- ===== src/Encoding/Detect.antt =====
-- DetectAndExtract of pkg/etcd/encoding.go against what it looks for.
use mathlib.Core.List.{append_assoc}
use kstone.Base.{
  ℕ, zero, suc, ◌<◌, ◌≡◌, refl, ap, sym, ◌∙◌, subst, Bool, true, false, ◌&&◌, Option, none, some,
  [], ◌∷◌, ◌++◌, length, length-append, arith, ltb, leb, if◌then◌else◌,
}
use kstone.Base.Text.{Text, has_prefix}
use kstone.Interfaces.{Result, ok, err}
use kstone.Encoding.Search.{
  drop, index, index_any, starts_with_any, Fails, Never, FirstAt, nowhere, somewhere,
  first_at-FirstAt, Never-imp, Fails-imp, Never-append, Fails-append,
}
use kstone.Encoding.{
  Serializers, storage_binary_media_type, json_media_type, proto_encoding_prefix, json_start_chars,
  found_proto, try_find_proto, unmarshalled, json_loop, try_find_json, not_detected, detected,
  detect_and_extract,
}

abbrev pub is_proto : Text → Bool
is_proto t = has_prefix t proto_encoding_prefix

abbrev is_ok_text : Result Text → Bool
is_ok_text (ok t) = true
is_ok_text (err e) = false

module _ {Meta Info Version Codec Object : Type 0}
    (lib : Serializers Meta Info Version Codec Object) where
  -- An object or an array that encoding/json accepts as it stands, up to the end of the input.
  abbrev pub is_json : Text → Bool
  is_json t =
      starts_with_any json_start_chars t && (leb 2 (length t) && is_ok_text (lib.raw_message t))

  -- What tryFindJSON answers: the first suffix that is JSON, or that none is.
  pub data JsonFound (s : Text) : Option Text → Type 0 where
    no_json : Never is_json s → JsonFound s none
    json_at :
        (pre t js : Text)
        → s ≡ pre ++ t
        → is_json t ≡ true
        → lib.raw_message t ≡ ok js
        → Fails is_json pre t
        → JsonFound s (some js)

  not-is_json : (t : Text) → starts_with_any json_start_chars t ≡ false → is_json t ≡ false
  not-is_json t h = rw h refl

  short-Never : (t : Text) → ltb (length t) 2 ≡ true → Never is_json t
  short-Never [] h = tt
  short-Never (a ∷ []) h = (ground arith, tt)
  short-Never (a ∷ b ∷ t) h = absurd (ground arith)

  -- The answer on enough fuel.
  abbrev Loops : ℕ → Text → Option ℕ → Type 0
  Loops f s i = (o : Option Text) × (json_loop lib f s i ≡ some o) × JsonFound s o

  abbrev Starts : Text → Option ℕ → Type 0
  Starts s i = FirstAt (starts_with_any json_start_chars) s i

  -- One round: the first start is tried, and then the rest behind its first byte.
  module _ (f : ℕ) (s pre : Text) (a i : ℕ) (t : Text) (e : s ≡ pre ++ a ∷ t) (d : drop i s ≡ a ∷ t)
      (l : i < length s) (q : starts_with_any json_start_chars (a ∷ t) ≡ true)
      (n : Fails is_json pre (a ∷ t)) where
    abbrev round : Option (Option Text)
    round =
        if ltb (length (a ∷ t)) 2
        then some none
        else unmarshalled (lib.raw_message (a ∷ t))
            (json_loop lib f t (index_any t json_start_chars))

    json_loop-round : json_loop lib (suc f) s (some i) ≡ round
    unfolding json_loop drop
    json_loop-round = let k : ltb i (length s) ≡ true = ground arith in rw (k, d) refl

    behind : is_json (a ∷ t) ≡ false → (o : Option Text) → JsonFound t o → JsonFound s o
    behind x o (no_json m) =
        no_json (subst (Never is_json) (sym e) (Never-append is_json pre (a ∷ t) n (x, m)))
    behind x (some _) (json_at mid u js e' y r m) =
        json_at (pre ++ a ∷ mid) u js
          (e ∙ ap (λ z. pre ++ a ∷ z) e' ∙ sym (append_assoc pre (a ∷ mid) u)) y r
          (Fails-append is_json pre (a ∷ mid) u (subst (λ z. Fails is_json pre (a ∷ z)) e' n)
            (subst (λ z. is_json (a ∷ z) ≡ false) e' x, m))

    tried : Loops f t (index_any t json_start_chars) → Loops (suc f) s (some i)
    unfolding unmarshalled
    tried ih = short (ltb (length (a ∷ t)) 2) refl
      where
        read :
            ltb (length (a ∷ t)) 2 ≡ false
            → (r : Result Text) → lib.raw_message (a ∷ t) ≡ r
            → Loops (suc f) s (some i)
        read k (ok js) r = (
          some js,
          json_loop-round ∙ rw (k, r) refl,
          json_at pre (a ∷ t) js e (rw (q, r) (ground (arith, k))) r n,
        )
        read k (err x) r =
            let (o, p, j) = ih in
            (o, json_loop-round ∙ rw (k, r) p, behind (rw r (ground arith)) o j)

        short : (b : Bool) → ltb (length (a ∷ t)) 2 ≡ b → Loops (suc f) s (some i)
        short true k =
            let (x, m) = short-Never (a ∷ t) k in
            (none, json_loop-round ∙ rw k refl, behind x none (no_json m))
        short false k = read k (lib.raw_message (a ∷ t)) refl

  json_loop-Loops : (f : ℕ) (s : Text) → length s < f → Loops f s (index_any s json_start_chars)
  unfolding index_any json_loop
  json_loop-Loops zero s h = absurd (omega arith)
  json_loop-Loops (suc f) s h =
      at (json_loop-Loops f) _ (first_at-FirstAt (starts_with_any json_start_chars) s)
    where
      at :
          ((t : Text) → length t < f → Loops f t (index_any t json_start_chars))
          → (i : Option ℕ) → Starts s i
          → Loops (suc f) s i
      at ih none (nowhere n) = (
        none,
        refl,
        no_json (Never-imp (starts_with_any json_start_chars) is_json not-is_json s n),
      )
      at ih (some i) (somewhere pre [] _ e d l q n) = absurd (ground arith)
      at ih (some i) (somewhere pre (a ∷ t) _ e d l q n) =
          tried f s pre a i t e d l q
            (Fails-imp (starts_with_any json_start_chars) is_json not-is_json pre (a ∷ t) n)
            (ih t (let k = ap length e ∙ length-append pre (a ∷ t) in omega arith))

-- What tryFindProto answers: the first suffix with the prefix, or that there is none.
pub data ProtoFound (s : Text) : Option Text → Type 0 where
  no_proto : Never is_proto s → ProtoFound s none
  proto_at :
      (pre t : Text)
      → s ≡ pre ++ t
      → is_proto t ≡ true
      → Fails is_proto pre t
      → ProtoFound s (some t)

try_find_proto-ProtoFound : (s : Text) → ProtoFound s (try_find_proto s)
unfolding try_find_proto found_proto index
try_find_proto-ProtoFound s = at _ (first_at-FirstAt is_proto s)
  where
    at : (i : Option ℕ) → FirstAt is_proto s i → ProtoFound s (found_proto s i)
    at none (nowhere n) = no_proto n
    at (some i) (somewhere pre t _ e d l q n) =
        let k : ltb i (length s) ≡ true = ground arith in rw (k, d) (proto_at pre t e q n)

module _ {Meta Info Version Codec Object : Type 0}
    (lib : Serializers Meta Info Version Codec Object) where
  -- What DetectAndExtract answers.
  pub data Detected (s : Text) : Result (Text × Text) → Type 0 where
    binary :
        (pre t : Text)
        → s ≡ pre ++ t
        → is_proto t ≡ true
        → Fails is_proto pre t
        → Detected s (ok (storage_binary_media_type, t))
    json :
        (pre t js : Text)
        → Never is_proto s
        → s ≡ pre ++ t
        → is_json lib t ≡ true
        → lib.raw_message t ≡ ok js
        → Fails (is_json lib) pre t
        → Detected s (ok (json_media_type, js))
    neither : Never is_proto s → Never (is_json lib) s → Detected s (err not_detected)

  -- DetectAndExtract ends on every input, and answers the first suffix that starts with the protobuf
  -- prefix, or where no suffix does, the first that starts as an object or an array and that
  -- encoding/json accepts, or the error where no suffix is either.
  pub detect_and_extract-Detected :
      (s : Text) → (r : Result (Text × Text)) × (detect_and_extract lib s ≡ some r) × Detected s r
  unfolding detect_and_extract detected try_find_json
  detect_and_extract-Detected s =
      from (try_find_proto s) (try_find_proto-ProtoFound s)
        (json_loop-Loops lib (suc (length s)) s (omega arith))
    where
      from :
          (p : Option Text)
          → ProtoFound s p
          → (o : Option Text) × (json_loop lib (suc (length s)) s (index_any s json_start_chars)
              ≡ some o)
            × JsonFound lib s o
          → (r : Result (Text × Text)) × (detected p
                (json_loop lib (suc (length s)) s (index_any s json_start_chars))
              ≡ some r)
            × Detected s r
      from (some _) (proto_at pre t e q n) j =
          (ok (storage_binary_media_type, t), refl, binary pre t e q n)
      from none (no_proto n) (none, k, no_json m) = (err not_detected, rw k refl, neither n m)
      from none (no_proto n) (some _, k, json_at pre t js e y r m) =
          (ok (json_media_type, js), rw k refl, json pre t js n e y r m)
