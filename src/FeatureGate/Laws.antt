-- ===== src/FeatureGate/Laws.antt =====
-- What is written into the annotation featureGates is what the gates say.
use kstone.Base.{
  ◌≡◌, refl, Bool, true, false, ◌&&◌, ◌||◌, some, List, [], ◌∷◌, ◌++◌, map, if◌then◌else◌, any, all,
  arith, &&-true,
}
use kstone.Base.Text.{Text, text, text_eq, split, join, text_eq_ne}
use kstone.Base.Split.{is_free, split-free, split-append, split-join, is_free-append}
use kstone.Base.Dict.{Dict, find}
use kstone.FeatureGate.{
  feature_anno, parse_bool, item_enabled, items_enabled, is_feature_gate_enabled,
}

-- A gate as the docs write it, `name=true`.
abbrev pub format_bool : Bool → Text
format_bool true = text "true"
format_bool false = text "false"

abbrev pub render : Text × Bool → Text
render (name, b) = name ++ b'=' ∷ format_bool b

-- The name of a feature has neither of the two separators.
abbrev pub is_name : Text × Bool → Bool
is_name (name, b) = is_free b'=' name && is_free b',' name

abbrev pub says : Text → Text × Bool → Bool
says name (feature, b) = text_eq feature name && b

parse_bool-format_bool : (b : Bool) → parse_bool (format_bool b) ≡ b
unfolding parse_bool text_eq
parse_bool-format_bool true = refl
parse_bool-format_bool false = refl

format_bool-free :
    (b : Bool) → (is_free b'=' (format_bool b) ≡ true) × (is_free b',' (format_bool b) ≡ true)
unfolding is_free
format_bool-free true = (refl, refl)
format_bool-free false = (refl, refl)

if-or : (a b : Bool) → (if a then true else b) ≡ (a || b)
if-or a b = ground arith

join-ne-nil :
    (g : Text × Bool) (gs : List (Text × Bool))
    → text_eq (join (text ",") (map render (g ∷ gs))) [] ≡ false
unfolding join
join-ne-nil ([], b) [] = text_eq_ne _ _ (λ e. cc)
join-ne-nil (a ∷ name, b) [] = text_eq_ne _ _ (λ e. cc)
join-ne-nil ([], b) (g ∷ gs) = text_eq_ne _ _ (λ e. cc)
join-ne-nil (a ∷ name, b) (g ∷ gs) = text_eq_ne _ _ (λ e. cc)

render-free : (g : Text × Bool) → is_name g ≡ true → is_free b',' (render g) ≡ true
render-free (name, b) h =
    is_free-append b',' name (b'=' ∷ format_bool b) (&&-true _ _ h).1
      (unfold is_free in (format_bool-free b).1)

renders-free :
    (g : Text × Bool) (gs : List (Text × Bool))
    → all is_name (g ∷ gs) ≡ true
    → all (is_free b',') (map render (g ∷ gs)) ≡ true
renders-free g [] h = rw (render-free g (&&-true _ _ h).0)
renders-free g (k ∷ gs) h =
    rw (render-free g (&&-true (is_name g) _ h).0) (renders-free k gs (&&-true (is_name g) _ h).1)

item_enabled-render :
    (name : Text) (g : Text × Bool)
    → is_name g ≡ true
    → item_enabled name (split b'=' (render g)) ≡ says name g
unfolding item_enabled
item_enabled-render name (feature, b) h = rw (
  split-append b'=' feature (format_bool b) (&&-true _ _ h).0,
  split-free b'=' (format_bool b) (format_bool-free b).0,
  parse_bool-format_bool b,
)

items_enabled-render :
    (name : Text) (gs : List (Text × Bool))
    → all is_name gs ≡ true
    → items_enabled name (map render gs) ≡ any (says name) gs
unfolding items_enabled
items_enabled-render name [] h = refl
items_enabled-render name (g ∷ gs) h =
    let (hg, hgs) = &&-true (is_name g) (all is_name gs) h in
    rw (item_enabled-render name g hg, items_enabled-render name gs hgs)
      (if-or (says name g) (any (says name) gs))

-- A gate is enabled exactly when the list that was rendered into the annotation has an entry of
-- that name with the value true, if no feature name holds a comma or an equals sign.
pub gates_roundtrip :
    (annotations : Dict Text) (name : Text) (g : Text × Bool) (gs : List (Text × Bool))
    → find feature_anno (some annotations) ≡ some (join (text ",") (map render (g ∷ gs)))
    → all is_name (g ∷ gs) ≡ true
    → is_feature_gate_enabled (some annotations) name ≡ any (says name) (g ∷ gs)
unfolding is_feature_gate_enabled
gates_roundtrip annotations name g gs found names =
    rw (found, is_feature_gate_enabled)
      (rw (
        join-ne-nil g gs,
        split-join b',' (render g) (map render gs) (renders-free g gs names),
        items_enabled-render name (g ∷ gs) names,
      ))
