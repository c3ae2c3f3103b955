-- ===== src/FeatureGate.antt =====
-- pkg/featureprovider/util/util.go: the gates in the annotation featureGates.
pub mod Laws
use kstone.Base.{
  ◌≡◌, refl, Bool, true, false, ◌&&◌, ◌||◌, Option, none, some, List, [], ◌∷◌, if◌then◌else◌,
}
use kstone.Base.Text.{Text, text, text_eq, split}
use kstone.Base.Dict.{Dict, find}

abbrev pub feature_anno : Text
feature_anno = text "featureGates"

abbrev pub status_enabled : Text
status_enabled = text "enabled"

abbrev pub status_disabled : Text
status_disabled = text "disabled"

-- The value of strconv.ParseBool, which is false beside an error.
unfoldable pub parse_bool : Text → Bool
parse_bool s =
    text_eq s (text "1")
    || text_eq s (text "t")
    || text_eq s (text "T")
    || text_eq s (text "TRUE")
    || text_eq s (text "true")
    || text_eq s (text "True")

-- The body of the loop: an item that does not split in two at `=` is skipped.
unfoldable pub item_enabled : Text → List Text → Bool
item_enabled name (feature ∷ value ∷ []) = text_eq feature name && parse_bool value
item_enabled name _ = false

unfoldable pub items_enabled : Text → List Text → Bool
unfolding item_enabled
items_enabled name [] = false
items_enabled name (item ∷ items) =
    if item_enabled name (split b'=' item) then true else items_enabled name items

unfoldable pub is_feature_gate_enabled : Option (Dict Text) → Text → Bool
unfolding items_enabled
is_feature_gate_enabled annotations name = elim (find feature_anno annotations) [
  | none ↦ false
  | some gates ↦ if text_eq gates [] then false else items_enabled name (split b',' gates)
]
