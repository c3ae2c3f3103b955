-- ===== src/Members/Urls.antt =====
-- populateExtensionCientURLMap: the annotation extClientURL as a list of pairs.
use kstone.Base.{
  ◌≡◌, refl, ap, ◌∙◌, Bool, true, false, ◌&&◌, none, some, List, [], ◌∷◌, ◌++◌, map, all, arith,
  &&-true,
}
use kstone.Base.Text.{Text, text, text_eq, split2, join, text_eq_ne}
use kstone.Base.Split.{is_free, split-join, is_free-append}
use kstone.Base.Dict.{Dict, insert}
use kstone.Members.{populate_items, populate_extension_client_url_map}

split2-free : (s : Text) → is_free b'>' s ≡ true → split2 b'-' b'>' s ≡ s ∷ []
unfolding split2 is_free
split2-free [] h = refl
split2-free (a ∷ []) h = refl
split2-free (a ∷ b ∷ s) h = ground (arith, split2-free (b ∷ s))

split2-append :
    (w s : Text)
    → is_free b'>' w ≡ true
    → split2 b'-' b'>' (w ++ b'-' ∷ b'>' ∷ s) ≡ w ∷ split2 b'-' b'>' s
unfolding split2 is_free
split2-append [] s h = refl
split2-append (a ∷ []) s h = ground arith
split2-append (a ∷ b ∷ w) s h = ground (arith, split2-append (b ∷ w) s)

abbrev pub render : Text × Text → Text
render (from, to) = from ++ b'-' ∷ b'>' ∷ to

-- Neither side holds the `>` of an arrow or a comma.
abbrev pub is_plain : Text × Text → Bool
is_plain (from, to) =
    (is_free b'>' from && is_free b'>' to) && (is_free b',' from && is_free b',' to)

-- The pairs are written in order, so the last of one name wins.
abbrev pub entries : List (Text × Text) → Dict Text → Dict Text
entries [] urls = urls
entries ((from, to) ∷ ps) urls = entries ps (insert from to urls)

populate-render :
    (ps : List (Text × Text)) (urls : Dict Text)
    → all is_plain ps ≡ true
    → populate_items (map render ps) urls ≡ (some (entries ps urls), none)
unfolding populate_items
populate-render [] urls h = refl
populate-render ((from, to) ∷ ps) urls h =
    let (p, q) = &&-true (is_plain (from, to)) (all is_plain ps) h in
    let (arrows, commas) = &&-true _ (is_free b',' from && is_free b',' to) p in
    let (f, t) = &&-true (is_free b'>' from) (is_free b'>' to) arrows in
    let e = split2-append from to f ∙ ap (λ ws. from ∷ ws) (split2-free to t) in
    rw (e, populate_items) (populate-render ps (insert from to urls) q)

render-free : (p : Text × Text) → is_plain p ≡ true → is_free b',' (render p) ≡ true
render-free (from, to) h =
    let (arrows, commas) = &&-true _ (is_free b',' from && is_free b',' to) h in
    let (f, t) = &&-true (is_free b',' from) (is_free b',' to) commas in
    is_free-append b',' from (b'-' ∷ b'>' ∷ to) f (unfold is_free in t)

renders-free :
    (ps : List (Text × Text)) → all is_plain ps ≡ true → all (is_free b',') (map render ps) ≡ true
renders-free [] h = refl
renders-free (p ∷ ps) h =
    rw (render-free p (&&-true (is_plain p) _ h).0) (renders-free ps (&&-true (is_plain p) _ h).1)

join-ne-nil :
    (p : Text × Text) (ps : List (Text × Text))
    → text_eq (join (text ",") (map render (p ∷ ps))) [] ≡ false
unfolding join
join-ne-nil ([], to) [] = text_eq_ne _ _ (λ e. cc)
join-ne-nil (a ∷ from, to) [] = text_eq_ne _ _ (λ e. cc)
join-ne-nil ([], to) (q ∷ ps) = text_eq_ne _ _ (λ e. cc)
join-ne-nil (a ∷ from, to) (q ∷ ps) = text_eq_ne _ _ (λ e. cc)

-- Reading back a non-empty list of pairs written as `from->to`, with commas between, gives the map
-- of these pairs and no error, if no side holds a `>` or a comma.
pub populate-join :
    (p : Text × Text) (ps : List (Text × Text))
    → all is_plain (p ∷ ps) ≡ true
    → populate_extension_client_url_map (join (text ",") (map render (p ∷ ps)))
      ≡ (some (entries (p ∷ ps) []), none)
unfolding populate_extension_client_url_map
populate-join p ps h =
    rw (join-ne-nil p ps, split-join b',' (render p) (map render ps) (renders-free (p ∷ ps) h))
      (populate-render (p ∷ ps) [] h)
