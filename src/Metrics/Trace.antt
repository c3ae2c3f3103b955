-- ===== src/Metrics/Trace.antt =====
-- Computations that return and only add changes to the metrics of pkg/inspection/metrics.
use mathlib.Core.List.{append_assoc, append-nil}
use kstone.Base.{◌≡◌, refl, ap, sym, ◌∙◌, true, some, List, [], ◌∷◌, ◌++◌, all}
use kstone.Base.Text.{Text}
use kstone.Base.Dict.{Dict}
use kstone.Base.Utf8.{is_utf8}
use kstone.Base.Effect.{Go, pure, ◌>>=◌, >>=-some}
use kstone.Metrics.{Entry, Metric, Change, Collector, CollectorLaws, label_values}

-- The values of all labels are UTF-8.
abbrev pub Clean : List Entry → Type 0
Clean [] = Unit
Clean (e ∷ es) = (all is_utf8 e.values ≡ true) × Clean es

Clean-append : (es fs : List Entry) → Clean (es ++ fs) → Clean es × Clean fs
Clean-append [] fs c = (tt, c)
Clean-append (e ∷ es) fs (a, c) = let (x, y) = Clean-append es fs c in ((a, x), y)

module _ {W : Type 0} (log : W → List Entry) where
  -- The computation returns and makes these changes, if their labels are UTF-8.
  abbrev pub Adds : {A : Type 0} → Go W A → W → A → List Entry → Type 0
  Adds m w a es = Clean es → (w' : W) × (m w ≡ some (a, w')) × (log w' ≡ log w ++ es)

  pub returned : {A : Type 0} (a : A) (w : W) → Adds (pure a) w a []
  returned a w c = (w, refl, sym (append-nil (log w)))

  pub chain :
      {A B : Type 0} (m : Go W A) (f : A → Go W B) (w : W) (a : A) (b : B) (es fs : List Entry)
      → Adds m w a es
      → ((v : W) → Adds (f a) v b fs)
      → Adds (m >>= f) w b (es ++ fs)
  chain m f w a b es fs h k c =
      let (x, y) = Clean-append es fs c in
      let (w₁, p, q) = h x in
      let (w₂, r, s) = k w₁ y in
      (w₂, >>=-some f m p ∙ r, s ∙ ap (λ l. l ++ fs) q ∙ append_assoc (log w) es fs)

module _ {W : Type 0} {collector : Collector W} {log : W → List Entry}
    (laws : CollectorLaws collector log) where
  pub changed :
      (m : Metric) (labels : Dict Text) (values : List Text) (ch : Change) (w : W)
      → label_values m labels ≡ some values
      → Adds log
          (collector m labels ch)
          w
          tt
          (record { metric = m; values = values; change = ch } ∷ [])
  changed m labels values ch w h (c, u) = laws.made m labels values ch w h c
