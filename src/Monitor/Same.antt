-- ===== src/Monitor/Same.antt =====
-- What ServiceMonitorIsEquivalent of pkg/monitor/prometheus.go says of two objects.
use kstone.Base.{◌≡◌, refl, ap, sym, Bool, true, false, Option, none, some, List, [], ◌∷◌, &&-true}
use kstone.Base.Text.{Text, text_eq, text_eq_sound}
use kstone.Base.Dict.{Dict, find, lookup, dict_eq, dict_eq-lookup}
use kstone.Monitor.{
  Relabel, MonitorTls, MonitorEndpoint, ServiceMonitor, list_eq, option_eq, bool_eq, labels_eq,
  relabel_eq, tls_eq, monitor_endpoint_eq, service_monitor_is_equivalent,
}

list_eq_sound :
    {A : Type 0} (eq : A → A → Bool)
    → ((x y : A) → eq x y ≡ true → x ≡ y)
    → (xs ys : List A) → list_eq eq xs ys ≡ true
    → xs ≡ ys
unfolding list_eq
list_eq_sound eq h [] [] e = refl
list_eq_sound eq h [] (y ∷ ys) e = absurd (cc)
list_eq_sound eq h (x ∷ xs) [] e = absurd (cc)
list_eq_sound eq h (x ∷ xs) (y ∷ ys) e =
    let (a, b) = &&-true (eq x y) (list_eq eq xs ys) e in cc (h x y a, list_eq_sound eq h xs ys b)

option_eq_sound :
    {A : Type 0} (eq : A → A → Bool)
    → ((x y : A) → eq x y ≡ true → x ≡ y)
    → (o p : Option A) → option_eq eq o p ≡ true
    → o ≡ p
unfolding option_eq
option_eq_sound eq h none none e = refl
option_eq_sound eq h none (some y) e = absurd (cc)
option_eq_sound eq h (some x) none e = absurd (cc)
option_eq_sound eq h (some x) (some y) e = ap some (h x y e)

bool_eq_sound : (a b : Bool) → bool_eq a b ≡ true → a ≡ b
unfolding bool_eq
bool_eq_sound true b e = sym e
bool_eq_sound false true e = absurd (cc)
bool_eq_sound false false e = refl

relabel_eq_sound : (r s : Relabel) → relabel_eq r s ≡ true → r ≡ s
relabel_eq_sound r s e =
    let (a, e₁) = &&-true (text_eq r.action s.action) _ e in
    let (b, e₂) = &&-true (text_eq r.regex s.regex) _ e₁ in
    let (c, e₃) = &&-true (text_eq r.replacement s.replacement) _ e₂ in
    let (d, f) = &&-true (list_eq text_eq r.source_labels s.source_labels) _ e₃ in
    λ i. record {
      action = text_eq_sound r.action s.action a i;
      regex = text_eq_sound r.regex s.regex b i;
      replacement = text_eq_sound r.replacement s.replacement c i;
      source_labels = list_eq_sound text_eq text_eq_sound r.source_labels s.source_labels d i;
      target_label = text_eq_sound r.target_label s.target_label f i;
    }

tls_eq_sound : (r s : MonitorTls) → tls_eq r s ≡ true → r ≡ s
tls_eq_sound r s e =
    let (a, e₁) = &&-true (text_eq r.secret_name s.secret_name) _ e in
    let (b, e₂) = &&-true (text_eq r.ca_key s.ca_key) _ e₁ in
    let (c, e₃) = &&-true (text_eq r.cert_key s.cert_key) _ e₂ in
    let (d, f) = &&-true (text_eq r.key_key s.key_key) _ e₃ in
    λ i. record {
      secret_name = text_eq_sound r.secret_name s.secret_name a i;
      ca_key = text_eq_sound r.ca_key s.ca_key b i;
      cert_key = text_eq_sound r.cert_key s.cert_key c i;
      key_key = text_eq_sound r.key_key s.key_key d i;
      insecure_skip_verify = bool_eq_sound r.insecure_skip_verify s.insecure_skip_verify f i;
    }

monitor_endpoint_eq_sound : (r s : MonitorEndpoint) → monitor_endpoint_eq r s ≡ true → r ≡ s
monitor_endpoint_eq_sound r s e =
    let (a, e₁) = &&-true (text_eq r.port s.port) _ e in
    let (b, e₂) = &&-true (text_eq r.scheme s.scheme) _ e₁ in
    let (c, e₃) = &&-true (text_eq r.interval s.interval) _ e₂ in
    let (d, f) = &&-true (list_eq relabel_eq r.relabels s.relabels) _ e₃ in
    λ i. record {
      port = text_eq_sound r.port s.port a i;
      scheme = text_eq_sound r.scheme s.scheme b i;
      interval = text_eq_sound r.interval s.interval c i;
      relabels = list_eq_sound relabel_eq relabel_eq_sound r.relabels s.relabels d i;
      tls = option_eq_sound tls_eq tls_eq_sound r.tls s.tls f i;
    }

-- Two monitors with the same Spec, and with labels that read the same.
pub record SameMonitor (s n : ServiceMonitor) : Type 0 where
  pub labels : (k : Text) → find k s.labels ≡ find k n.labels
  pub endpoints : s.endpoints ≡ n.endpoints
  pub match_names : s.match_names ≡ n.match_names
  pub match_labels : (k : Text) → lookup k s.match_labels ≡ lookup k n.match_labels
  pub rest : s.rest ≡ n.rest

labels_eq-find :
    (o p : Option (Dict Text)) → labels_eq o p ≡ true → (k : Text) → find k o ≡ find k p
unfolding option_eq
labels_eq-find none none e k = refl
labels_eq-find none (some n) e k = absurd (cc)
labels_eq-find (some m) none e k = absurd (cc)
labels_eq-find (some m) (some n) e k = dict_eq-lookup m n e k

-- The resource version is no part of the comparison.
pub versioned-SameMonitor :
    (n : ServiceMonitor) (v : Text) → SameMonitor (record n { resource_version = v }) n
versioned-SameMonitor n v = record {
  labels = λ k. refl;
  endpoints = refl;
  match_names = refl;
  match_labels = λ k. refl;
  rest = refl;
}

pub equivalent-SameMonitor :
    (s n : ServiceMonitor) → service_monitor_is_equivalent s n ≡ true → SameMonitor s n
unfolding service_monitor_is_equivalent
equivalent-SameMonitor s n e =
    let (a, e₁) = &&-true (labels_eq s.labels n.labels) _ e in
    let (b, e₂) = &&-true (option_eq (list_eq monitor_endpoint_eq) s.endpoints n.endpoints) _ e₁ in
    let (c, e₃) = &&-true (list_eq text_eq s.match_names n.match_names) _ e₂ in
    let (d, f) = &&-true (dict_eq s.match_labels n.match_labels) _ e₃ in
    record {
      labels = labels_eq-find s.labels n.labels a;
      endpoints =
          option_eq_sound (list_eq monitor_endpoint_eq)
            (list_eq_sound monitor_endpoint_eq monitor_endpoint_eq_sound) s.endpoints n.endpoints b;
      match_names = list_eq_sound text_eq text_eq_sound s.match_names n.match_names c;
      match_labels = dict_eq-lookup s.match_labels n.match_labels d;
      rest = text_eq_sound s.rest n.rest f;
    }
