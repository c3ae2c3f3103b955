-- ===== src/Inspection/AlarmValues.antt =====
-- The values of the alarm metric after CollectAlarmList of pkg/inspection/alarm.go went over the
-- members.
use kstone.Base.{
  ℕ, suc, ◌-◌, ◌≡◌, refl, ◌∙◌, Bool, true, false, ◌&&◌, ◌||◌, some, List, [], ◌∷◌, ◌++◌, any, arith,
  if◌then◌else◌,
}
use kstone.Base.Text.{Text, text_eq, text_eq_refl}
use kstone.Api.{MemberStatus}
use kstone.EtcdClient.{EtcdLibrary}
use kstone.Metrics.{Metric, Change, Entry, CollectorLaws}
use kstone.Inspection.Collect.{EtcdAlarm, Server, alarm_type_list, inspect_members}
use kstone.Metrics.Trace.{Clean}
use kstone.Inspection.Alarms.{alarm_entry, is_for, raised, cleaned, all_entries, all_made}

abbrev is_alarm : Metric → Bool
is_alarm Metric.etcd_endpoint_alarm = true
is_alarm _ = false

abbrev same_values : List Text → List Text → Bool
same_values [] [] = true
same_values (x ∷ xs) (y ∷ ys) = text_eq x y && same_values xs ys
same_values _ _ = false

abbrev applied : Change → ℕ → ℕ
applied (Change.set_to n) v = n
applied Change.increment v = suc v
applied Change.decrement v = v - 1

-- The value of the alarm metric with the labels, after the changes.
abbrev pub alarm_value : List Text → ℕ → List Entry → ℕ
alarm_value labels v [] = v
alarm_value labels v (e ∷ es) =
    alarm_value labels
      (if is_alarm e.metric && same_values e.values labels then applied e.change v else v) es

-- Some alarm of the type is for a member at the endpoint.
abbrev pub is_raised : Text → Text → List EtcdAlarm → MemberStatus → Bool
is_raised endpoint alarm alarms m =
    text_eq m.endpoint endpoint && any (λ a. is_for m a && text_eq a.alarm_type alarm) alarms

-- The value that the inspection leaves, where it was `v`.
abbrev pub inspected : Text → Text → ℕ → List EtcdAlarm → List MemberStatus → ℕ
inspected endpoint alarm v [] ms =
    if any (λ m. text_eq m.endpoint endpoint && any (λ t. text_eq t alarm) alarm_type_list) ms
    then 0
    else v
inspected endpoint alarm v (a ∷ alarms) ms =
    if any (is_raised endpoint alarm (a ∷ alarms)) ms then 1 else v

module _ (cluster endpoint alarm : Text) where
  abbrev labels : List Text
  labels = cluster ∷ endpoint ∷ alarm ∷ []

  value-append :
      (es fs : List Entry) (v : ℕ)
      → alarm_value labels v (es ++ fs) ≡ alarm_value labels (alarm_value labels v es) fs
  value-append [] fs v = refl
  value-append (e ∷ es) fs v = value-append es fs _

  value-entry :
      (ep t : Text) (n v : ℕ)
      → alarm_value labels v (alarm_entry cluster ep t n ∷ [])
        ≡ (if text_eq ep endpoint && text_eq t alarm then n else v)
  value-entry ep t n v = rw (text_eq_refl cluster) (ground arith)

  value-raised :
      (m : MemberStatus) (alarms : List EtcdAlarm) (v : ℕ)
      → alarm_value labels v (raised cluster m alarms)
        ≡ (if is_raised endpoint alarm alarms m then 1 else v)
  value-raised m [] v = ground arith
  value-raised m (a ∷ alarms) v = of (value-raised m alarms) (is_for m a)
    where
      of :
          ((v : ℕ)
            → alarm_value labels v (raised cluster m alarms)
              ≡ (if is_raised endpoint alarm alarms m then 1 else v))
          → (b : Bool)
          → alarm_value labels v (
              (if b then alarm_entry cluster m.endpoint a.alarm_type 1 ∷ [] else [])
              ++ raised cluster m alarms)
            ≡ (if text_eq m.endpoint endpoint
                  && ((b && text_eq a.alarm_type alarm)
                      || any (λ a. is_for m a && text_eq a.alarm_type alarm) alarms)
                then 1
                else v)
      of ih true =
          value-append (alarm_entry cluster m.endpoint a.alarm_type 1 ∷ [])
            (raised cluster m alarms) v
          ∙ ih _
          ∙ rw (value-entry m.endpoint a.alarm_type 1 v) (ground arith)
      of ih false = ih v

  value-cleaned :
      (ep : Text) (ts : List Text) (v : ℕ)
      → alarm_value labels v (cleaned cluster ep ts)
        ≡ (if text_eq ep endpoint && any (λ t. text_eq t alarm) ts then 0 else v)
  value-cleaned ep [] v = ground arith
  value-cleaned ep (t ∷ ts) v =
      value-append (alarm_entry cluster ep t 0 ∷ []) (cleaned cluster ep ts) v
      ∙ value-cleaned ep ts _
      ∙ rw (value-entry ep t 0 v) (ground arith)

  value-all :
      (alarms : List EtcdAlarm) (ms : List MemberStatus) (v : ℕ)
      → alarm_value labels v (all_entries cluster alarms ms) ≡ inspected endpoint alarm v alarms ms
  value-all [] [] v = refl
  value-all (a ∷ alarms) [] v = refl
  value-all [] (m ∷ ms) v =
      value-append (cleaned cluster m.endpoint alarm_type_list) (all_entries cluster [] ms) v
      ∙ value-all [] ms _
      ∙ rw (value-cleaned m.endpoint alarm_type_list v) (ground arith)
  value-all (a ∷ alarms) (m ∷ ms) v =
      value-append (raised cluster m (a ∷ alarms)) (all_entries cluster (a ∷ alarms) ms) v
      ∙ value-all (a ∷ alarms) ms _
      ∙ rw (value-raised m (a ∷ alarms) v) (ground arith)

module _ {W X K Client2 Client : Type 0} (lib : EtcdLibrary W K Client2 Client)
    (server : Server W X Client) {log : W → List Entry}
    (laws : CollectorLaws server.collector log) where
  -- The alarm metric after the members of a cluster were inspected: with no alarm in the cluster, it
  -- is 0 for each endpoint of a member and each of the two types; with some alarm, it is 1 for the
  -- endpoint and the type of each alarm of a member, and as before for all others, so that an alarm
  -- that is over stays until the cluster has none. The
  -- name of the cluster, the endpoints and the types of the alarms are UTF-8. A change with the labels
  -- of its metric, in UTF-8, is made.
  pub inspect_members-inspected :
      (cluster : Text) (alarms : List EtcdAlarm) (ms : List MemberStatus) (w : W)
      → Clean (all_entries cluster alarms ms)
      → (w' : W) × (es : List Entry) × (inspect_members lib server cluster alarms ms w
          ≡ some (tt, w'))
        × (log w' ≡ log w ++ es)
        × ((endpoint alarm : Text) (v : ℕ)
            → alarm_value (cluster ∷ endpoint ∷ alarm ∷ []) v es
              ≡ inspected endpoint alarm v alarms ms)
  inspect_members-inspected cluster alarms ms w c =
      let (w', p, q) = all_made lib server laws cluster alarms ms w c in
      (
        w',
        all_entries cluster alarms ms,
        p,
        q,
        λ endpoint alarm v. value-all cluster endpoint alarm alarms ms v,
      )
