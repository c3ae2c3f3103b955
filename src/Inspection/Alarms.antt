-- ===== src/Inspection/Alarms.antt =====
-- What CollectAlarmList of pkg/inspection/alarm.go makes of the alarm metric.
use kstone.Base.{ℕ, ◌≡◌, refl, Bool, true, false, some, List, [], ◌∷◌, ◌++◌, if◌then◌else◌}
use kstone.Base.Text.{Text, text_eq}
use kstone.Base.Decimal.{itoa}
use kstone.Base.Dict.{lookup}
use kstone.Api.{MemberStatus}
use kstone.EtcdClient.{EtcdLibrary}
use kstone.Metrics.{Metric, Change, label_names, values_of, label_values, Entry, CollectorLaws}
use kstone.Metrics.Trace.{Adds, returned, chain, changed}
use kstone.Inspection.Collect.{
  EtcdAlarm, Server, alarm_type_list, alarm_labels, clean_types, clean_all_alarm_metrics,
  raise_alarm, member_alarms, inspect_member, inspect_members,
}

abbrev pub alarm_entry : Text → Text → Text → ℕ → Entry
alarm_entry cluster endpoint alarm v = record {
  metric = Metric.etcd_endpoint_alarm;
  values = cluster ∷ endpoint ∷ alarm ∷ [];
  change = Change.set_to v;
}

abbrev pub is_for : MemberStatus → EtcdAlarm → Bool
is_for m a = text_eq m.member_id (itoa a.member_id)

abbrev pub raised : Text → MemberStatus → List EtcdAlarm → List Entry
raised cluster m [] = []
raised cluster m (a ∷ alarms) =
    (if is_for m a then alarm_entry cluster m.endpoint a.alarm_type 1 ∷ [] else [])
    ++ raised cluster m alarms

abbrev pub cleaned : Text → Text → List Text → List Entry
cleaned cluster endpoint [] = []
cleaned cluster endpoint (t ∷ ts) = alarm_entry cluster endpoint t 0 ∷ cleaned cluster endpoint ts

abbrev pub member_entries : Text → List EtcdAlarm → MemberStatus → List Entry
member_entries cluster [] m = cleaned cluster m.endpoint alarm_type_list
member_entries cluster (a ∷ alarms) m = raised cluster m (a ∷ alarms)

abbrev pub all_entries : Text → List EtcdAlarm → List MemberStatus → List Entry
all_entries cluster alarms [] = []
all_entries cluster alarms (m ∷ ms) =
    member_entries cluster alarms m ++ all_entries cluster alarms ms

alarm_values :
    (cluster endpoint alarm : Text)
    → label_values Metric.etcd_endpoint_alarm (alarm_labels cluster endpoint alarm)
      ≡ some (cluster ∷ endpoint ∷ alarm ∷ [])
unfolding label_values label_names values_of lookup text_eq
alarm_values cluster endpoint alarm = refl

module _ {W X K Client2 Client : Type 0} (lib : EtcdLibrary W K Client2 Client)
    (server : Server W X Client) {log : W → List Entry} (laws : CollectorLaws server.collector log)
    (cluster : Text) where
  clean_made :
      (endpoint : Text) (ts : List Text) (w : W)
      → Adds log (clean_types lib server cluster endpoint ts) w tt (cleaned cluster endpoint ts)
  unfolding clean_types
  clean_made endpoint [] w = returned log tt w
  clean_made endpoint (t ∷ ts) w =
      chain log
        (server.collector Metric.etcd_endpoint_alarm (alarm_labels cluster endpoint t)
          (Change.set_to 0))
        (λ u. clean_types lib server cluster endpoint ts) w tt tt
        (alarm_entry cluster endpoint t 0 ∷ []) (cleaned cluster endpoint ts)
        (changed laws Metric.etcd_endpoint_alarm (alarm_labels cluster endpoint t) _
          (Change.set_to 0) w (alarm_values cluster endpoint t))
        (λ v. clean_made endpoint ts v)

  raise_made :
      (b : Bool) (m : MemberStatus) (a : EtcdAlarm) (w : W)
      → Adds log
          (raise_alarm lib server b cluster m a)
          w
          tt
          (if b then alarm_entry cluster m.endpoint a.alarm_type 1 ∷ [] else [])
  unfolding raise_alarm
  raise_made true m a w =
      changed laws Metric.etcd_endpoint_alarm (alarm_labels cluster m.endpoint a.alarm_type) _
        (Change.set_to 1) w (alarm_values cluster m.endpoint a.alarm_type)
  raise_made false m a w = returned log tt w

  member_made :
      (m : MemberStatus) (alarms : List EtcdAlarm) (w : W)
      → Adds log (member_alarms lib server cluster m alarms) w tt (raised cluster m alarms)
  unfolding member_alarms
  member_made m [] w = returned log tt w
  member_made m (a ∷ alarms) w =
      chain log (raise_alarm lib server (is_for m a) cluster m a)
        (λ u. member_alarms lib server cluster m alarms) w tt tt
        (if is_for m a then alarm_entry cluster m.endpoint a.alarm_type 1 ∷ [] else [])
        (raised cluster m alarms) (raise_made (is_for m a) m a w) (λ v. member_made m alarms v)

  inspect_made :
      (alarms : List EtcdAlarm) (m : MemberStatus) (w : W)
      → Adds log (inspect_member lib server cluster alarms m) w tt (member_entries cluster alarms m)
  unfolding inspect_member clean_all_alarm_metrics
  inspect_made [] m w = clean_made m.endpoint alarm_type_list w
  inspect_made (a ∷ alarms) m w = member_made m (a ∷ alarms) w

  pub all_made :
      (alarms : List EtcdAlarm) (ms : List MemberStatus) (w : W)
      → Adds log (inspect_members lib server cluster alarms ms) w tt (all_entries cluster alarms ms)
  unfolding inspect_members
  all_made alarms [] w = returned log tt w
  all_made alarms (m ∷ ms) w =
      chain log (inspect_member lib server cluster alarms m)
        (λ u. inspect_members lib server cluster alarms ms) w tt tt
        (member_entries cluster alarms m) (all_entries cluster alarms ms) (inspect_made alarms m w)
        (λ v. all_made alarms ms v)
