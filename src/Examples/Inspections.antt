-- ===== src/Examples/Inspections.antt =====
-- The theorems on the inspections, the backups and the replies of the API at concrete inputs.
use mathlib.Core.List.Perm.{swap}
use mathlib.Core.List.{reverse}
use kstone.Base.{ℕ, ◌+◌, ◌≡◌, refl, true, none, some, List, [], ◌∷◌, ◌++◌, arith}
use kstone.Base.Text.{Text, text, split, text_eq}
use kstone.Base.Effect.{new_error, pure}
use kstone.Base.Utf8.{is_utf8}
use kstone.Base.Decimal.{itoa}
use kstone.Metrics.Trace.{Clean}
use kstone.Inspection.Alarms.{all_entries}
use kstone.Api.{MemberStatus, MemberPhase, MemberRole}
use kstone.Interfaces.{ok, err}
use kstone.EtcdClient.{EtcdLibrary}
use kstone.EtcdStats.{StatCalls, ConsistencyType, Metadata}
use kstone.Metrics.{Entry, CollectorLaws, Collector, label_values}
use kstone.Inspection.Request.{Event, EventType, process_watch_event}
use kstone.Inspection.Keys.{entries_of}
use kstone.Inspection.Counted.{process_watch_event-entries_of}
use kstone.Inspection.Collect.{EtcdAlarm, Server, inspect_members}
use kstone.Inspection.AlarmValues.{alarm_value, inspected, inspect_members-inspected}
use kstone.Inspection.Difference.{report_differences}
use kstone.Inspection.Order.{report_differences-Perm}
use kstone.BackupCheck.{stat_s3, stat_cos}
use kstone.BackupCheck.Counts.{Ascends, recent, stat-recent}
use kstone.Router.{Reply, show_value}
use kstone.Router.Replies.{Shown, show_value-Shown}
use kstone.Examples.{cluster, config}
use kstone.Examples.Etcd.{codecs}

abbrev Log : Type 0
Log = List Entry

-- The metrics as the list of the changes; labels that are not the metric's panic.
abbrev collector : Collector Log
collector m labels ch w = elim (label_values m labels) [
  | none ↦ none
  | some vs ↦ some (tt, w ++ record { metric = m; values = vs; change = ch } ∷ [])
]

collector-CollectorLaws : CollectorLaws collector (λ w. w)
collector-CollectorLaws = record {
  made = λ m labels values ch w h u.
      (w ++ record { metric = m; values = values; change = ch } ∷ [], rw (collector, h) refl, refl);
}

abbrev event : Event
event = record { event_type = EventType.put; key = text "/registry/pods/a"; is_create = true }

event-Clean : Clean (entries_of (text "c") (event ∷ []))
unfolding is_utf8 split
event-Clean = (refl, (refl, tt))

process_watch_event-entries_of_example :
    (w : Log) × (process_watch_event collector (text "c") (event ∷ []) [] ≡ some (tt, w))
    × (w ≡ [] ++ entries_of (text "c") (event ∷ []))
process_watch_event-entries_of_example =
    process_watch_event-entries_of collector-CollectorLaws (text "c") (event ∷ []) [] event-Clean

abbrev server : Server Log ℕ ℕ
server = record {
  get_etcd_cluster = λ namespace name. pure (ok cluster);
  client_config = λ namespace name. pure (ok config);
  collector = collector;
  alarm_list = λ c. pure (ok []);
  close = λ c. pure tt;
  member_healthy = λ url c. pure (true, none);
}

abbrev library : EtcdLibrary Log ℕ ℕ ℕ
library = record {
  client_config = λ i. pure (err (new_error (text "tls")));
  new_transport = λ i t. pure none;
  new_v3 = λ c. pure (ok 3);
  new_v2 = λ c. pure (ok 2);
}

abbrev inspected_member : MemberStatus
inspected_member = record {
  name = text "m0";
  member_id = text "7";
  status = MemberPhase.running;
  version = text "3.4.3";
  endpoint = text "a";
  port = text "2379";
  client_url = text "http://a:2379";
  extension_client_url = text "http://a:2379";
  role = MemberRole.leader;
  errors = [];
}

abbrev alarms : List EtcdAlarm
alarms = record { member_id = 7; alarm_type = text "NOSPACE" } ∷ []

alarms-Clean : Clean (all_entries (text "c") alarms (inspected_member ∷ []))
unfolding is_utf8 text_eq itoa
alarms-Clean = (refl, tt)

inspect_members-inspected_example :
    (w : Log) × (es : List Entry) × (inspect_members library server
        (text "c")
        alarms
        (inspected_member ∷ [])
        []
      ≡ some (tt, w))
    × (w ≡ [] ++ es)
    × ((endpoint alarm : Text) (v : ℕ)
        → alarm_value (text "c" ∷ endpoint ∷ alarm ∷ []) v es
          ≡ inspected endpoint alarm v alarms (inspected_member ∷ []))
inspect_members-inspected_example =
    inspect_members-inspected library server collector-CollectorLaws (text "c") alarms
      (inspected_member ∷ []) [] alarms-Clean

abbrev stat_calls : StatCalls Log ℕ ℕ
stat_calls = record {
  count_v3 = λ c k. pure (ok 4);
  status_v3 = λ c k. pure (err (new_error (text "status")));
  close_v3 = λ c. pure tt;
  get_v2 = λ c k. pure (err (new_error (text "get")));
}

abbrev ahead : Metadata
ahead = (ConsistencyType.revision, 9) ∷ []

abbrev behind : Metadata
behind = (ConsistencyType.revision, 5) ∷ []

report_differences-Perm_example :
    report_differences library stat_calls server
      (text "c")
      (ahead ∷ behind ∷ [])
      (ConsistencyType.revision ∷ [])
      []
    ≡ report_differences library stat_calls server
        (text "c")
        (behind ∷ ahead ∷ [])
        (ConsistencyType.revision ∷ [])
        []
report_differences-Perm_example =
    report_differences-Perm library stat_calls server (text "c") (ConsistencyType.revision ∷ [])
      (swap behind ahead []) []

abbrev objects : List ℕ
objects = 10 ∷ 90000 ∷ 100000 ∷ []

objects-Ascends : Ascends objects
objects-Ascends = ((omega arith, (omega arith, tt)), ((omega arith, tt), (tt, tt)))

stat-recent_example :
    (stat_s3 (λ n. 100001 + n) (some objects) ≡ ok (recent (λ n. 100001 + n) (reverse objects)))
    × (stat_cos (λ n. 100001 + n) (some (some 10 ∷ some 90000 ∷ some 100000 ∷ []))
        ≡ ok (recent (λ n. 100001 + n) (reverse objects)))
stat-recent_example = stat-recent (λ n. 100001 + n) objects (λ n. omega arith) objects-Ascends

show_value-Shown_example :
    (r : Reply ℕ) × (show_value codecs true (text "a{}") ≡ some r) × Shown codecs (text "a{}") r
show_value-Shown_example = show_value-Shown codecs (text "a{}")
