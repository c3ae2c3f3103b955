-- ===== src/Inspection/Counted.antt =====
-- What pkg/inspection/request.go does to the metrics, against the list of the changes.
use kstone.Base.{
  ◌≡◌, inl, inr, refl, sym, subst, Bool, true, false, some, List, [], ◌∷◌, ◌++◌, if◌then◌else◌,
}
use kstone.Base.Text.{Text, text, text_eq}
use kstone.Base.Dict.{Dict, insert, delete}
use kstone.Base.Effect.{Go, pure, ◌>>=◌}
use kstone.Metrics.{Metric, Change, Collector, cluster_name, Entry, CollectorLaws}
use kstone.Inspection.Request.{
  EventType, Event, grpc_method, set_etcd_prefix_and_resource_name, count_create, process_put,
  process_delete, process_event, process_events, process_watch_event,
}
use kstone.Metrics.Trace.{Adds, Clean, returned, chain, changed}
use kstone.Inspection.Keys.{
  key_entry, request_entry, event_entries, entries_of, keyed, counted, Shape, Shape-keyed,
  key_values, request_values, method_of,
}

module _ {W : Type 0} {collector : Collector W} {log : W → List Entry}
    (laws : CollectorLaws collector log) (cluster : Text) where
  created :
      (b : Bool) (key : Text) (w : W)
      → Adds log
          (count_create collector b (keyed cluster key))
          w
          tt
          (if b then key_entry cluster key Change.increment ∷ [] else [])
  unfolding count_create
  created true key w =
      changed laws Metric.etcd_key_total (keyed cluster key) _ Change.increment w
        (key_values cluster key)
  created false key w = returned log tt w

  requested :
      (key method : Text) (w : W)
      → Adds log
          (collector Metric.etcd_request_total (counted cluster key method) Change.increment)
          w
          tt
          (request_entry cluster method key ∷ [])
  requested key method w =
      changed laws Metric.etcd_request_total (counted cluster key method) _ Change.increment w
        (request_values cluster key method)

  -- The request is counted, and its labels come back.
  finish :
      (key method : Text) (w : W)
      → Adds log
          (collector Metric.etcd_request_total (counted cluster key method) Change.increment
            >>= λ u. pure (counted cluster key method))
          w
          (counted cluster key method)
          (request_entry cluster method key ∷ [])
  finish key method w =
      chain log (collector Metric.etcd_request_total (counted cluster key method) Change.increment)
        (λ u. pure (counted cluster key method)) w tt (counted cluster key method)
        (request_entry cluster method key ∷ []) [] (requested key method w)
        (λ v. returned log (counted cluster key method) v)

  put_body : Event → Dict Text → Go W (Dict Text)
  put_body ev k = count_create collector ev.is_create k >>= λ u.
      collector Metric.etcd_request_total (insert grpc_method (text "PUT") k) Change.increment
      >>= λ u. pure (insert grpc_method (text "PUT") k)

  put_made :
      (labels : Dict Text) (ev : Event) (w : W)
      → set_etcd_prefix_and_resource_name labels ev.key ≡ keyed cluster ev.key
      → Adds log
          (process_put collector labels ev)
          w
          (counted cluster ev.key (text "PUT"))
          (event_entries cluster EventType.put ev)
  unfolding process_put put_body insert text_eq
  put_made labels ev w e =
      subst
        (λ k.
          Adds log (put_body ev k) w (counted cluster ev.key (text "PUT"))
            (event_entries cluster EventType.put ev))
        (sym e) (of ev.is_create)
    where
      of :
          (b : Bool)
          → Adds log
              (count_create collector b (keyed cluster ev.key) >>= λ u.
                collector Metric.etcd_request_total
                  (counted cluster ev.key (text "PUT"))
                  Change.increment
                >>= λ u. pure (counted cluster ev.key (text "PUT")))
              w
              (counted cluster ev.key (text "PUT"))
              (if b
                then key_entry cluster ev.key Change.increment
                  ∷ request_entry cluster (text "PUT") ev.key
                  ∷ []
                else request_entry cluster (text "PUT") ev.key ∷ [])
      of true =
          chain log (count_create collector true (keyed cluster ev.key))
            (λ u.
              collector Metric.etcd_request_total (counted cluster ev.key (text "PUT"))
                Change.increment
              >>= λ u. pure (counted cluster ev.key (text "PUT")))
            w tt (counted cluster ev.key (text "PUT"))
            (key_entry cluster ev.key Change.increment ∷ [])
            (request_entry cluster (text "PUT") ev.key ∷ []) (created true ev.key w)
            (λ v. finish ev.key (text "PUT") v)
      of false = finish ev.key (text "PUT") w

  delete_body : Dict Text → Go W (Dict Text)
  delete_body k = collector Metric.etcd_key_total k Change.decrement >>= λ u.
      collector Metric.etcd_request_total (insert grpc_method (text "Delete") k) Change.increment
      >>= λ u. pure (insert grpc_method (text "Delete") k)

  delete_made :
      (labels : Dict Text) (ev : Event) (w : W)
      → set_etcd_prefix_and_resource_name labels ev.key ≡ keyed cluster ev.key
      → Adds log
          (process_delete collector labels ev)
          w
          (counted cluster ev.key (text "Delete"))
          (event_entries cluster EventType.delete_key ev)
  unfolding process_delete delete_body insert text_eq
  delete_made labels ev w e =
      subst
        (λ k.
          Adds log (delete_body k) w (counted cluster ev.key (text "Delete"))
            (event_entries cluster EventType.delete_key ev))
        (sym e)
        (chain log (collector Metric.etcd_key_total (keyed cluster ev.key) Change.decrement)
          (λ u.
            collector Metric.etcd_request_total (counted cluster ev.key (text "Delete"))
              Change.increment
            >>= λ u. pure (counted cluster ev.key (text "Delete")))
          w tt (counted cluster ev.key (text "Delete"))
          (key_entry cluster ev.key Change.decrement ∷ [])
          (request_entry cluster (text "Delete") ev.key ∷ [])
          (changed laws Metric.etcd_key_total (keyed cluster ev.key) _ Change.decrement w
            (key_values cluster ev.key))
          (λ v. finish ev.key (text "Delete") v))

  event_made :
      (t : EventType) (labels : Dict Text) (ev : Event) (w : W)
      → Shape cluster labels
      → Adds log
          (process_event collector t (delete grpc_method labels) ev)
          w
          (counted cluster ev.key (method_of t))
          (event_entries cluster t ev)
  unfolding process_event
  event_made EventType.put labels ev w s =
      put_made (delete grpc_method labels) ev w (Shape-keyed cluster ev.key labels s)
  event_made EventType.delete_key labels ev w s =
      delete_made (delete grpc_method labels) ev w (Shape-keyed cluster ev.key labels s)

  all_made :
      (evs : List Event) (labels : Dict Text) (w : W)
      → Shape cluster labels
      → Adds log (process_events collector labels evs) w tt (entries_of cluster evs)
  unfolding process_events
  all_made [] labels w s = returned log tt w
  all_made (ev ∷ evs) labels w s =
      chain log (process_event collector ev.event_type (delete grpc_method labels) ev)
        (λ l. process_events collector l evs) w (counted cluster ev.key (method_of ev.event_type))
        tt (event_entries cluster ev.event_type ev) (entries_of cluster evs)
        (event_made ev.event_type labels ev w s)
        (λ v.
          all_made evs (counted cluster ev.key (method_of ev.event_type)) v
            (inr (ev.key, method_of ev.event_type, refl)))

  -- Where the cluster's name and the parts of the keys that become labels are UTF-8, processWatchEvent
  -- never fails over the labels of a metric, and changes the metrics, in the order of the events,
  -- exactly so: a creation adds one to the keys of its prefix and resource, a deletion
  -- takes one away, and each event adds one to the requests of its method; the prefix and the
  -- resource are the second and the third part of the key. A change with the labels of its
  -- metric, in UTF-8, is made.
  pub process_watch_event-entries_of :
      (evs : List Event) (w : W)
      → Clean (entries_of cluster evs)
      → (w' : W) × (process_watch_event collector cluster evs w ≡ some (tt, w'))
        × (log w' ≡ log w ++ entries_of cluster evs)
  unfolding process_watch_event
  process_watch_event-entries_of evs w c =
      all_made evs ((cluster_name, cluster) ∷ []) w (inl refl) c
