-- ===== src/App/Wiring.antt =====
-- internal/app/app.go: `wireMetrics`, the queues whose depths are exported. Installing the metrics
-- sink in the consumers is not modelled: their effects are the calls of it.
use redis_watcher.Base.{
  false, ◌||◌, List, [], ◌∷◌, ◌++◌, map, Option, none, some, ◌≡◌, refl, ap, ◌∙◌, sym, append-nil,
  append_assoc,
}
use redis_watcher.Base.Bytes.{Bytes, codes, eq_bytes}
use redis_watcher.Base.Lists.{length}
use redis_watcher.Alert.Engine.{Engine}
use redis_watcher.Metrics.Queues.{QueueRef, add, collect, consistent, queue_names, collect-distinct}
use redis_watcher.Metrics.Registered.{taken, distinct}
use redis_watcher.Monitor.Client.{Client}
use redis_watcher.Output.{Consumer}
use redis_watcher.Output.Sinks.{Sink, sink_name}
use redis_watcher.Base.Results.{ok}
use redis_watcher.Config.{Config}
use redis_watcher.Config.Validate.{validate}
use redis_watcher.Go.Text.{Unicode}
use redis_watcher.App.{build_outputs, some_of}
use redis_watcher.App.Build.{enabled_kinds, build_outputs-validate}

-- The loop over the consumers, each with its sink.
unfoldable pub add_outputs : List (Sink × Consumer) → List QueueRef → List QueueRef
add_outputs [] queues = queues
add_outputs ((s, c) ∷ cs) queues =
    add_outputs cs (add (codes "output:" ++ sink_name s) (length c.queue) c.capacity queues)

unfoldable pub add_alerts : Option Engine → List QueueRef → List QueueRef
add_alerts none queues = queues
add_alerts (some e) queues = add (codes "alerts") (length e.queue) e.capacity queues

-- The depths are those of the scrape. No manager is no consumer.
unfoldable pub wire_metrics : Client → List (Sink × Consumer) → Option Engine → List QueueRef
unfolding add_outputs add_alerts
wire_metrics mon cs alerts =
    add_alerts alerts (add_outputs cs (add (codes "events") (length mon.queue) mon.capacity []))

abbrev pub names_of : List (Sink × Consumer) → List Bytes
names_of = map (λ x. sink_name x.0)

abbrev labels : List (Sink × Consumer) → List Bytes
labels [] = []
labels ((s, c) ∷ cs) = (codes "output:" ++ sink_name s) ∷ labels cs

queue_names-append : (a b : List QueueRef) → queue_names (a ++ b) ≡ queue_names a ++ queue_names b
queue_names-append [] b = refl
queue_names-append (r ∷ a) b = ap (◌∷◌ r.name) (queue_names-append a b)

queue_names-add_outputs :
    (cs : List (Sink × Consumer)) (queues : List QueueRef)
    → queue_names (add_outputs cs queues) ≡ queue_names queues ++ labels cs
unfolding add_outputs add
queue_names-add_outputs [] queues = sym (append-nil (queue_names queues))
queue_names-add_outputs ((s, c) ∷ cs) queues =
    queue_names-add_outputs cs
      (add (codes "output:" ++ sink_name s) (length c.queue) c.capacity queues)
    ∙ rw
        (queue_names-append queues (
          record {
            name = codes "output:" ++ sink_name s;
            depth = length c.queue;
            capacity = c.capacity;
          }
          ∷ []))
        (append_assoc (queue_names queues) ((codes "output:" ++ sink_name s) ∷ []) (labels cs))

abbrev alert_label : Option Engine → List Bytes
alert_label none = []
alert_label (some e) = codes "alerts" ∷ []

queue_names-wire_metrics :
    (mon : Client) (cs : List (Sink × Consumer)) (alerts : Option Engine)
    → queue_names (wire_metrics mon cs alerts) ≡ codes "events" ∷ (labels cs ++ alert_label alerts)
unfolding wire_metrics add_alerts
queue_names-wire_metrics mon cs none =
    queue_names-add_outputs cs (add (codes "events") (length mon.queue) mon.capacity [])
    ∙ unfold add in ap (◌∷◌ (codes "events")) (sym (append-nil (labels cs)))
queue_names-wire_metrics mon cs (some e) =
    unfold add in
    queue_names-append (add_outputs cs (add (codes "events") (length mon.queue) mon.capacity []))
      (record { name = codes "alerts"; depth = length e.queue; capacity = e.capacity } ∷ [])
    ∙ ap (λ ns. ns ++ codes "alerts" ∷ [])
        (queue_names-add_outputs cs (add (codes "events") (length mon.queue) mon.capacity []))

taken-prefix :
    (n : Bytes) (cs : List (Sink × Consumer)) (alerts : Option Engine)
    → taken (labels cs ++ alert_label alerts) (codes "output:" ++ n) ≡ taken (names_of cs) n
unfolding eq_bytes
taken-prefix n [] none = refl
taken-prefix n [] (some e) = refl
taken-prefix n ((s, c) ∷ cs) alerts =
    ap (◌||◌ (eq_bytes n (sink_name s))) (taken-prefix n cs alerts)

taken-events :
    (cs : List (Sink × Consumer)) (alerts : Option Engine)
    → taken (labels cs ++ alert_label alerts) (codes "events") ≡ false
unfolding eq_bytes
taken-events [] none = refl
taken-events [] (some e) = refl
taken-events ((m, c) ∷ cs) alerts = taken-events cs alerts

distinct-labels :
    (cs : List (Sink × Consumer)) (alerts : Option Engine)
    → distinct (labels cs ++ alert_label alerts) ≡ distinct (names_of cs)
distinct-labels [] none = refl
distinct-labels [] (some e) = refl
distinct-labels ((s, c) ∷ cs) alerts =
    rw (taken-prefix (sink_name s) cs alerts, distinct-labels cs alerts) refl

wire_metrics-consistent :
    (mon : Client) (cs : List (Sink × Consumer)) (alerts : Option Engine)
    → consistent (collect (wire_metrics mon cs alerts)) ≡ distinct (names_of cs)
wire_metrics-consistent mon cs alerts =
    collect-distinct (wire_metrics mon cs alerts)
    ∙ ap distinct (queue_names-wire_metrics mon cs alerts)
    ∙ rw (taken-events cs alerts) (distinct-labels cs alerts)

-- Of an accepted configuration, the outputs are built, and a scrape of the queue depths that are
-- wired is consistent, so that Prometheus does not refuse it, exactly when no two enabled outputs
-- have one type: the queues of the monitor and of the alerts never clash with theirs.
pub wire_metrics-validate :
    (u : Unicode) (c c' : Config) (mon : Client) (alerts : Option Engine)
    → validate u c ≡ ok c'
    → (cs : List (Sink × Consumer)) × (build_outputs c' ≡ ok (some_of cs))
      × (consistent (collect (wire_metrics mon cs alerts)) ≡ distinct (enabled_kinds c'.outputs))
wire_metrics-validate u c c' mon alerts h =
    let (cs, built, kinds, fresh) = build_outputs-validate u c c' h in
    (cs, built, wire_metrics-consistent mon cs alerts ∙ ap distinct kinds)
