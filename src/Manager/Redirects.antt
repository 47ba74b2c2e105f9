-- ===== src/Manager/Redirects.antt =====
-- A manager follows the redirect of a broker that shuts down.
use distributed_event_bus.Prelude.{false, List, [], ◌∷◌, text_key}
use distributed_event_bus.Broker.Event.{Event}
use distributed_event_bus.Manager.Endpoints.{Manager}
use distributed_event_bus.Manager.Recovery.{Observed, event_comes}

-- The events that come are forwarded while there is room.
abbrev pub all_events : List Event → List Observed → List Observed
all_events [] rest = rest
all_events (event ∷ events) rest = event_comes event false ∷ all_events events rest
