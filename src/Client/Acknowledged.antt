-- ===== src/Client/Acknowledged.antt =====
-- An event that the application has acknowledged is not given to it again, over any history.
use distributed_event_bus.Protocol.Frame.{Frame}
use distributed_event_bus.Broker.Event.{Event}
use distributed_event_bus.Client.Deliveries.{Deliveries}
use distributed_event_bus.Client.State.{Client}
