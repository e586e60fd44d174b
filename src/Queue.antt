-- ===== src/Queue.antt =====
-- internal/queue: the messages' headers and queue names (topology.go, rabbitmq.go), publishing
-- (publisher.go) and consuming (consumer.go). RabbitMQ, encoding/json and the job handlers are
-- reached by calls; the layout of RFC 3339 timestamps is a parameter.
pub mod Topology
pub mod Messages
pub mod Publisher
pub mod Consumer
pub mod Monitor
pub mod Worker
mod Tests
