-- ===== src/Anthropic/Aggregate.antt =====
-- Every step of internal/adapter/anthropic/sse.go aggregates what it sends.
use otto_gateway.Anthropic.Emitter.{Emitter}
