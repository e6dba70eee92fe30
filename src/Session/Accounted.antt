-- ===== src/Session/Accounted.antt =====
-- Whatever the callers, the watchers, the reaper and Close of internal/session do, each worker that
-- createEntry started is accounted for.
use otto_gateway.Base.{none, []}
use otto_gateway.Session.Registry.{Registry, SessionConfig, new_registry}
use otto_gateway.Session.Machine.{Sessions}

-- The registry that `New` makes, with nobody using it.
abbrev pub idle_sessions : SessionConfig → Sessions
idle_sessions cfg = record {
  registry = new_registry cfg;
  creators = [];
  starting = λ e. none;
  snapshot = [];
  reaping = none;
  spawned = [];
}
