-- ===== src/Capture/Controller.antt =====
-- `Controller` of internal/capture/controller.go.
use otto_gateway.Base.{ℕ, String, Bool, true, false, List, if◌then◌else◌}
use otto_gateway.Capture.Ring.{Frame, Ring, new_ring, write_frame, snapshot, clear}

pub record Controller : Type 0 where
  pub ring : Ring
  pub enabled : Bool
  pub allow_toggle : Bool

unfoldable pub new_controller : ℕ → ℕ → Bool → Bool → Controller
unfolding new_ring
new_controller size cap_bytes initial_enabled allow_toggle = record {
  ring = new_ring size cap_bytes;
  enabled = initial_enabled;
  allow_toggle = allow_toggle;
}

unfoldable pub write : Controller → ℕ → String → List ℕ → Controller
unfolding write_frame
write c now method params =
    if c.enabled then record c { ring = write_frame c.ring now method params } else c

unfoldable pub enable : Controller → Controller
unfolding clear
enable c = record c { ring = clear c.ring; enabled = true }

unfoldable pub disable : Controller → Controller
disable c = record c { enabled = false }

unfoldable pub clear_frames : Controller → Controller
unfolding clear
clear_frames c = record c { ring = clear c.ring }

unfoldable pub frames : Controller → List Frame
unfolding snapshot
frames c = snapshot c.ring
