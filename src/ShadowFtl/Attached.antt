-- ===== src/ShadowFtl/Attached.antt =====
-- cpp/include/dwpdsim/shadow_ftl.hpp: `ShadowFtl` as the device that the simulator calls.
use dwpdsim.Floats.{Machine}
use dwpdsim.Simulator.{ShadowDevice}
use dwpdsim.ShadowFtl.Device.{
  ShadowFtl, ShadowFeedback, consume, record_loss, ghost_prefix, record_request,
}
use dwpdsim.ShadowFtl.Windows.{close_window}

abbrev pub shadow_ftl : Machine → ShadowDevice
shadow_ftl M = record {
  State = ShadowFtl M.Double;
  Feedback = ShadowFeedback M.Double;
  consume = consume;
  record_loss = record_loss;
  ghost_prefix = ghost_prefix;
  record_request = record_request;
  close_window = λ now d. close_window M now d;
}
