-- ===== src/Service/Simulated.antt =====
-- The rounds of a handle's thread, as the service sees them.
use lsd.TimeValue.{TimeValue}
use lsd.MessageCache.{MessageCache}
use lsd.Handle.State.{Handle}
use lsd.Service.Steps.{Steps}
