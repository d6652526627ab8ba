-- ===== src/Protocol/Senders/Faults.antt =====
-- `send_transform` and `send_image` of lib/foxdbg_protocol.cpp on the payloads that they must not be
-- called on.
use foxdbg.Channel.{Channel}
