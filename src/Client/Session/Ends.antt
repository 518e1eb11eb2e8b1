-- ===== src/Client/Session/Ends.antt =====
-- How long the console goes on.
use distributed_systems_iiit.Common.{string_key}
