-- ===== src/Dns/Service/Blocking.antt =====
-- A blocked name is refused to the process itself as blocked: the handler and the lookups together.
use ad_block.Dns.Message.{Message}
use ad_block.Dns.Service.{Base}
use ad_block.Text.{Text}
