-- ===== src/Webhook/Immutable.antt =====
-- What an accepted update has of the OAuth proxy.
use codeflare_operator.Host.{Host}
