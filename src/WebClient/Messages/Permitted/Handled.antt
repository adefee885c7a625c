-- ===== src/WebClient/Messages/Permitted/Handled.antt =====
-- rtpconn/webclient.go: `handleClientMessage` as a whole.
use galene.WebClient.{WebClient}
