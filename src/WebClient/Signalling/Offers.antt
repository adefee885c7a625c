-- ===== src/WebClient/Signalling/Offers.antt =====
-- rtpconn/webclient.go: a negotiation that is put off is made up for.
use galene.WebClient.{WebClient}
