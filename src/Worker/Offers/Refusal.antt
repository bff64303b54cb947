-- ===== src/Worker/Offers/Refusal.antt =====
-- The conflict policy of the worker, together with what the peer does with an accepted offer.
use quiczilla.Prelude.Bytes.{Bytes}
use quiczilla.Peer.Disk.{Disk}
