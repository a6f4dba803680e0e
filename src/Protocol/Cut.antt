-- ===== src/Protocol/Cut.antt =====
-- The header of server/protocol.go on the wire.
use container_cloudlet.Common.{ℕ, ◌≡◌, Option, none, List, length, arith}
use container_cloudlet.Go.{GoError, ok}
use container_cloudlet.Protocol.{ProtocolHeader, read_protocol_header, bytes}

module _ (from_bytes : List ℕ → Option GoError × List ℕ)
    (copies : (b : List ℕ) → length b ≡ 16 → from_bytes b ≡ (none, b)) where
  -- Where `uuid.FromBytes` copies 16 bytes, a header with an id of 16 bytes is read back from its bytes
  -- if one `Read` yields all of them.
  read_protocol_header-bytes :
      (h : ProtocolHeader)
      → length h.session_id ≡ 16
      → read_protocol_header from_bytes (record { bytes = bytes h; error = none }) ≡ ok h
  unfolding read_protocol_header bytes
  read_protocol_header-bytes h e = ground (arith, copies h.session_id e)
