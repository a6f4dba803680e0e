-- ===== src/Protocol.antt =====
-- server/protocol.go: the header of a session. A `uuid.UUID` is its 16 bytes; `uuid.FromBytes` is a
-- parameter.
pub mod Cut
use Prim.Native.String.{◌++◌}
use container_cloudlet.Common.{
  ℕ, String, Bool, true, false, Option, none, some, List, length, ltb, show_nat, if◌then◌else◌,
}
use container_cloudlet.Go.{GoError, Result, ok, fail, new_error}
use container_cloudlet.Io.{ReadResult}

pub record ProtocolHeader : Type 0 where
  pub session_id : List ℕ

abbrev pub insufficient : ℕ → GoError
insufficient n = new_error ("Insufficient session protocol header: " ++ show_nat n ++ " byte")

abbrev header_of : Option GoError × List ℕ → Result ProtocolHeader
header_of (some e, id) = fail e
header_of (none, id) = ok (record { session_id = id })

abbrev checked :
    (List ℕ → Option GoError × List ℕ) → List ℕ → Option GoError → Result ProtocolHeader
checked from_bytes bytes (some e) = fail e
checked from_bytes bytes none =
    if ltb (length bytes) 16
    then fail (insufficient (length bytes))
    else header_of (from_bytes bytes)

-- `ReadProtocolHeader`, over the one `Read` into 16 bytes that it makes.
unfoldable pub read_protocol_header :
    (List ℕ → Option GoError × List ℕ) → ReadResult → Result ProtocolHeader
unfolding show_nat
read_protocol_header from_bytes r = checked from_bytes r.bytes r.error

-- `Bytes`
unfoldable pub bytes : ProtocolHeader → List ℕ
bytes p = p.session_id

-- `String`, with `uuid.UUID.String` as a parameter
unfoldable pub to_string : (List ℕ → String) → ProtocolHeader → String
to_string uuid_string p = "sessionId=" ++ uuid_string p.session_id
