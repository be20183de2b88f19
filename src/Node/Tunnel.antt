-- ===== src/Node/Tunnel.antt =====
-- The raw UDP tunnel frames in node-core/src/session.rs: the parser of packets and the encoder of
-- responses. Each error message is a constructor of `FrameError`.
use cll.Base.{
  ℕ, ◌-◌, ◌^◌, min, Option, none, some, List, ◌∷◌, ◌++◌, ltb, ◌==◌, not, if◌then◌else◌, length,
  take, drop, get_slice,
}
use cll.Base.Outcome.{Result, ok, ◌>>=◌, ◌>>◌, bail_if, ok_or}
use cll.Text.{Text, bytes, text_eq, is_utf8, is_blank}
use cll.Wire.{to_be16, to_be32, be16_at, be32_at, checked_add, byte_at}
use cll.Node.Code.{Code, code_text}

abbrev pub raw_udp_tunnel_magic : Text
raw_udp_tunnel_magic = bytes "XAU1"

abbrev pub raw_udp_tunnel_version : ℕ
raw_udp_tunnel_version = 1

abbrev pub raw_udp_kind_packet : ℕ
raw_udp_kind_packet = 1

abbrev pub raw_udp_kind_response : ℕ
raw_udp_kind_response = 2

abbrev pub raw_udp_header_bytes : ℕ
raw_udp_header_bytes = 20

pub record RawUdpTunnelRequest : Type 0 where
  pub session_id : Text
  pub target_id : Option Text
  pub host : Text
  pub port : ℕ
  pub payload : List ℕ

pub data FrameField : Type 0 where
  session_id_field target_id_field host_field : FrameField

pub data FrameError : Type 0 where
  too_short magic_mismatch version_unsupported kind_not_packet : FrameError
  truncated length_overflow length_mismatch field_overflow : FrameError
  not_utf8 : FrameField → FrameError
  session_id_required host_required port_required : FrameError

unfoldable pub read_u16 : Text → ℕ → Result FrameError ℕ
read_u16 payload offset = ok_or (be16_at payload offset) truncated

unfoldable pub read_u32 : Text → ℕ → Result FrameError ℕ
read_u32 payload offset = ok_or (be32_at payload offset) truncated

-- The field and the offset behind it.
unfoldable pub read_utf8_field : Text → ℕ → ℕ → FrameField → Result FrameError (Text × ℕ)
read_utf8_field payload offset len field = do
  stop ← ok_or (checked_add offset len) field_overflow
  text ← ok_or (get_slice payload offset stop) truncated
  bail_if (not (is_utf8 text)) (not_utf8 field)
  ok (text, stop)

-- An empty target id is none.
unfoldable pub read_target_id : Text → ℕ → ℕ → Result FrameError (Option Text × ℕ)
read_target_id payload offset len =
    if len == 0
    then ok (none, offset)
    else read_utf8_field payload offset len target_id_field >>= λ field. ok (some field.0, field.1)

unfoldable pub total_length : ℕ → ℕ → ℕ → ℕ → Result FrameError ℕ
total_length session_id_len target_id_len host_len payload_len = do
  a ← ok_or (checked_add raw_udp_header_bytes session_id_len) length_overflow
  b ← ok_or (checked_add a target_id_len) length_overflow
  c ← ok_or (checked_add b host_len) length_overflow
  ok_or (checked_add c payload_len) length_overflow

-- The checks of the fixed bytes.
unfoldable pub check_header : Text → Result FrameError (Unit {0})
check_header payload = do
  bail_if (ltb (length payload) raw_udp_header_bytes) too_short
  bail_if (not (text_eq (take 4 payload) raw_udp_tunnel_magic)) magic_mismatch
  bail_if (not (byte_at payload 4 == raw_udp_tunnel_version)) version_unsupported
  bail_if (not (byte_at payload 5 == raw_udp_kind_packet)) kind_not_packet

-- The fields behind the header, and the last checks.
unfoldable pub read_fields : Text → ℕ → ℕ → ℕ → ℕ → ℕ → Result FrameError RawUdpTunnelRequest
read_fields payload session_id_len target_id_len host_len port payload_len = do
  (session_id, offset1) ←
      read_utf8_field payload raw_udp_header_bytes session_id_len session_id_field
  (target_id, offset2) ← read_target_id payload offset1 target_id_len
  (host, offset3) ← read_utf8_field payload offset2 host_len host_field
  let tunneled_payload = take payload_len (drop offset3 payload)
  bail_if (is_blank session_id) session_id_required
  bail_if (is_blank host) host_required
  bail_if (port == 0) port_required
  ok (record {
    session_id = session_id;
    target_id = target_id;
    host = host;
    port = port;
    payload = tunneled_payload;
  })

unfoldable pub parse_raw_udp_tunnel_frame : Text → Result FrameError RawUdpTunnelRequest
parse_raw_udp_tunnel_frame payload = do
  check_header payload
  session_id_len ← read_u16 payload 8
  target_id_len ← read_u16 payload 10
  host_len ← read_u16 payload 12
  port ← read_u16 payload 14
  payload_len ← read_u32 payload 16
  total_len ← total_length session_id_len target_id_len host_len payload_len
  bail_if (not (length payload == total_len)) length_mismatch
  read_fields payload session_id_len target_id_len host_len port payload_len

unfoldable pub raw_status_code : Code → ℕ
raw_status_code Code.forwarded = 0
raw_status_code Code.upstream_timeout = 1
raw_status_code _ = 2

-- `u16::try_from(n).unwrap_or(u16::MAX)`, and the same for 32 bits.
abbrev pub saturate16 : ℕ → ℕ
saturate16 n = min n (2 ^ 16 - 1)

abbrev pub saturate32 : ℕ → ℕ
saturate32 n = min n (2 ^ 32 - 1)

unfoldable pub encode_raw_udp_tunnel_response : Text → Code → List ℕ → Text
encode_raw_udp_tunnel_response session_id status payload =
    raw_udp_tunnel_magic
    ++ (raw_udp_tunnel_version
        ∷ raw_udp_kind_response
        ∷ raw_status_code status
        ∷ 0
        ∷ (to_be16 (saturate16 (length session_id))
            ++ (to_be16 (saturate16 (length (code_text status)))
                ++ (to_be16 0
                    ++ (to_be16 0
                        ++ (to_be32 (saturate32 (length payload))
                            ++ (session_id ++ (code_text status ++ payload))))))))
