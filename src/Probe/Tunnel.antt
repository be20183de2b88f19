-- ===== src/Probe/Tunnel.antt =====
-- The raw UDP tunnel frames in client-probe/src/main.rs: the encoder of packets and the decoder of
-- responses.
pub mod Packet
pub mod Response
use cll.Base.{
  ℕ, ◌+◌, ◌^◌, Bool, true, false, Option, none, some, List, [], ◌∷◌, ◌++◌, ltb, ◌==◌, not,
  if◌then◌else◌, length, take, drop, get_slice,
}
use cll.Base.Outcome.{Result, ok, err, ◌>>=◌, ◌>>◌, bail_if, ok_or}
use cll.Text.{Text, bytes, text_eq, is_utf8}
use cll.Wire.{to_be16, to_be32, be16_at, be32_at, checked_add, byte_at}

pub data ClientError : Type 0 where
  session_id_too_long target_id_too_long host_too_long payload_too_large : ClientError
  shorter_than_header magic_mismatch version_mismatch kind_mismatch : ClientError
  length_overflow length_mismatch truncated field_overflow field_truncated field_not_utf8 :
      ClientError

pub record RawUdpTunnelResponse : Type 0 where
  pub status_code : ℕ
  pub session_id : Text
  pub status : Text
  pub payload : List ℕ

-- `u16::try_from` and `u32::try_from`.
abbrev pub fit : ℕ → ℕ → ClientError → Result ClientError ℕ
fit width n e = if ltb n (2 ^ width) then ok n else err e

unfoldable pub encode_raw_udp_tunnel_frame :
    Text → Text → Text → ℕ → List ℕ → Result ClientError Text
encode_raw_udp_tunnel_frame session_id target_id host port payload = do
  session_len ← fit 16 (length session_id) session_id_too_long
  target_len ← fit 16 (length target_id) target_id_too_long
  host_len ← fit 16 (length host) host_too_long
  payload_len ← fit 32 (length payload) payload_too_large
  ok (
      bytes "XAU1"
      ++ (1
          ∷ 1
          ∷ 0
          ∷ 0
          ∷ (to_be16 session_len
              ++ (to_be16 target_len
                  ++ (to_be16 host_len
                      ++ (to_be16 port
                          ++ (to_be32 payload_len
                              ++ (session_id ++ (target_id ++ (host ++ payload))))))))))

unfoldable pub read_u16 : Text → ℕ → Result ClientError ℕ
read_u16 payload offset = ok_or (be16_at payload offset) truncated

unfoldable pub read_u32 : Text → ℕ → Result ClientError ℕ
read_u32 payload offset = ok_or (be32_at payload offset) truncated

unfoldable pub read_utf8_field : Text → ℕ → ℕ → Result ClientError (Text × ℕ)
read_utf8_field payload offset len = do
  stop ← ok_or (checked_add offset len) field_overflow
  text ← ok_or (get_slice payload offset stop) field_truncated
  bail_if (not (is_utf8 text)) field_not_utf8
  ok (text, stop)

unfoldable pub total_length : ℕ → ℕ → ℕ → Result ClientError ℕ
total_length session_len status_len payload_len = do
  a ← ok_or (checked_add 20 session_len) length_overflow
  b ← ok_or (checked_add a status_len) length_overflow
  ok_or (checked_add b payload_len) length_overflow

unfoldable pub decode_raw_udp_tunnel_response : Text → Result ClientError RawUdpTunnelResponse
decode_raw_udp_tunnel_response payload = do
  bail_if (ltb (length payload) 20) shorter_than_header
  bail_if (not (text_eq (take 4 payload) (bytes "XAU1"))) magic_mismatch
  bail_if (not (byte_at payload 4 == 1)) version_mismatch
  bail_if (not (byte_at payload 5 == 2)) kind_mismatch
  session_len ← read_u16 payload 8
  status_len ← read_u16 payload 10
  payload_len ← read_u32 payload 16
  total_len ← total_length session_len status_len payload_len
  bail_if (not (length payload == total_len)) length_mismatch
  (session_id, offset1) ← read_utf8_field payload 20 session_len
  (status, offset2) ← read_utf8_field payload offset1 status_len
  ok (record {
    status_code = byte_at payload 6;
    session_id = session_id;
    status = status;
    payload = take payload_len (drop offset2 payload);
  })
