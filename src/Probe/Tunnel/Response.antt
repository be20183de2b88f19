-- ===== src/Probe/Tunnel/Response.antt =====
-- `encode_raw_udp_tunnel_response` of node-core/src/session.rs against
-- `decode_raw_udp_tunnel_response` of client-probe/src/main.rs.
use cll.Base.{
  ℕ, ◌+◌, ◌^◌, ◌-◌, min, ◌≤◌, ◌<◌, ◌≡◌, refl, ap, true, List, [], ◌∷◌, ◌++◌, arith, length, take,
  drop, length-append,
}
use cll.Base.Outcome.{ok}
use cll.Text.{Text, bytes, text_eq, is_utf8}
use cll.Wire.{to_be16, to_be32}
use cll.Wire.Fields.{slice_at, field_fits, drop-field, be16_at-to_be16, be32_at-to_be32}
use cll.Node.Tunnel.{
  RawUdpTunnelRequest, FrameError, FrameField, parse_raw_udp_tunnel_frame, check_header,
}
use cll.Node.Tunnel
use cll.Node.Code.Texts.{code_text-is_utf8, length-code_text}
use cll.Node.Code.{Code, code_text}
use cll.Probe.Tunnel.{
  read_u16, read_u32, total_length, read_utf8_field, decode_raw_udp_tunnel_response,
}

client_field :
    (p : Text) (off : ℕ) (field post : Text)
    → drop off p ≡ field ++ post
    → off ≤ length p
    → length p < 2 ^ 64
    → is_utf8 field ≡ true
    → read_utf8_field p off (length field) ≡ ok (field, off + length field)
unfolding read_utf8_field
client_field p off field post e h l u =
    let fits : off + length field ≤ length p = field_fits p off field post e h in
    ground (arith, slice_at p off field post e h)

take_all : (xs : Text) → take (length xs) xs ≡ xs
take_all [] = refl
take_all (x ∷ xs) = ap (λ t. x ∷ t) (take_all xs)

module _ (session_id : Text) (status : Code) (payload : List ℕ) where
  abbrev behind : Text
  behind = session_id ++ (code_text status ++ payload)

  abbrev lengths : Text → Text
  lengths rest =
      to_be16 (length session_id)
      ++ (to_be16 (length (code_text status))
          ++ (to_be16 0 ++ (to_be16 0 ++ (to_be32 (length payload) ++ rest))))

  abbrev response : Text
  response = bytes "XAU1" ++ (1 ∷ 2 ∷ Tunnel.raw_status_code status ∷ 0 ∷ lengths behind)

  length-behind : length behind ≡ length session_id + length (code_text status) + length payload
  length-behind = omega (
    arith,
    length-append session_id (code_text status ++ payload),
    length-append (code_text status) payload,
  )

  module _ (hs : length session_id < 2 ^ 16) (hl : length payload < 2 ^ 32) where
    -- No length is cut off.
    response_shape : Tunnel.encode_raw_udp_tunnel_response session_id status payload ≡ response
    unfolding Tunnel.encode_raw_udp_tunnel_response
    response_shape =
        let a : min (length session_id) (2 ^ 16 - 1) ≡ length session_id = omega arith in
        let b : min (length (code_text status)) (2 ^ 16 - 1) ≡ length (code_text status) =
          omega (arith, length-code_text status) in
        let c : min (length payload) (2 ^ 32 - 1) ≡ length payload = omega arith in rw (a, b, c)

    read_lengths :
        (read_u16 response 8 ≡ ok (length session_id))
        × (read_u16 response 10 ≡ ok (length (code_text status)))
        × (read_u32 response 16 ≡ ok (length payload))
    unfolding read_u16 read_u32
    read_lengths = (
      rw (be16_at-to_be16 (take 8 response) (drop 10 response) (length session_id) hs),
      rw (
          be16_at-to_be16 (take 10 response) (drop 12 response) (length (code_text status))
            (omega (arith, length-code_text status))),
      rw (be32_at-to_be32 (take 16 response) (drop 20 response) (length payload) hl),
    )

    total_read :
        total_length (length session_id) (length (code_text status)) (length payload)
        ≡ ok (length response)
    unfolding total_length
    total_read = ground (arith, length-behind, length-code_text status)

    response_small : length response < 2 ^ 64
    response_small = omega (arith, length-behind, length-code_text status)

    -- The client reads back every response of the node: the session id, the status with its code, and
    -- the payload, for a session id that is UTF-8 and lengths within the width of their fields.
    pub decode-encode_response :
        is_utf8 session_id ≡ true
        → decode_raw_udp_tunnel_response
            (Tunnel.encode_raw_udp_tunnel_response session_id status payload)
          ≡ ok (record {
            status_code = Tunnel.raw_status_code status;
            session_id = session_id;
            status = code_text status;
            payload = payload;
          })
    unfolding decode_raw_udp_tunnel_response text_eq
    decode-encode_response us =
        let at1 = drop-field response 20 session_id (code_text status ++ payload) refl in
        let at2 = drop-field response (20 + length session_id) (code_text status) payload at1 in
        rw response_shape (
          rw
            (
              read_lengths.0,
              read_lengths.1,
              read_lengths.2,
              total_read,
              client_field response 20 session_id (code_text status ++ payload) refl
                  (omega (arith, length-behind)) response_small us,
              client_field response (20 + length session_id) (code_text status) payload at1
                  (omega (arith, length-behind)) response_small (code_text-is_utf8 status),
              at2,
              take_all payload,
            )
            (ground arith))
