-- ===== src/Tests/Frames.antt =====
-- A packet and a response.
use cll.Base.{◌≡◌, refl, [], ◌∷◌, none, arith}
use cll.Base.Outcome.{ok}
use cll.Text.{Text, bytes, is_utf8, trim}
use cll.Node.Code.{Code, code_text}
use cll.Node.Tunnel.{parse_raw_udp_tunnel_frame, encode_raw_udp_tunnel_response, raw_status_code}
use cll.Probe.Tunnel.{encode_raw_udp_tunnel_frame, decode_raw_udp_tunnel_response}
use cll.Probe.Tunnel.Packet.{parse-encode_frame}
use cll.Probe.Tunnel.Response.{decode-encode_response}

parse-encode_frame_example :
    (f : Text) × (encode_raw_udp_tunnel_frame (bytes "s1") [] (bytes "10.0.0.1") 99 (1 ∷ 2 ∷ [])
      ≡ ok f)
    × (parse_raw_udp_tunnel_frame f
        ≡ ok (record {
          session_id = bytes "s1";
          target_id = none;
          host = bytes "10.0.0.1";
          port = 99;
          payload = 1 ∷ 2 ∷ [];
        }))
unfolding is_utf8 trim
parse-encode_frame_example =
    parse-encode_frame (bytes "s1") [] (bytes "10.0.0.1") 99 (1 ∷ 2 ∷ []) (omega arith)
      (omega arith) (omega arith) (omega arith) (omega arith) refl refl refl refl refl (omega arith)

decode-encode_response_example :
    decode_raw_udp_tunnel_response
      (encode_raw_udp_tunnel_response (bytes "s1") Code.forwarded (7 ∷ []))
    ≡ ok (record {
      status_code = raw_status_code Code.forwarded;
      session_id = bytes "s1";
      status = code_text Code.forwarded;
      payload = 7 ∷ [];
    })
unfolding is_utf8
decode-encode_response_example =
    decode-encode_response (bytes "s1") Code.forwarded (7 ∷ []) (omega arith) (omega arith) refl
