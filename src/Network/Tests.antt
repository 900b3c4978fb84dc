-- ===== src/Network/Tests.antt =====
-- The model of network/WebSocket.cpp on small frames.
use cs16mem_model_vm.Base.{
  ℕ, ◌+◌, ◌^◌, ◌≤◌, ◌≡◌, ◌⊎◌, refl, true, false, some, List, [], ◌∷◌, arith,
}
use cs16mem_model_vm.Network.WebSocket.{
  ok, length_error, Packet, join8, payload_length, Key, mask_key, read_payload, read_rest,
  client_to_server_packet, convert_to_packet,
}
use cs16mem_model_vm.Network.WebSocket.Parts.{AreBytes, IsKey}
use cs16mem_model_vm.Network.WebSocket.RoundTrip.{
  text, client_frame, client_to_server_packet-convert_to_packet,
  client_to_server_packet-client_frame,
}
use cs16mem_model_vm.Network.WebSocket.Total.{
  Fits, declared, key_length, client_to_server_packet_lem,
}

abbrev hello : List ℕ
hello = 72 ∷ 101 ∷ 108 ∷ 108 ∷ 111 ∷ []

-- The example frames of RFC 6455, section 5.7.
abbrev rfc_key : Key
rfc_key = record { k0 = 55; k1 = 250; k2 = 33; k3 = 61 }

abbrev rfc_masked : List ℕ
rfc_masked = 129 ∷ 133 ∷ 55 ∷ 250 ∷ 33 ∷ 61 ∷ 127 ∷ 159 ∷ 77 ∷ 81 ∷ 88 ∷ []

frame_code : Unit {0}
unfolding join8 payload_length mask_key read_payload read_rest client_to_server_packet
    convert_to_packet
frame_code = tt

plain_hello : convert_to_packet hello ≡ 129 ∷ 5 ∷ hello
unfolding frame_code
plain_hello = refl

masked_hello : client_to_server_packet rfc_masked ≡ ok (text true hello)
unfolding frame_code
masked_hello = refl

cut_off_hello :
    client_to_server_packet (129 ∷ 133 ∷ 55 ∷ 250 ∷ [])
    ≡ ok (record { payload = []; opcode = 1; fin = true; mask = true; failed_parse = true })
unfolding frame_code
cut_off_hello = refl

-- A frame that declares 2^64 - 1 bytes passes the size check.
abbrev long_frame : List ℕ
long_frame = 129 ∷ 127 ∷ 255 ∷ 255 ∷ 255 ∷ 255 ∷ 255 ∷ 255 ∷ 255 ∷ 255 ∷ []

long_frame_throws : client_to_server_packet long_frame ≡ length_error
unfolding frame_code
long_frame_throws = refl

hello-AreBytes : AreBytes hello
hello-AreBytes = (omega arith, (omega arith, (omega arith, (omega arith, (omega arith, tt)))))

rfc_key-IsKey : IsKey rfc_key
rfc_key-IsKey = record {
  low0 = omega arith;
  low1 = omega arith;
  low2 = omega arith;
  low3 = omega arith;
}

client_to_server_packet-convert_to_packet_example :
    client_to_server_packet (convert_to_packet hello) ≡ ok (text false hello)
client_to_server_packet-convert_to_packet_example =
    client_to_server_packet-convert_to_packet hello (omega arith)

client_to_server_packet-client_frame_example :
    client_to_server_packet (client_frame rfc_key hello) ≡ ok (text true hello)
client_to_server_packet-client_frame_example =
    client_to_server_packet-client_frame rfc_key hello rfc_key-IsKey hello-AreBytes (omega arith)

client_to_server_packet_lem_example :
    ((p : Packet) × ((client_to_server_packet hello ≡ ok p) × Fits hello p))
    ⊎ ((client_to_server_packet hello ≡ length_error)
        × ((len : ℕ) × ((offset : ℕ) × ((declared hello ≡ ok (some (len, offset)))
                × (2 ^ 64 ≤ offset + key_length hello + len)))))
client_to_server_packet_lem_example = client_to_server_packet_lem hello hello-AreBytes (omega arith)
