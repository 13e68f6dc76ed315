-- ===== src/Radio/Messages.antt =====
-- The messages of the radio protocol of src/proto/radio.c together, from encoder to decoder.
use melodi.Radio.Kind
use melodi.Radio.Stream.{Stream, deliveries}
use melodi.Radio.Stream.Payload.{IsIdle}
use melodi.Radio.Configure.{
  Configure, IsConfigure, encode_configure, decode_configure, decode_configure-encode_configure,
}
use melodi.Radio.Transmit.{
  Transmit, IsTransmit, encode_transmit, decode_transmit, decode_transmit-encode_transmit,
}
use melodi.Radio.Receive.{
  Receive, IsReceive, encode_receive, decode_receive, decode_receive-encode_receive,
}
use melodi.Radio.Info.{Info, IsInfo, encode_info, decode_info, decode_info-encode_info}
use melodi.Radio.Status.{
  Status, IsStatus, encode_status, decode_status, decode_status-encode_status,
}
use melodi.Radio.Report.{
  Report, IsReport, encode_result, decode_result, decode_result-encode_result,
}
use melodi.Base.{Result, ok, ℕ, ◌≡◌, List, [], ◌∷◌}

pub data Message : Type 0 where
  configuration : Configure → Message
  request : Transmit → Message
  packet : Receive → Message
  radio : Info → Message
  state : Status → Message
  report : Report → Message

-- The fields lie in their C types, and the texts are printable.
abbrev pub IsMessage : Message → Type 0
IsMessage (configuration c) = IsConfigure c
IsMessage (request m) = IsTransmit m
IsMessage (packet m) = IsReceive m
IsMessage (radio m) = IsInfo m
IsMessage (state m) = IsStatus m
IsMessage (report m) = IsReport m

abbrev pub encode_message : ℕ → Message → Result (List ℕ)
encode_message capacity (configuration c) = encode_configure capacity c
encode_message capacity (request m) = encode_transmit capacity m
encode_message capacity (packet m) = encode_receive capacity m
encode_message capacity (radio m) = encode_info capacity m
encode_message capacity (state m) = encode_status capacity m
encode_message capacity (report m) = encode_result capacity m

abbrev pub kind_of : Message → ℕ
kind_of (configuration c) = Kind.configure
kind_of (request m) = Kind.transmit
kind_of (packet m) = Kind.receive
kind_of (radio m) = Kind.info
kind_of (state m) = Kind.status
kind_of (report m) = Kind.result

-- A payload is decoded to the message by the decoder of its kind.
abbrev pub Decodes : List ℕ → Message → Type 0
Decodes payload (configuration c) = decode_configure payload ≡ ok c
Decodes payload (request m) = decode_transmit payload ≡ ok m
Decodes payload (packet m) = decode_receive payload ≡ ok m
Decodes payload (radio m) = decode_info payload ≡ ok m
Decodes payload (state m) = decode_status payload ≡ ok m
Decodes payload (report m) = decode_result payload ≡ ok m

-- A message of any of the six kinds with a payload, with its fields in range and printable texts,
-- which its encoder accepts, reaches an idle receiver as exactly one frame of its kind, and its decoder
-- gives the message back.
pub deliveries-encode_message :
    (capacity : ℕ) (m : Message) (t : Stream) {b : List ℕ}
    → IsMessage m
    → IsIdle t
    → encode_message capacity m ≡ ok b
    → (payload : List ℕ) × (deliveries t b ≡ (kind_of m, payload) ∷ []) × Decodes payload m
deliveries-encode_message capacity (configuration c) t v idle e =
    decode_configure-encode_configure capacity c t v idle e
deliveries-encode_message capacity (request m) t v idle e =
    decode_transmit-encode_transmit capacity m t v idle e
deliveries-encode_message capacity (packet m) t v idle e =
    decode_receive-encode_receive capacity m t v idle e
deliveries-encode_message capacity (radio m) t v idle e =
    decode_info-encode_info capacity m t v idle e
deliveries-encode_message capacity (state m) t v idle e =
    decode_status-encode_status capacity m t v idle e
deliveries-encode_message capacity (report m) t v idle e =
    decode_result-encode_result capacity m t v idle e
