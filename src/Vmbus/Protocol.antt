-- ===== src/Vmbus/Protocol.antt =====
-- The wire formats of src/vmbus/protocol.rs. `message` checks its body's length; the bodies here are shorter.
use tinyvmm.Prelude.{
  ℕ, zero, suc, ◌+◌, ◌-◌, ◌*◌, ◌/◌, ◌^◌, min, Bool, true, false, not, Option, none, some, List, [],
  ◌∷◌, ◌++◌, length, take, drop, replicate, ltb, if◌then◌else◌, from_le_bytes, to_le_bytes,
}

abbrev pub sint : ℕ
sint = 2

abbrev pub message_connection_id : ℕ
message_connection_id = 1

abbrev pub message_connection_id_4 : ℕ
message_connection_id_4 = 4

abbrev pub message_type_channel : ℕ
message_type_channel = 1

abbrev pub max_payload : ℕ
max_payload = 240

abbrev pub version : ℕ → ℕ → ℕ
version major minor = major * 2 ^ 16 + minor

abbrev pub version_5_0 : ℕ
version_5_0 = version 5 0

abbrev pub version_5_3 : ℕ
version_5_3 = version 5 3

abbrev pub offerchannel : ℕ
offerchannel = 1

abbrev pub requestoffers : ℕ
requestoffers = 3

abbrev pub alloffers_delivered : ℕ
alloffers_delivered = 4

abbrev pub openchannel : ℕ
openchannel = 5

abbrev pub openchannel_result : ℕ
openchannel_result = 6

abbrev pub closechannel : ℕ
closechannel = 7

abbrev pub gpadl_header_type : ℕ
gpadl_header_type = 8

abbrev pub gpadl_body_type : ℕ
gpadl_body_type = 9

abbrev pub gpadl_created_type : ℕ
gpadl_created_type = 10

abbrev pub gpadl_teardown : ℕ
gpadl_teardown = 11

abbrev pub gpadl_torndown_type : ℕ
gpadl_torndown_type = 12

abbrev pub initiate_contact_type : ℕ
initiate_contact_type = 14

abbrev pub version_response_type : ℕ
version_response_type = 15

abbrev pub unload : ℕ
unload = 16

abbrev pub unload_response_type : ℕ
unload_response_type = 17

abbrev pub modifychannel : ℕ
modifychannel = 22

abbrev pub modifychannel_response : ℕ
modifychannel_response = 24

abbrev pub gpadl_header_pfns : ℕ
gpadl_header_pfns = 28

abbrev pub gpadl_body_pfns : ℕ
gpadl_body_pfns = 16

abbrev pub channel_named_pipe_mode : ℕ
channel_named_pipe_mode = 0x10

abbrev pub pipe_type_message : ℕ
pipe_type_message = 4

-- The little-endian number in the `n` bytes from `off` on, where they are there.
abbrev pub number_at : ℕ → List ℕ → ℕ → Option ℕ
number_at n p off =
    if ltb (length p) (off + n) then none else some (from_le_bytes (take n (drop off p)))

abbrev pub u16_at : List ℕ → ℕ → Option ℕ
u16_at = number_at 2

abbrev pub u32_at : List ℕ → ℕ → Option ℕ
u32_at = number_at 4

abbrev pub u64_at : List ℕ → ℕ → Option ℕ
u64_at = number_at 8

-- 256 bytes, `MESSAGE_SIZE`.
abbrev pub message : ℕ → List ℕ → List ℕ
message msgtype body =
    to_le_bytes 4 message_type_channel
    ++ (((8 + length body) ∷ [])
        ++ (replicate 11 0
            ++ (to_le_bytes 4 msgtype
                ++ (replicate 4 0 ++ (body ++ replicate (232 - length body) 0)))))

abbrev pub words : List ℕ → List ℕ
words [] = []
words (v ∷ values) = to_le_bytes 4 v ++ words values

-- `u8::from` and `u32::from` of a Bool.
abbrev pub number_of : Bool → ℕ
number_of true = 1
number_of false = 0

unfoldable pub version_response : Bool → List ℕ
version_response supported =
    message version_response_type
      ((number_of supported ∷ 0 ∷ 0 ∷ 0 ∷ []) ++ to_le_bytes 4 message_connection_id)

pub record Offer : Type 0 where
  pub interface : List ℕ
  pub instance_id : List ℕ
  pub relid : ℕ
  pub connection_id : ℕ

unfoldable pub offer : Offer → List ℕ
offer o = message offerchannel (
    o.interface
    ++ (o.instance_id
        ++ (replicate 16 0
            ++ (to_le_bytes 2 channel_named_pipe_mode
                ++ (replicate 2 0
                    ++ (to_le_bytes 4 pipe_type_message
                        ++ (replicate 120 0
                            ++ (to_le_bytes 4 o.relid
                                ++ (replicate 4 0 ++ to_le_bytes 4 o.connection_id)))))))))

unfoldable pub all_offers_delivered : List ℕ
all_offers_delivered = message alloffers_delivered []

unfoldable pub gpadl_created : ℕ → ℕ → Bool → List ℕ
gpadl_created relid gpadl ok =
    message gpadl_created_type (words (relid ∷ gpadl ∷ number_of (not ok) ∷ []))

unfoldable pub gpadl_torndown : ℕ → List ℕ
gpadl_torndown gpadl = message gpadl_torndown_type (words (gpadl ∷ []))

unfoldable pub open_result : ℕ → ℕ → Bool → List ℕ
open_result relid openid ok =
    message openchannel_result (words (relid ∷ openid ∷ number_of (not ok) ∷ []))

unfoldable pub modify_channel_response : ℕ → Bool → List ℕ
modify_channel_response relid ok =
    message modifychannel_response (words (relid ∷ number_of (not ok) ∷ []))

unfoldable pub unload_response : List ℕ
unload_response = message unload_response_type []

-- `n` PFNs from byte `at` on; a missing one is left out.
abbrev pub pfns_from : ℕ → List ℕ → ℕ → List ℕ
pfns_from zero payload at = []
pfns_from (suc n) payload at = elim (u64_at payload at) [
  | none ↦ pfns_from n payload (at + 8)
  | some v ↦ v ∷ pfns_from n payload (at + 8)
]

unfoldable pub pfns : List ℕ → ℕ → ℕ → List ℕ
pfns payload at max = pfns_from (min ((length payload - at) / 8) max) payload at
