-- ===== src/Net/Dhcp/Client.antt =====
-- The messages that a client of src/net/dhcp.rs sends, with any options in any order, and what RFC 2132 has
-- them mean: of the options with a code and of its length, the last counts.
use tinyvmm.Prelude.{
  ℕ, ◌≡◌, ◌≢◌, Option, none, some, List, [], ◌∷◌, ◌++◌, All, length, ◌==◌, if◌then◌else◌,
}
use tinyvmm.Net.Wire.{Mac, Ip, ip_bytes, mac_bytes}
use tinyvmm.Net.Dhcp.{
  magic_cookie, bootrequest, htype_ethernet, hlen_ethernet, opt_pad, opt_message_type,
  opt_requested_ip, opt_server_id, opt_end,
}

pub data Item : Type 0 where
  pad : Item
  option : ℕ → List ℕ → Item

-- An option has a code of its own, neither that of a pad nor that of the end.
abbrev pub IsOption : Item → Type 0
IsOption pad = Unit
IsOption (option code payload) = (code ≢ opt_pad) × (code ≢ opt_end)

-- The options stop with the message, or at an end that anything may follow.
pub data Ending : Type 0 where
  stops : Ending
  ends : List ℕ → Ending

abbrev pub ending_bytes : Ending → List ℕ
ending_bytes stops = []
ending_bytes (ends rest) = opt_end ∷ rest

abbrev pub item_bytes : List Item → Ending → List ℕ
item_bytes [] ending = ending_bytes ending
item_bytes (pad ∷ items) ending = opt_pad ∷ item_bytes items ending
item_bytes (option code payload ∷ items) ending =
    code ∷ length payload ∷ (payload ++ item_bytes items ending)

-- The fields of the header, the bytes between the hardware address and the cookie, and the options.
pub record ClientMessage : Type 0 where
  pub hops : ℕ
  pub xid : Ip
  pub secs0 : ℕ
  pub secs1 : ℕ
  pub flags0 : ℕ
  pub flags1 : ℕ
  pub ciaddr : Ip
  pub yiaddr : Ip
  pub siaddr : Ip
  pub giaddr : Ip
  pub mac : Mac
  pub names : List ℕ
  pub items : List Item
  pub ending : Ending

abbrev pub header_bytes : ClientMessage → List ℕ
header_bytes c =
    (bootrequest ∷ htype_ethernet ∷ hlen_ethernet ∷ c.hops ∷ [])
    ++ (ip_bytes c.xid
        ++ ((c.secs0 ∷ c.secs1 ∷ c.flags0 ∷ c.flags1 ∷ [])
            ++ (ip_bytes c.ciaddr
                ++ (ip_bytes c.yiaddr
                    ++ (ip_bytes c.siaddr ++ (ip_bytes c.giaddr ++ mac_bytes c.mac))))))

abbrev pub client_bytes : ClientMessage → List ℕ
client_bytes c = header_bytes c ++ (c.names ++ (magic_cookie ++ item_bytes c.items c.ending))

-- 10 bytes after the hardware address, the server's name and the boot file.
pub record ClientFits (c : ClientMessage) : Type 0 where
  pub names_length : length c.names ≡ 202
  pub each : All IsOption c.items

abbrev pub later {ℓ} : {A : Type ℓ} → Option A → Option A → Option A
later (some a) before = some a
later none before = before

-- The payload of the last option with a code, read by `read`, which gives none for one that it cannot read.
abbrev pub last_option : {A : Type 0} → ℕ → (List ℕ → Option A) → List Item → Option A
last_option code read [] = none
last_option code read (pad ∷ items) = last_option code read items
last_option code read (option other payload ∷ items) =
    later (last_option code read items) (if other == code then read payload else none)

abbrev pub one_byte : List ℕ → Option ℕ
one_byte (a ∷ []) = some a
one_byte other = none

abbrev pub four_bytes : List ℕ → Option Ip
four_bytes (a ∷ b ∷ c ∷ d ∷ []) = some (record { i0 = a; i1 = b; i2 = c; i3 = d })
four_bytes other = none

abbrev pub asked_type : ClientMessage → Option ℕ
asked_type c = last_option opt_message_type one_byte c.items

abbrev pub asked_ip : ClientMessage → Option Ip
asked_ip c = last_option opt_requested_ip four_bytes c.items

abbrev pub asked_server : ClientMessage → Option Ip
asked_server c = last_option opt_server_id four_bytes c.items
