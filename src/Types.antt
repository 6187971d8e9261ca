-- ===== src/Types.antt =====
-- include/jay/j1939_type.hpp: the constants of the protocol and the integer types.
-- An integer of w bits is a number below 2 ^ w.
use Prim.Native.Nat.{ℕ}

-- typedef std::uint8_t address_t
abbrev pub Address : Type 0
Address = ℕ

-- typedef std::uint64_t name_t
abbrev pub NameT : Type 0
NameT = ℕ

-- typedef std::uint32_t pgn_t
abbrev pub Pgn : Type 0
Pgn = ℕ

-- Highest address that a controller can own.
abbrev pub j1939_max_unicast_addr : Address
j1939_max_unicast_addr = 0xFD

-- Idle or null address.
abbrev pub j1939_idle_addr : Address
j1939_idle_addr = 0xFE

-- Broadcast, or no address.
abbrev pub j1939_no_addr : Address
j1939_no_addr = 0xFF

abbrev pub Uint8 : Type 0
Uint8 = ℕ

-- Highest PDU format of an addressable message.
abbrev pub pf_pdu1_max : Uint8
pf_pdu1_max = 0xEF

abbrev pub pf_address_claim : Uint8
pf_address_claim = 0xEE

abbrev pub pf_request : Uint8
pf_request = 0xEA

abbrev pub j1939_pgn_request : Pgn
j1939_pgn_request = 0x0EA00

abbrev pub j1939_pgn_address_claimed : Pgn
j1939_pgn_address_claimed = 0x0EE00

abbrev pub j1939_pgn_address_commanded : Pgn
j1939_pgn_address_commanded = 0x0FED8

abbrev pub j1939_pgn_pdu1_max : Pgn
j1939_pgn_pdu1_max = 0x3FF00
