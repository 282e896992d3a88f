-- ===== src/Hbicap/Packet.antt =====
-- sw/rust/warpshell/src/cores/hbicap.rs: registers, bits, configuration packets and their words.
pub mod Fields
use warpshell.Base.{ℕ, ◌*◌, ◌^◌, bit_and, bit_or}
use warpshell.Base.Bytes.{u32}

abbrev pub max_burst_size : ℕ
max_burst_size = 256

abbrev pub icap_word_bytes : ℕ
icap_word_bytes = 4

abbrev pub dummy_cmd : ℕ
dummy_cmd = 0xffff_ffff

abbrev pub bus_width_sync_cmd : ℕ
bus_width_sync_cmd = 0x0000_00bb

abbrev pub bus_width_detect_cmd : ℕ
bus_width_detect_cmd = 0x1122_0044

abbrev pub sync_cmd : ℕ
sync_cmd = 0xaa99_5566

abbrev pub type1_n_words_mask : ℕ
type1_n_words_mask = 0x0000_07ff

abbrev pub type2_n_words_mask : ℕ
type2_n_words_mask = 0x07ff_ffff

pub data HbicapReg : Type 0 where
  global_int_en int_status ip_int_en size control status : HbicapReg
  write_fifo_vacancy read_fifo_occupancy abort_status : HbicapReg

-- `reg as u64`
unfoldable pub hbicap_offset : HbicapReg → ℕ
hbicap_offset global_int_en = 0x1c
hbicap_offset int_status = 0x20
hbicap_offset ip_int_en = 0x28
hbicap_offset size = 0x108
hbicap_offset control = 0x10c
hbicap_offset status = 0x110
hbicap_offset write_fifo_vacancy = 0x114
hbicap_offset read_fifo_occupancy = 0x118
hbicap_offset abort_status = 0x11c

pub data ControlRegBit : Type 0 where
  read fifo_clear sw_reset abort lock set_additional_read_delay : ControlRegBit

unfoldable pub control_reg_bit : ControlRegBit → ℕ
control_reg_bit read = 2
control_reg_bit fifo_clear = 4
control_reg_bit sw_reset = 8
control_reg_bit abort = 16
control_reg_bit lock = 32
control_reg_bit set_additional_read_delay = 2048

pub data StatusRegBit : Type 0 where
  idle eos : StatusRegBit

unfoldable pub status_reg_bit : StatusRegBit → ℕ
status_reg_bit idle = 1
status_reg_bit eos = 4

pub data PacketType : Type 0 where
  type1 type2 : PacketType

unfoldable pub packet_type_code : PacketType → ℕ
packet_type_code type1 = 0b001
packet_type_code type2 = 0b010

pub data Opcode : Type 0 where
  noop read write : Opcode

unfoldable pub opcode_code : Opcode → ℕ
opcode_code noop = 0b00
opcode_code Opcode.read = 0b01
opcode_code write = 0b10

pub data ConfigLogicReg : Type 0 where
  crc far fdri fdro cmd ctl0 mask stat lout cor0 mfwr cbc idcode axss cor1 : ConfigLogicReg
  wbstar timer bootsts ctl1 bspi : ConfigLogicReg

unfoldable pub config_logic_reg_code : ConfigLogicReg → ℕ
config_logic_reg_code crc = 0b00000
config_logic_reg_code far = 0b00001
config_logic_reg_code fdri = 0b00010
config_logic_reg_code fdro = 0b00011
config_logic_reg_code cmd = 0b00100
config_logic_reg_code ctl0 = 0b00101
config_logic_reg_code mask = 0b00110
config_logic_reg_code stat = 0b00111
config_logic_reg_code lout = 0b01000
config_logic_reg_code cor0 = 0b01001
config_logic_reg_code mfwr = 0b01011
config_logic_reg_code cbc = 0b01010
config_logic_reg_code idcode = 0b01100
config_logic_reg_code axss = 0b01101
config_logic_reg_code cor1 = 0b01110
config_logic_reg_code wbstar = 0b10000
config_logic_reg_code timer = 0b10001
config_logic_reg_code bootsts = 0b10110
config_logic_reg_code ctl1 = 0b11000
config_logic_reg_code bspi = 0b11111

pub data CmdRegCode : Type 0 where
  null start desync : CmdRegCode

unfoldable pub cmd_reg_code : CmdRegCode → ℕ
cmd_reg_code null = 0b00000
cmd_reg_code start = 0b00101
cmd_reg_code desync = 0b01101

pub record Type1Packet : Type 0 where
  pub opcode : Opcode
  pub reg : ConfigLogicReg
  pub n_words : ℕ

-- `Type1Packet::new` and `Type1Packet::noop`
abbrev pub new_type1 : Opcode → ConfigLogicReg → ℕ → Type1Packet
new_type1 opcode reg n_words = record { opcode = opcode; reg = reg; n_words = n_words }

abbrev pub noop_packet : Type1Packet
noop_packet = record { opcode = noop; reg = crc; n_words = 0 }

pub record Type2Packet : Type 0 where
  pub opcode : Opcode
  pub n_words : ℕ

abbrev pub new_type2 : Opcode → ℕ → Type2Packet
new_type2 opcode n_words = record { opcode = opcode; n_words = n_words }

-- `<<` on `u32`
abbrev pub shl : ℕ → ℕ → ℕ
shl x k = u32 (x * 2 ^ k)

-- `impl From<Type1Packet> for u32`
unfoldable pub type1_word : Type1Packet → ℕ
unfolding packet_type_code opcode_code config_logic_reg_code
type1_word p =
    bit_or
      (bit_or (bit_or (shl (packet_type_code type1) 29) (shl (opcode_code p.opcode) 27))
        (shl (config_logic_reg_code p.reg) 13))
      (bit_and p.n_words type1_n_words_mask)

-- `impl From<Type2Packet> for u32`
unfoldable pub type2_word : Type2Packet → ℕ
unfolding packet_type_code opcode_code
type2_word p =
    bit_or (bit_or (shl (packet_type_code type2) 29) (shl (opcode_code p.opcode) 27))
      (bit_and p.n_words type2_n_words_mask)
