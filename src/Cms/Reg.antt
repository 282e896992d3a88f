-- ===== src/Cms/Reg.antt =====
-- sw/rust/warpshell/src/cores/cms.rs: registers, control bits and message codes of the card
-- management system.
use warpshell.Base.{ℕ}

pub data CmsReg : Type 0 where
  microblaze_reset_n reg_map_id fw_version cms_status error profile_name control : CmsReg
  pex12v_max pex12v_avg pex12v_inst pex3v3_max pex3v3_avg pex3v3_inst aux12v_max : CmsReg
  aux12v_avg aux12v_inst sys5v5_max sys5v5_avg sys5v5_inst vcc1v8_max vcc1v8_avg : CmsReg
  vcc1v8_inst mgt0v9a_vcc_max mgt0v9a_vcc_avg mgt0v9a_vcc_inst mgta_vtt_max : CmsReg
  mgta_vtt_avg mgta_vtt_inst pex12v_current_in_max pex12v_current_in_avg : CmsReg
  pex12v_current_in_inst aux12v_current_in_max aux12v_current_in_avg : CmsReg
  aux12v_current_in_inst vcc_int_max vcc_int_avg vcc_int_inst vcc_int_current_max : CmsReg
  vcc_int_current_avg vcc_int_current_inst fpga_temp_max fpga_temp_avg fpga_temp_inst : CmsReg
  hbm0_temp_max hbm0_temp_avg hbm0_temp_inst vcc3v3_max vcc3v3_avg vcc3v3_inst : CmsReg
  pex3v3_current_in_max pex3v3_current_in_avg pex3v3_current_in_inst : CmsReg
  vcc_int_io_current_max vcc_int_io_current_avg vcc_int_io_current_inst hbm1_temp_max : CmsReg
  hbm1_temp_avg hbm1_temp_inst vcc_int_temp_max vcc_int_temp_avg vcc_int_temp_inst : CmsReg
  host_msg_offset host_msg_error host_status : CmsReg

-- `reg as u64`
unfoldable pub cms_offset : CmsReg → ℕ
cms_offset microblaze_reset_n = 0x2_0000
cms_offset reg_map_id = 0x2_8000
cms_offset fw_version = 0x2_8004
cms_offset cms_status = 0x2_8008
cms_offset error = 0x2_800c
cms_offset profile_name = 0x2_8014
cms_offset control = 0x2_8018
cms_offset pex12v_max = 0x2_8020
cms_offset pex12v_avg = 0x2_8024
cms_offset pex12v_inst = 0x2_8028
cms_offset pex3v3_max = 0x2_802c
cms_offset pex3v3_avg = 0x2_8030
cms_offset pex3v3_inst = 0x2_8034
cms_offset aux12v_max = 0x2_8044
cms_offset aux12v_avg = 0x2_8048
cms_offset aux12v_inst = 0x2_804c
cms_offset sys5v5_max = 0x2_805c
cms_offset sys5v5_avg = 0x2_8060
cms_offset sys5v5_inst = 0x2_8064
cms_offset vcc1v8_max = 0x2_8074
cms_offset vcc1v8_avg = 0x2_8078
cms_offset vcc1v8_inst = 0x2_807c
cms_offset mgt0v9a_vcc_max = 0x2_8098
cms_offset mgt0v9a_vcc_avg = 0x2_809c
cms_offset mgt0v9a_vcc_inst = 0x2_80a0
cms_offset mgta_vtt_max = 0x2_80b0
cms_offset mgta_vtt_avg = 0x2_80b4
cms_offset mgta_vtt_inst = 0x2_80b8
cms_offset pex12v_current_in_max = 0x2_80c8
cms_offset pex12v_current_in_avg = 0x2_80cc
cms_offset pex12v_current_in_inst = 0x2_80d0
cms_offset aux12v_current_in_max = 0x2_80d4
cms_offset aux12v_current_in_avg = 0x2_80d8
cms_offset aux12v_current_in_inst = 0x2_80dc
cms_offset vcc_int_max = 0x2_80e0
cms_offset vcc_int_avg = 0x2_80e4
cms_offset vcc_int_inst = 0x2_80e8
cms_offset vcc_int_current_max = 0x2_80ec
cms_offset vcc_int_current_avg = 0x2_80f0
cms_offset vcc_int_current_inst = 0x2_80f4
cms_offset fpga_temp_max = 0x2_80f8
cms_offset fpga_temp_avg = 0x2_80fc
cms_offset fpga_temp_inst = 0x2_8100
cms_offset hbm0_temp_max = 0x2_8260
cms_offset hbm0_temp_avg = 0x2_8264
cms_offset hbm0_temp_inst = 0x2_8268
cms_offset vcc3v3_max = 0x2_826c
cms_offset vcc3v3_avg = 0x2_8270
cms_offset vcc3v3_inst = 0x2_8274
cms_offset pex3v3_current_in_max = 0x2_8278
cms_offset pex3v3_current_in_avg = 0x2_827c
cms_offset pex3v3_current_in_inst = 0x2_8280
cms_offset vcc_int_io_current_max = 0x2_8284
cms_offset vcc_int_io_current_avg = 0x2_8288
cms_offset vcc_int_io_current_inst = 0x2_828c
cms_offset hbm1_temp_max = 0x2_82b4
cms_offset hbm1_temp_avg = 0x2_82b8
cms_offset hbm1_temp_inst = 0x2_82bc
cms_offset vcc_int_temp_max = 0x2_82cc
cms_offset vcc_int_temp_avg = 0x2_82d0
cms_offset vcc_int_temp_inst = 0x2_82d4
cms_offset host_msg_offset = 0x2_8300
cms_offset host_msg_error = 0x2_8304
cms_offset host_status = 0x2_830c

pub data ControlRegBit : Type 0 where
  max_agv_values_reset error_reg_reset mailbox_status microblaze_reset : ControlRegBit
  qsfp_gpio_enable hbm_temp_monitor_enable : ControlRegBit

unfoldable pub control_reg_bit : ControlRegBit → ℕ
control_reg_bit max_agv_values_reset = 1
control_reg_bit error_reg_reset = 2
control_reg_bit mailbox_status = 32
control_reg_bit microblaze_reset = 64
control_reg_bit qsfp_gpio_enable = 67_108_864
control_reg_bit hbm_temp_monitor_enable = 134_217_728

pub data MailboxMsgOpcode : Type 0 where
  card_info : MailboxMsgOpcode

unfoldable pub mailbox_msg_opcode : MailboxMsgOpcode → ℕ
mailbox_msg_opcode card_info = 4

abbrev pub supported_reg_map_id : ℕ
supported_reg_map_id = 0x7473_6574
