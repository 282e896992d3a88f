-- ===== src/Cms.antt =====
-- sw/rust/warpshell/src/cores/cms.rs: the trait `CmsOps` of the card management system, over any
-- control interface. Durations are in nanoseconds.
pub mod Reg
pub mod Mailbox
pub mod Rounds
pub mod Answered
pub mod Startup
pub mod Control
pub mod Calm
pub mod Costs
pub mod Live
pub mod CardInfo
use warpshell.Base.{
  ℕ, zero, suc, ◌+◌, ◌-◌, ◌*◌, ◌^◌, min, List, [], ◌++◌, Bool, true, false, bit_and, bit_or, ◌==◌,
  if◌then◌else◌, take,
}
use warpshell.Base.Bytes.{u64, to_le_bytes}
use warpshell.Outcome.{
  Outcome, ok, err, panic, Exec, ◌>>=◌, ◌>>◌, pure, raise, map_err, map_error, lift,
}
use warpshell.Based.{BasedError, BasedCtrlOps, poll_reg_mask_sleep}
use Reg.{
  CmsReg, microblaze_reset_n, reg_map_id, control, host_msg_offset, host_msg_error, host_status,
  cms_offset, control_reg_bit, max_agv_values_reset, mailbox_status, hbm_temp_monitor_enable,
  mailbox_msg_opcode, card_info, supported_reg_map_id,
}
use CardInfo.{CardInfoParseError, card_info_try_from}
use CardInfo.Item.{CardInfoItem}

pub data CmsError (E : Type 0) : Type 0 where
  based_error : BasedError E → CmsError E
  host_status_not_ready : CmsError E
  unsupported_reg_map_id : ℕ → CmsError E
  mailbox_not_available : CmsError E
  cms_reg_mask_not_as_expected : CmsError E
  host_msg_failed : ℕ → CmsError E
  card_info_parse_error : CardInfoParseError → CmsError E

module _ {E : Type 0} (c : BasedCtrlOps E) where
  unfoldable pub get_cms_reg : CmsReg → Exec (CmsError E) ℕ
  unfolding cms_offset
  get_cms_reg reg = map_err based_error (c.based_ctrl_read_u32 (cms_offset reg))

  unfoldable pub set_cms_reg : CmsReg → ℕ → Exec (CmsError E) Unit
  unfolding cms_offset
  set_cms_reg reg value = map_err based_error (c.based_ctrl_write_u32 (cms_offset reg) value)

  unfoldable pub get_cms_control_reg : Exec (CmsError E) ℕ
  unfolding get_cms_reg
  get_cms_control_reg = get_cms_reg control

  unfoldable pub set_cms_control_reg : ℕ → Exec (CmsError E) Unit
  unfolding set_cms_reg
  set_cms_control_reg value = set_cms_reg control value

  -- One try for each millisecond.
  unfoldable pub expect_ready_host_status : ℕ → Exec (CmsError E) ℕ
  unfolding cms_offset
  expect_ready_host_status ms =
      map_err (λ _. host_status_not_ready)
        (poll_reg_mask_sleep c (cms_offset host_status) 1 1 ms 1_000_000)

  unfoldable pub get_reg_map_id : Exec (CmsError E) ℕ
  unfolding get_cms_reg
  get_reg_map_id = get_cms_reg reg_map_id

  unfoldable pub enable_hbm_temp_monitoring : Exec (CmsError E) Unit
  unfolding get_cms_control_reg set_cms_control_reg control_reg_bit
  enable_hbm_temp_monitoring = do
    v ← get_cms_control_reg
    set_cms_control_reg (bit_or v (control_reg_bit hbm_temp_monitor_enable))

  unfoldable pub reset_sensor_max_avg : Exec (CmsError E) Unit
  unfolding get_cms_control_reg set_cms_control_reg control_reg_bit
  reset_sensor_max_avg = do
    v ← get_cms_control_reg
    set_cms_control_reg (bit_or v (control_reg_bit max_agv_values_reset))

  unfoldable pub init : Exec (CmsError E) Unit
  init = do
    set_cms_reg microblaze_reset_n 1
    expect_ready_host_status 1000
    v ← get_reg_map_id
    if v == supported_reg_map_id
        then enable_hbm_temp_monitoring
        else raise (unsupported_reg_map_id v)

  unfoldable pub get_mailbox_offset : Exec (CmsError E) ℕ
  unfolding get_cms_control_reg get_cms_reg control_reg_bit
  get_mailbox_offset = do
    v ← get_cms_control_reg
    if bit_and v (control_reg_bit mailbox_status) == 0
        then (do v ← get_cms_reg host_msg_offset; pure (u64 (0x2_8000 + v)))
        else raise mailbox_not_available

  -- The `while remaining > 0` of `get_card_info`, with the bytes read so far in `info_bytes`. With
  -- fuel `remaining` the loop has ended where the fuel has.
  unfoldable pub read_info : ℕ → ℕ → List ℕ → ℕ → ℕ → Exec (CmsError E) (List ℕ)
  read_info zero mbox_offset info_bytes data_offset remaining = pure info_bytes
  read_info (suc fuel) mbox_offset info_bytes data_offset remaining = elim (remaining == 0) [
    | true ↦ pure info_bytes
    | false ↦ do
      w ← map_err based_error (c.based_ctrl_read_u32 (u64 (mbox_offset + data_offset)))
      read_info fuel mbox_offset (info_bytes ++ take (min remaining 4) (to_le_bytes w))
          (data_offset + 4) (remaining - 4)
  ]

  -- Puts the request into the mailbox and waits until the core has answered it.
  unfoldable pub request_card_info : ℕ → Exec (CmsError E) Unit
  unfolding get_cms_control_reg set_cms_control_reg mailbox_msg_opcode control_reg_bit cms_offset
  request_card_info mbox_offset = do
    map_err based_error (c.based_ctrl_write_u32 mbox_offset (mailbox_msg_opcode card_info * 2 ^ 24))
    v ← get_cms_control_reg
    set_cms_control_reg (bit_or v (control_reg_bit mailbox_status))
    map_err based_error (
        poll_reg_mask_sleep c (cms_offset control) (control_reg_bit mailbox_status) 0 100
          10_000_000)
    pure tt

  unfoldable pub get_card_info : Exec (CmsError E) (List CardInfoItem)
  get_card_info = do
    mbox_offset ← get_mailbox_offset
    request_card_info mbox_offset
    error ← get_cms_reg host_msg_error
    if error == 0
        then (do
          word ← map_err based_error (c.based_ctrl_read_u32 mbox_offset)
          info_bytes ← read_info (bit_and word 0xfff) mbox_offset [] 4 (bit_and word 0xfff)
          lift (map_error card_info_parse_error (card_info_try_from info_bytes)))
        else raise (host_msg_failed error)
