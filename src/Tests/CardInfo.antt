-- ===== src/Tests/CardInfo.antt =====
-- Runs of the theorems on card information.
use warpshell.Base.{ℕ, List, [], ◌∷◌, ◌++◌, ◌≡◌, ◌≢◌, ◌↔◌, refl, arith, replicate}
use warpshell.Base.Bytes.{from_le_bytes, words_to_bytes}
use warpshell.Outcome.{ok, panic}
use warpshell.Based.{BasedCtrlOps, poll_reg_mask_sleep, position, thread_sleep, probe, is_expected}
use warpshell.Xdma.{ctrl_ops}
use warpshell.Cms.{
  get_cms_reg, get_card_info, get_mailbox_offset, request_card_info, init, set_cms_reg,
  expect_ready_host_status, get_reg_map_id, enable_hbm_temp_monitoring,
}
use warpshell.Cms.CardInfo.{card_info_try_from}
use warpshell.Cms.CardInfo.Item.{
  CardInfoItem, fan_presence_item, new_mac_scheme_item, card_rev_item, item_try_from,
}
use warpshell.Cms.CardInfo.Codec.{Encodes}
use warpshell.Cms.CardInfo.Codec.Items.{item_try_from_iff}
use warpshell.Cms.CardInfo.Messages.{Message, CutShort}
use warpshell.Cms.CardInfo.Messages.Verdict.{card_info_try_from_iff, card_info_try_from-panic_iff}
use warpshell.Base.{◌*◌, ◌≤◌, All, length}
use warpshell.Cms.CardInfo.Item.{card_name_item}
use warpshell.Cms.CardInfo.Fits.{Fits, card_info_try_from-Fits}
use warpshell.Cms.CardInfo.OldMac.{item_try_from-old_mac}
use warpshell.Cms.Mailbox.{Holds, Ready, get_card_info_lem}
use warpshell.Cms.Startup.{Started, init-Started}
use warpshell.Tests.Device.{card}

-- A fan presence and a MAC scheme
abbrev fan_and_mac : List ℕ
fan_and_mac = 0x2a ∷ 1 ∷ 0x50 ∷ 0x4b ∷ 8 ∷ 4 ∷ 0 ∷ 0 ∷ 0x0a ∷ 0x35 ∷ 6 ∷ 0x4c ∷ 0x34 ∷ []

abbrev fan_and_mac_items : List CardInfoItem
fan_and_mac_items =
    fan_presence_item 0x50 ∷ new_mac_scheme_item 4 (0 ∷ 0x0a ∷ 0x35 ∷ 6 ∷ 0x4c ∷ 0x34 ∷ []) ∷ []

parses : card_info_try_from fan_and_mac ≡ ok fan_and_mac_items
unfolding card_info_try_from item_try_from
parses = refl

panics_one_short : card_info_try_from (0x2a ∷ 2 ∷ 1 ∷ []) ≡ panic
unfolding card_info_try_from
panics_one_short = refl

card_info_try_from_example :
    (card_info_try_from fan_and_mac ≡ ok fan_and_mac_items) ↔ Message fan_and_mac fan_and_mac_items
card_info_try_from_example = card_info_try_from_iff fan_and_mac fan_and_mac_items

card_info_try_from-panic_example :
    (card_info_try_from (0x2a ∷ 2 ∷ 1 ∷ []) ≡ panic) ↔ CutShort (0x2a ∷ 2 ∷ 1 ∷ [])
card_info_try_from-panic_example = card_info_try_from-panic_iff (0x2a ∷ 2 ∷ 1 ∷ [])

item_try_from_example :
    (item_try_from (0x26 ∷ 2 ∷ 0x41 ∷ 0 ∷ 9 ∷ []) ≡ ok (card_rev_item (0x41 ∷ []))) ↔ (
      (bytes : List ℕ) × (rest : List ℕ) × Encodes (card_rev_item (0x41 ∷ [])) bytes
      × (0x26 ∷ 2 ∷ 0x41 ∷ 0 ∷ 9 ∷ [] ≡ bytes ++ rest))
item_try_from_example = item_try_from_iff (0x26 ∷ 2 ∷ 0x41 ∷ 0 ∷ 9 ∷ []) (card_rev_item (0x41 ∷ []))

item_try_from-old_mac_example :
    item_try_from (0x22 ∷ 18 ∷ replicate 18 0) ≢ ok (fan_presence_item 0)
item_try_from-old_mac_example =
    item_try_from-old_mac 0x22 (18 ∷ replicate 18 0) (fan_presence_item 0) (omega arith)
      (omega arith)

abbrev c : BasedCtrlOps (Unit {0})
c = ctrl_ops card (record { cdev = 0 }) 0x0400_0000

Ready-card : Ready c 0x2_9000 [] 0x0400_0003
unfolding get_mailbox_offset request_card_info get_cms_reg ctrl_ops from_le_bytes
    poll_reg_mask_sleep position thread_sleep probe is_expected
Ready-card = record { located = refl; requested = refl; no_error = refl; headed = refl }

Message-fan : Message (0x2a ∷ 1 ∷ 0x50 ∷ []) (fan_presence_item 0x50 ∷ [])
unfolding card_info_try_from item_try_from
Message-fan = (card_info_try_from_iff _ _).0 refl

Holds-fan : Holds c 0x2_9000 4 (0x0050_012a ∷ [])
unfolding ctrl_ops from_le_bytes
Holds-fan = (λ calls. refl, tt)

get_card_info_example : (get_card_info c []).0 ≡ ok (fan_presence_item 0x50 ∷ [])
unfolding words_to_bytes
get_card_info_example =
    get_card_info_lem c 0x2_9000 [] 0x0400_0003 (0x0050_012a ∷ []) (fan_presence_item 0x50 ∷ [])
      Ready-card Holds-fan (omega arith) Message-fan

starts : (init c []).0 ≡ ok tt
unfolding init set_cms_reg ctrl_ops expect_ready_host_status poll_reg_mask_sleep position
    thread_sleep probe is_expected from_le_bytes get_reg_map_id enable_hbm_temp_monitoring
starts = refl

init-Started_example : Started card (record { cdev = 0 }) 0x0400_0000 [] (init c []).1
init-Started_example = init-Started card (record { cdev = 0 }) 0x0400_0000 [] starts

abbrev named : List ℕ
named = 0x27 ∷ 3 ∷ 0x55 ∷ 0x35 ∷ 0 ∷ []

parses_name : card_info_try_from named ≡ ok (card_name_item (0x55 ∷ 0x35 ∷ []) ∷ [])
unfolding card_info_try_from item_try_from
parses_name = refl

card_info_try_from-Fits_example :
    All Fits (card_name_item (0x55 ∷ 0x35 ∷ []) ∷ [])
    × (3 * length (card_name_item (0x55 ∷ 0x35 ∷ []) ∷ []) ≤ length named)
card_info_try_from-Fits_example =
    card_info_try_from-Fits named (card_name_item (0x55 ∷ 0x35 ∷ []) ∷ [])
      (omega arith, (omega arith, (omega arith, (omega arith, (omega arith, tt))))) parses_name
