-- ===== src/Tests/Repository.antt =====
-- The unit tests of sw/rust/warpshell/src, each as what it asserts and a proof of that.
use warpshell.Base.{ℕ, List, [], ◌∷◌, ◌≡◌, true, refl, length, replicate, none}
use warpshell.System.{open_read_write, create, failed, Os}
use warpshell.Outcome.{ok, err}
use warpshell.Xdma.{OnceCellCtrlChannel, OnceCellDmaChannel, ctrl_get_or_init, dma_get_or_init}
use warpshell.Xdma.Error.{dev_node}
use warpshell.DmaBuffer.{Allocator, new, extend_from_slice}
use warpshell.Cms.CardInfo.{card_info_item, item_length_out_of_bounds, card_info_try_from}
use warpshell.Cms.CardInfo.Item.{
  fan_presence_item, new_mac_scheme_item, card_rev_item, card_name_item, serial_number_item,
  config_mode_item, total_power_avail_item, satellite_version_item, item_try_from,
}
use warpshell.Cms.CardInfo.Item.Key.{
  master_spi_x4, power_75w, incorrect_length, non_null_terminator,
}

abbrev pg348_example : List ℕ
pg348_example =
    0x27 ∷ 0x0d ∷ 0x41 ∷ 0x4c ∷ 0x56 ∷ 0x45 ∷ 0x4f ∷ 0x20 ∷ 0x55 ∷ 0x35 ∷ 0x30 ∷ 0x20 ∷ 0x50 ∷ 0x51
    ∷ 0x00 ∷ 0x26 ∷ 0x02 ∷ 0x31 ∷ 0x00 ∷ 0x21 ∷ 0x0d ∷ 0x35 ∷ 0x30 ∷ 0x31 ∷ 0x32 ∷ 0x31 ∷ 0x31
    ∷ 0x31 ∷ 0x39 ∷ 0x43 ∷ 0x53 ∷ 0x50 ∷ 0x4d ∷ 0x00 ∷ 0x4b ∷ 0x08 ∷ 0x04 ∷ 0x00 ∷ 0x00 ∷ 0x0a
    ∷ 0x35 ∷ 0x05 ∷ 0x0f ∷ 0xd8 ∷ 0x2a ∷ 0x01 ∷ 0x50 ∷ 0x2b ∷ 0x01 ∷ 0x07 ∷ 0x29 ∷ 0x01 ∷ 0x00
    ∷ 0x28 ∷ 0x04 ∷ 0x35 ∷ 0x2e ∷ 0x30 ∷ 0x00 ∷ []

abbrev ParsePg348ExampleCardInfo : Type 0
ParsePg348ExampleCardInfo =
    card_info_try_from pg348_example
    ≡ ok (
        card_name_item
          (0x41 ∷ 0x4c ∷ 0x56 ∷ 0x45 ∷ 0x4f ∷ 0x20 ∷ 0x55 ∷ 0x35 ∷ 0x30 ∷ 0x20 ∷ 0x50 ∷ 0x51 ∷ [])
        ∷ card_rev_item (0x31 ∷ [])
        ∷ serial_number_item
            (0x35 ∷ 0x30 ∷ 0x31 ∷ 0x32 ∷ 0x31 ∷ 0x31 ∷ 0x31 ∷ 0x39 ∷ 0x43 ∷ 0x53 ∷ 0x50 ∷ 0x4d ∷ [])
        ∷ new_mac_scheme_item 4 (0x00 ∷ 0x0a ∷ 0x35 ∷ 0x05 ∷ 0x0f ∷ 0xd8 ∷ [])
        ∷ fan_presence_item 0x50
        ∷ config_mode_item master_spi_x4
        ∷ total_power_avail_item power_75w
        ∷ satellite_version_item (0x35 ∷ 0x2e ∷ 0x30 ∷ [])
        ∷ [])

ParsePg348ExampleCardInfo-holds : ParsePg348ExampleCardInfo
unfolding card_info_try_from item_try_from
ParsePg348ExampleCardInfo-holds = refl

abbrev CardInfoSernumZeroLength : Type 0
CardInfoSernumZeroLength =
    card_info_try_from (0x21 ∷ 0x00 ∷ 0x31 ∷ 0x32 ∷ 0x33 ∷ 0x00 ∷ [])
    ≡ err (card_info_item incorrect_length)

CardInfoSernumZeroLength-holds : CardInfoSernumZeroLength
unfolding card_info_try_from item_try_from
CardInfoSernumZeroLength-holds = refl

abbrev CardInfoSernumLengthOutOfBounds : Type 0
CardInfoSernumLengthOutOfBounds =
    card_info_try_from (0x21 ∷ 0xff ∷ 0x31 ∷ 0x32 ∷ 0x33 ∷ 0x00 ∷ [])
    ≡ err item_length_out_of_bounds

CardInfoSernumLengthOutOfBounds-holds : CardInfoSernumLengthOutOfBounds
unfolding card_info_try_from
CardInfoSernumLengthOutOfBounds-holds = refl

abbrev CardInfoSernumNonNullTerminator : Type 0
CardInfoSernumNonNullTerminator =
    card_info_try_from (0x21 ∷ 0x04 ∷ 0x31 ∷ 0x32 ∷ 0x33 ∷ 0xff ∷ [])
    ≡ err (card_info_item non_null_terminator)

CardInfoSernumNonNullTerminator-holds : CardInfoSernumNonNullTerminator
unfolding card_info_try_from item_try_from
CardInfoSernumNonNullTerminator-holds = refl

-- An allocator that gives the capacity asked for
abbrev exact : Allocator
exact = record { with_capacity = λ n. n; grown = λ capacity len. len }

abbrev DmaBufferCapacityLen : Allocator → Type 0
DmaBufferCapacityLen a =
    let buf = new a 64 in
    let filled = extend_from_slice a buf (replicate 64 42) in
    (buf.capacity ≡ 4096)
    × (length buf.bytes ≡ 0)
    × (filled.capacity ≡ 4096)
    × (length filled.bytes ≡ 64)

DmaBufferCapacityLen-holds : DmaBufferCapacityLen exact
unfolding new extend_from_slice
DmaBufferCapacityLen-holds = (refl, refl, refl, refl)

abbrev DmaBufferAlignment : Allocator → Type 0
DmaBufferAlignment a =
    let buf = extend_from_slice a (new a 42) (replicate 42 0) in
    (buf.aligned ≡ true) × (length buf.bytes ≡ 42) × (buf.capacity ≡ 4096)

DmaBufferAlignment-holds : DmaBufferAlignment exact
unfolding new extend_from_slice
DmaBufferAlignment-holds = (refl, refl, refl)

module _ {E : Type 0} (os : Os E) where
  abbrev OneCellCtrlAbsent : Type 0
  OneCellCtrlAbsent =
      let absent : OnceCellCtrlChannel = record {
        cdev_path = "/a/file/that/doesnt/exist";
        channel = none;
      } in
      (e : E) × ((ctrl_get_or_init os absent []).0 ≡ err (dev_node e))

  OneCellCtrlAbsent-holds :
      (e : E)
      → os.opened [] (open_read_write "/a/file/that/doesnt/exist") ≡ failed e
      → OneCellCtrlAbsent
  unfolding ctrl_get_or_init
  OneCellCtrlAbsent-holds e h = (e, rw h refl)

  abbrev OneCellDmaAbsent : Type 0
  OneCellDmaAbsent =
      let absent : OnceCellDmaChannel = record {
        h2c_cdev_path = "/a/file/that/doesnt/exist/1";
        c2h_cdev_path = "/a/file/that/doesnt/exist/2";
        channel = none;
      } in
      (e : E) × ((dma_get_or_init os absent []).0 ≡ err (dev_node e))

  OneCellDmaAbsent-holds :
      (e : E) → os.opened [] (create "/a/file/that/doesnt/exist/1") ≡ failed e → OneCellDmaAbsent
  unfolding dma_get_or_init
  OneCellDmaAbsent-holds e h = (e, rw h refl)
