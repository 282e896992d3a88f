-- ===== src/Shell/Program.antt =====
-- `program_user_image` of sw/rust/warpshell/src/shells/xilinx_u55n_xdma_std.rs and the firewalls.
use warpshell.Base.{ℕ, List, Bool, ◌≡◌, ◌≢◌, refl, ◌∙◌}
use warpshell.System.{Call, Os}
use warpshell.Outcome.{Outcome, ok, err, panic, Exec, map_err, map_err-ok}
use warpshell.Based.{BasedCtrlOps, BasedDmaOps, xdma_error, reg_mask_not_as_expected}
use warpshell.Hbicap.{HbicapError, based_error, from_secs, write_bitstream, poll_done_every_10ms}
use warpshell.AxiFirewall.{AxiFirewallError, block_mi}
use warpshell.Shell.{
  XilinxU55nXdmaStd, on_ctrl, on_dma, ctrl_axi_firewall_core, dma_axi_firewall_core, hbicap_ctrl_if,
  hbicap_dma_if, make_idle, or_abort, program_user_image, axi_firewall, hbicap,
}
use warpshell.Shell.Quiet.{
  unblocks, Quiet, must_succeed, Quiet-block_ctrl, Quiet-block_dma, Quiet-write_bitstream,
  Quiet-poll_done, Quiet-abort,
}

module _ {E : Type 0} (os : Os E) (sh : XilinxU55nXdmaStd) (debug : Bool) where
  abbrev c : BasedCtrlOps E
  c = on_ctrl os sh hbicap_ctrl_if

  abbrev d : BasedDmaOps E
  d = on_dma os sh hbicap_dma_if

  abbrev block_ctrl : Exec (AxiFirewallError E) Unit
  block_ctrl = block_mi (on_ctrl os sh ctrl_axi_firewall_core)

  abbrev block_dma : Exec (AxiFirewallError E) Unit
  block_dma = block_mi (on_ctrl os sh dma_axi_firewall_core)

  abbrev wait_done : Exec (HbicapError E) ℕ
  wait_done = poll_done_every_10ms c d (from_secs 10)

  Quiet-or_abort :
      (polled : Outcome (HbicapError E) ℕ)
      → Quiet sh.ctrl_channel.cdev (or_abort os sh debug polled)
  unfolding or_abort
  Quiet-or_abort (ok tries) calls = refl
  Quiet-or_abort (err (based_error (reg_mask_not_as_expected offset mask expected))) calls =
      Quiet-abort os sh debug calls
  Quiet-or_abort (err (based_error (xdma_error e))) calls = refl
  Quiet-or_abort panic calls = refl

  Quiet-make_idle : Quiet sh.ctrl_channel.cdev (make_idle os sh debug)
  unfolding make_idle
  Quiet-make_idle calls =
      let polled = poll_done_every_10ms c d (from_secs 10) calls in
      Quiet-or_abort polled.0 polled.1 ∙ Quiet-poll_done os sh (from_secs 10) calls

  module _ (image : List ℕ) (calls : List Call) where
    -- The logs between the steps
    abbrev pub idle_calls : List Call
    idle_calls = (make_idle os sh debug calls).1

    abbrev pub ctrl_blocked_calls : List Call
    ctrl_blocked_calls = (block_mi (on_ctrl os sh ctrl_axi_firewall_core) idle_calls).1

    abbrev pub blocked_calls : List Call
    blocked_calls = (block_mi (on_ctrl os sh dma_axi_firewall_core) ctrl_blocked_calls).1

    abbrev pub streamed_calls : List Call
    streamed_calls = (write_bitstream c d image blocked_calls).1

    abbrev pub done_calls : List Call
    done_calls = (poll_done_every_10ms c d (from_secs 10) streamed_calls).1

    -- The image has been written to an idle core behind blocked firewalls, and the core has
    -- reported that it is done.
    pub record Programmed : Type 0 where
      pub idle : (make_idle os sh debug calls).0 ≡ ok tt
      pub ctrl_blocked : (block_mi (on_ctrl os sh ctrl_axi_firewall_core) idle_calls).0 ≡ ok tt
      pub dma_blocked :
          (block_mi (on_ctrl os sh dma_axi_firewall_core) ctrl_blocked_calls).0 ≡ ok tt
      pub streamed : (write_bitstream c d image blocked_calls).0 ≡ ok tt
      pub tries : ℕ
      pub reported : (poll_done_every_10ms c d (from_secs 10) streamed_calls).0 ≡ ok tries

    -- A run that writes to the unblock register of either firewall, whether it succeeds or fails
    -- later, has made the core idle, blocked both firewalls, written the image and seen the core
    -- report that it is done, each with success.
    pub unblocks_only_when_Programmed :
        unblocks sh.ctrl_channel.cdev (program_user_image os sh debug image calls).1
          ≢ unblocks sh.ctrl_channel.cdev calls
        → Programmed
    unfolding program_user_image
    unblocks_only_when_Programmed ne =
        let file = sh.ctrl_channel.cdev in
        let (u, idle, ne₁) = must_succeed file (make_idle os sh debug) _ calls Quiet-make_idle ne in
        let (u₁, one, ne₂) =
          must_succeed file (map_err axi_firewall block_ctrl) _ idle_calls (Quiet-block_ctrl os sh)
            ne₁ in
        let (u₂, two, ne₃) =
          must_succeed file (map_err axi_firewall block_dma) _ ctrl_blocked_calls
            (Quiet-block_dma os sh) ne₂ in
        let (u₃, three, ne₄) =
          must_succeed file (map_err hbicap (write_bitstream c d image)) _ blocked_calls
            (Quiet-write_bitstream os sh image) ne₃ in
        let (t, four, ne₅) =
          must_succeed file (map_err hbicap wait_done) _ streamed_calls (Quiet-poll_done os sh _)
            ne₄ in
        record {
          idle = idle;
          ctrl_blocked = map_err-ok axi_firewall block_ctrl idle_calls one;
          dma_blocked = map_err-ok axi_firewall block_dma ctrl_blocked_calls two;
          streamed = map_err-ok hbicap (write_bitstream c d image) blocked_calls three;
          tries = t;
          reported = map_err-ok hbicap wait_done streamed_calls four;
        }
