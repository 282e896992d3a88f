-- ===== src/Tests/Device.antt =====
-- A device to test with: some addresses always read as fixed bytes, the others as what was last
-- written there, or as zeros. Every call succeeds.
use warpshell.Base.{
  true, ℕ, List, [], ◌∷◌, Option, none, some, ◌==◌, if◌then◌else◌, length, replicate,
}
use warpshell.Cms.CardInfo.Text.{codes}
use warpshell.Cli.{Build}
use warpshell.Shell.{XilinxU55nXdmaStd}
use warpshell.System.{Call, write_all_at, done, Os}

abbrev last_written : List Call → ℕ → Option (List ℕ)
last_written [] address = none
last_written (write_all_at f bytes a ∷ calls) address =
    let earlier = last_written calls address in if a == address then some bytes else earlier
last_written (_ ∷ calls) address = last_written calls address

abbrev or_zeros : ℕ → Option (List ℕ) → List ℕ
or_zeros len (some bytes) = bytes
or_zeros len none = replicate len 0

abbrev or_stored : ℕ → Option (List ℕ) → Option (List ℕ) → List ℕ
or_stored len (some bytes) stored = bytes
or_stored len none stored = or_zeros len stored

-- What was last written at an address, or zeros
abbrev pub stored_bytes : ℕ → List Call → ℕ → List ℕ
stored_bytes len calls address = or_zeros len (last_written calls address)

abbrev pub device : (ℕ → Option (List ℕ)) → Os (Unit {0})
device fixed = record {
  opened = λ calls call. done (length calls);
  read =
      λ calls file len address. done (or_stored len (fixed address) (last_written calls address));
  read_all = λ calls file. done (1 ∷ 2 ∷ 3 ∷ []);
  written = λ calls file bytes address. done tt;
}

-- An idle HBICAP core, and a CMS core that is ready, with card information in its mailbox
abbrev card_registers : ℕ → Option (List ℕ)
card_registers address =
    if address == 0x0405_0110
    then some (1 ∷ 0 ∷ 0 ∷ 0 ∷ [])
    else if address == 0x0405_010c
    then some (0 ∷ 0 ∷ 0 ∷ 0 ∷ [])
    else if address == 0x0402_8000
    then some (0x74 ∷ 0x65 ∷ 0x73 ∷ 0x74 ∷ [])
    else if address == 0x0402_830c
    then some (1 ∷ 0 ∷ 0 ∷ 0 ∷ [])
    else if address == 0x0402_8018
    then some (0 ∷ 0 ∷ 0 ∷ 0 ∷ [])
    else if address == 0x0402_8300
    then some (0 ∷ 16 ∷ 0 ∷ 0 ∷ [])
    else if address == 0x0402_9000
    then some (3 ∷ 0 ∷ 0 ∷ 4 ∷ [])
    else if address == 0x0402_9004
    then some (0x2a ∷ 1 ∷ 0x50 ∷ 0 ∷ [])
    else if address == 0x1000_0000_0000_0000
    then some (0x78 ∷ 0x56 ∷ 0x34 ∷ 0x12 ∷ [])
    else none

abbrev pub card : Os (Unit {0})
card = device card_registers

-- What the tool prints of a doc comment and of a time, for tests
abbrev pub build : Build
build = record {
  overflow_checks = true;
  doc_comment = λ s. codes s;
  elapsed = λ start end. codes "1s";
}

-- A device of storage alone
abbrev pub memory : Os (Unit {0})
memory = device (λ address. none)

-- A CMS core whose mailbox is in use
abbrev pub busy : Os (Unit {0})
busy = device (λ address. some (32 ∷ 0 ∷ 0 ∷ 0 ∷ []))

-- A shell, and an image
abbrev pub sh : XilinxU55nXdmaStd
sh = record {
  ctrl_channel = record { cdev = 0 };
  dma_channel = record { h2c_cdev = 1; c2h_cdev = 2 };
}

abbrev pub image : List ℕ
image = 1 ∷ 2 ∷ 3 ∷ 4 ∷ 5 ∷ 6 ∷ 7 ∷ 8 ∷ 9 ∷ []
