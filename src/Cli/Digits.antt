-- ===== src/Cli/Digits.antt =====
-- The numbers that the tool, sw/rust/warpshell-cli/src/main.rs, prints.
use mathlib.Core.List.{append_assoc}
use warpshell.Base.{
  ℕ, zero, suc, ◌+◌, ◌-◌, ◌*◌, ◌/◌, ◌%◌, ◌^◌, ◌<◌, ◌≢◌, sym, some, List, [], ◌∷◌, ◌++◌, Bool, ◌&&◌,
  ltb, leb, ◌≡◌, refl, arith, ◌∙◌, if◌then◌else◌, inl, inr, Bool-cases, ap,
}
use warpshell.System.{Call, print_line, Os, IsExact}
use warpshell.Outcome.{ok, ok-injective, bind-ok, bind-ok_next, map_err, map_err-ok, pure, ◌>>=◌}
use warpshell.Xdma.Transport.{ctrl_ops-ReadsWords}
use warpshell.Cms.{based_error, get_cms_reg}
use warpshell.Cms.Reg.{
  CmsReg, cms_offset, fpga_temp_inst, hbm0_temp_inst, pex12v_inst, pex12v_current_in_inst,
  aux12v_inst, aux12v_current_in_inst,
}
use warpshell.Cms.CardInfo.Text.{Text, codes}
use warpshell.Shell.{XilinxU55nXdmaStd, base_addr, cms_core, on_ctrl}
use warpshell.Cli.Power.{power-lt}
use warpshell.Cli.{
  Build, MgmtReading, card_info, fpga_temp, hbm_temp, board_power, MgmtValue, MeasurementUnit,
  measurement, milli_w, c, reading_failed, power, digits, unit_text, value_text, read_value,
  run_command, get,
}

-- A decimal number at the head of a text, after the digits of `n`
abbrev number_from : ℕ → Text → ℕ
number_from n [] = n
number_from n (d ∷ text) =
    let longer = number_from (n * 10 + (d - b'0')) text in
    if leb b'0' d && ltb d 58 then longer else n

abbrev pub leading_number : Text → ℕ
leading_number text = number_from 0 text

digit_first :
    (n d : ℕ) (text : Text)
    → d < 10
    → number_from n ((b'0' + d) ∷ text) ≡ number_from (n * 10 + d) text
digit_first n d text h = ground arith

digits_first :
    (fuel n : ℕ) (text : Text)
    → n < 10 ^ fuel
    → number_from 0 (digits fuel n ++ text) ≡ number_from n text
unfolding digits
digits_first zero n text h = let none : n ≡ 0 = omega arith in rw none refl
digits_first (suc fuel) n text h = elim (Bool-cases (ltb n 10)) [
  | inl e ↦ rw e (digit_first 0 n text (ground arith) ∙ ap (λ k. number_from k text) (omega arith))
  | inr e ↦
      let next = (b'0' + n % 10) ∷ [] in
      let parts : n / 10 * 10 + n % 10 ≡ n = omega arith in
      rw (e, append_assoc (digits fuel (n / 10)) next text)
        (digits_first fuel (n / 10) ((b'0' + n % 10) ∷ text) (omega (arith, h))
          ∙ digit_first (n / 10) (n % 10) text (omega arith)
          ∙ ap (λ k. number_from k text) parts)
]

leading_number-value_text :
    (build : Build) (v : ℕ) (u : MeasurementUnit)
    → v < 2 ^ 32
    → leading_number (value_text build (measurement v u)) ≡ v
unfolding value_text
leading_number-value_text build v u h =
    digits_first 10 v (codes " " ++ unit_text build u) (omega (arith, h))

module _ {E : Type 0} (os : Os E) (build : Build) (sh : XilinxU55nXdmaStd)
    (exact : IsExact os) where
  word :
      (reg : CmsReg) (calls : List Call) {v : ℕ}
      → (get_cms_reg (on_ctrl os sh cms_core) reg calls).0 ≡ ok v
      → v < 2 ^ 32
  unfolding get_cms_reg
  word reg calls {v} h =
      let core = on_ctrl os sh cms_core in
      (ctrl_ops-ReadsWords os sh.ctrl_channel (base_addr cms_core) exact).is_word (cms_offset reg) v
        calls (map_err-ok based_error (core.based_ctrl_read_u32 (cms_offset reg)) calls h)

  -- What a reading other than that of card information returns
  IsMeasured : MgmtValue → Type 0
  IsMeasured value = (n : ℕ) × (u : MeasurementUnit) × (value ≡ measurement n u) × (n < 2 ^ 32)

  measured :
      (reg : CmsReg) (u : MeasurementUnit) (calls : List Call) {value : MgmtValue}
      → ((get_cms_reg (on_ctrl os sh cms_core) reg >>= λ v. pure (measurement v u)) calls).0
        ≡ ok value
      → IsMeasured value
  unfolding IsMeasured
  measured reg u calls h =
      let (v, e, l) = bind-ok (get_cms_reg (on_ctrl os sh cms_core) reg) _ calls h in
      (v, u, sym (ok-injective (ap (λ r. r.0) (sym l) ∙ h)), word reg calls e)

  read_value-IsMeasured :
      (reading : MgmtReading) (calls : List Call) {value : MgmtValue}
      → reading ≢ card_info
      → (read_value os build sh reading calls).0 ≡ ok value
      → IsMeasured value
  unfolding read_value IsMeasured
  read_value-IsMeasured card_info calls other h = absurd (other refl)
  read_value-IsMeasured fpga_temp calls other h = measured fpga_temp_inst c calls h
  read_value-IsMeasured hbm_temp calls other h = measured hbm0_temp_inst c calls h
  read_value-IsMeasured board_power calls other h =
      let read = get_cms_reg (on_ctrl os sh cms_core) in
      let (v, e₁, l₁, h₁) = bind-ok_next (read pex12v_inst) _ calls h in
      let (i, e₂, l₂, h₂) = bind-ok_next (read pex12v_current_in_inst) _ _ h₁ in
      let (w, e₃, l₃, h₃) = bind-ok_next (read aux12v_inst) _ _ h₂ in
      let (j, e₄, l₄, h₄) = bind-ok_next (read aux12v_current_in_inst) _ _ h₃ in
      let (p, e₅, l₅, h₅) = bind-ok_next (power build.overflow_checks v i w j) _ _ h₄ in
      (p, milli_w, sym (ok-injective h₅), power-lt build.overflow_checks v i w j _ e₅)

  -- If a read never fills a buffer but with as many bytes as it has, a `get` command for anything but
  -- card information that succeeds has read a value, and what it does after that is to print one
  -- line, at the head of which the value stands as a decimal number.
  pub run_command-get :
      (debug : Bool) (reading : MgmtReading) (calls : List Call)
      → reading ≢ card_info
      → (run_command os build sh debug (some (get reading)) calls).0 ≡ ok tt
      → (n : ℕ) × (u : MeasurementUnit) × (line : Text) × ((read_value os build sh reading calls).0
          ≡ ok (measurement n u))
        × ((run_command os build sh debug (some (get reading)) calls).1
            ≡ print_line line ∷ (read_value os build sh reading calls).1)
        × (leading_number line ≡ n)
  unfolding run_command IsMeasured
  run_command-get debug reading calls other h =
      let (value, e, l, k) =
        bind-ok_next (map_err reading_failed (read_value os build sh reading)) _ calls h in
      let read = map_err-ok reading_failed (read_value os build sh reading) calls e in
      let (n, u, same, small) = read_value-IsMeasured reading calls other read in
      (
        n,
        u,
        value_text build (measurement n u),
        read ∙ ap ok same,
        l
            ∙ ap (λ w. print_line (value_text build w) ∷ (read_value os build sh reading calls).1)
                same,
        leading_number-value_text build n u small,
      )
