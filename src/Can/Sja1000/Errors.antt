-- ===== src/Can/Sja1000/Errors.antt =====
-- `rtcan_sja_err_interrupt` of rtcan_sja1000.c: an error frame and the state of the controller.
use rtdm_native.Prelude.{
  ℕ, ◌+◌, bit_and, bit_or, ltb, ◌==◌, if◌then◌else◌, Bool, true, false, not, ◌&&◌, ◌||◌, [], ◌∷◌,
}
use rtdm_native.Rtdm.Sem.{sem_destroy}
use rtdm_native.Can.Types.{CanState, Skb, can_err_flag, empty_rb_frame_size}
use rtdm_native.Can.Receive.{overwrite}
use rtdm_native.Can.Sja1000.Chip.{
  Sja, RegisterFile, read_reg, write_reg, has, sja_sr, sja_ier, sja_alc, sja_ecc, sja_rxerr,
  sja_txerr, sja1000_ier,
}

-- The bits of the interrupt register.
abbrev pub ir_ri : ℕ
ir_ri = 1

abbrev pub ir_ti : ℕ
ir_ti = 2

abbrev pub ir_ei : ℕ
ir_ei = 4

abbrev pub ir_doi : ℕ
ir_doi = 8

abbrev pub ir_wui : ℕ
ir_wui = 16

abbrev pub ir_epi : ℕ
ir_epi = 32

abbrev pub ir_ali : ℕ
ir_ali = 64

abbrev pub ir_bei : ℕ
ir_bei = 128

-- The bits SJA_SR_BS and SJA_SR_ES of the status register.
abbrev pub sr_bs : ℕ
sr_bs = 128

abbrev pub sr_es : ℕ
sr_es = 64

abbrev pub can_err_dlc : ℕ
can_err_dlc = 8

unfoldable pub is_warning : CanState → Bool
is_warning CanState.bus_warning = true
is_warning _ = false

-- The state after the two tests on the interrupt's source.
unfoldable pub passive_state : ℕ → CanState → CanState
passive_state irq_source state =
    if has irq_source ir_epi
    then if is_warning state then CanState.bus_passive else CanState.bus_warning
    else state

unfoldable pub error_state : ℕ → ℕ → CanState → CanState
error_state irq_source status state =
    let state₁ = passive_state irq_source state in
    if has irq_source ir_ei
    then if has status sr_bs
      then CanState.bus_off
      else if has status sr_es
      then CanState.bus_warning
      else if is_warning state₁
      then CanState.active
      else state₁
    else state₁

-- `state != dev->state && (state == CAN_STATE_BUS_WARNING || state == CAN_STATE_BUS_PASSIVE)`
unfoldable pub entered : CanState → CanState → Bool
entered CanState.bus_warning CanState.bus_warning = false
entered CanState.bus_passive CanState.bus_passive = false
entered before CanState.bus_warning = true
entered before CanState.bus_passive = true
entered before _ = false

-- The kind of a bus error, by the error code capture register: `data[2]` and `data[3]`.
unfoldable pub protocol_error : ℕ → ℕ × ℕ
protocol_error ecc =
    let kind = bit_and ecc 0xC0 in
    let tx : ℕ = if bit_and ecc 0x20 == 0 then 0x80 else 0 in
    if kind == 0
    then (bit_or 1 tx, 0)
    else if kind == 0x40
    then (bit_or 2 tx, 0)
    else if kind == 0x80
    then (bit_or 4 tx, 0)
    else (bit_or 0 tx, bit_and ecc 0x1F)

-- `if (test) can_id |= flag;`
abbrev pub or_if : Bool → ℕ → ℕ → ℕ
or_if test flag can_id = if test then bit_or can_id flag else can_id

-- `rtcan_sja_err_interrupt`. The interrupt enable register is written on bus-off, and when the
-- recovery from it is over.
unfoldable pub rtcan_sja_err_interrupt : RegisterFile → ℕ → Sja → Skb → Sja × Skb
unfolding read_reg write_reg
rtcan_sja_err_interrupt regs irq_source s skb =
    let status = read_reg regs sja_sr in
    let d = s.dev in
    let state₁ = passive_state irq_source d.state in
    let state = error_state irq_source status d.state in
    let bus_off = has irq_source ir_ei && has status sr_bs in
    let over =
      has irq_source ir_ei && not (has status sr_bs || has status sr_es || is_warning state₁) in
    let warned = entered d.state state in
    let (prot, seg) = protocol_error (read_reg regs sja_ecc) in
    let bus_error = has irq_source ir_bei in
    let crtl : ℕ = if ltb (read_reg regs sja_rxerr) (read_reg regs sja_txerr) then 8 else 4 in
    let f = skb.rb_frame in
    (
      record (if bus_off
          then write_reg sja_ier ir_ei s
          else if over
          then write_reg sja_ier sja1000_ier s
          else s) {
            dev = record d {
              state = state;
              tx_sem = if bus_off then sem_destroy d.tx_sem else d.tx_sem;
            };
          },
      record {
        rb_frame_size = empty_rb_frame_size + can_err_dlc;
        rb_frame = record {
          can_id = or_if warned 0x08 (
              or_if bus_off 0x40 (
                or_if bus_error (bit_or 0x08 0x80) (
                  or_if (has irq_source ir_ali) 0x02
                    (or_if (has irq_source ir_doi) 0x04 can_err_flag))));
          can_ifindex = d.ifindex;
          can_dlc = can_err_dlc;
          area =
              overwrite 0
                ((if has irq_source ir_ali then bit_and (read_reg regs sja_alc) 0x1F else 0)
                  ∷ (if warned then crtl else if has irq_source ir_doi then 1 else 0)
                  ∷ (if bus_error then prot else 0)
                  ∷ (if bus_error then seg else 0)
                  ∷ 0
                  ∷ 0
                  ∷ 0
                  ∷ 0
                  ∷ [])
                f.area;
        };
      },
    )
