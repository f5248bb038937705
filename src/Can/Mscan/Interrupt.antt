-- ===== src/Can/Mscan/Interrupt.antt =====
-- `rtcan_mscan_interrupt` of rtcan_mscan.c: transmission, reception and errors. The flags that it
-- reads and the times at which frames are delivered are arguments.
use rtdm_native.Prelude.{
  ℕ, ◌+◌, ◌/◌, ltb, ◌==◌, if◌then◌else◌, bit_and, bit_or, Bool, true, false, not, ◌&&◌, List, ◌∷◌,
  replicate,
}
use rtdm_native.Rtdm.Sem.{sem_up, sem_destroy}
use rtdm_native.Can.Types.{Config, SockId, Socket, CanState, Skb, can_err_flag, empty_rb_frame_size}
use rtdm_native.Can.Run.{Run, done, ◌>>=◌}
use rtdm_native.Can.Receive.{overwrite, rtcan_rcv, rtcan_loopback}
use rtdm_native.Can.Virt.{loopback_pending}
use rtdm_native.Can.Sja1000.Chip.{has}
use rtdm_native.Can.Sja1000.Errors.{can_err_dlc}
use rtdm_native.Can.Mscan.Chip.{Mscan, get_reg, put_reg, command, canrflg, canrier, cantier}
use rtdm_native.Can.Mscan.Frames.{rtcan_mscan_rx_interrupt}

-- `mscan_stat_map[i]` for an index below 4.
unfoldable pub mscan_stat_map : ℕ → CanState
mscan_stat_map i =
    if i == 0
    then CanState.active
    else if i == 1
    then CanState.bus_warning
    else if i == 2
    then CanState.bus_passive
    else CanState.bus_off

-- `rstat` and `tstat`, as the code takes them from the flags.
abbrev pub rstat_of : ℕ → ℕ
rstat_of r_status = bit_and (bit_and r_status 0x0C / 4) 3

abbrev pub tstat_of : ℕ → ℕ
tstat_of r_status = bit_and (bit_and r_status 0x30 / 16) 3

-- What the switch on the new state does: the flags for the ID, and `data[1]` where it is the
-- transmitter's or the receiver's error.
unfoldable pub state_report : CanState → Bool → ℕ × ℕ
state_report CanState.bus_off tx = (0x40, 0)
state_report CanState.bus_passive tx = (0x04, if tx then 0x20 else 0x10)
state_report CanState.bus_warning tx = (0x04, if tx then 0x08 else 0x04)
state_report _ tx = (0, 0)

abbrev pub is_bus_off : CanState → Bool
is_bus_off CanState.bus_off = true
is_bus_off _ = false

-- `rtcan_mscan_err_interrupt`
unfoldable pub rtcan_mscan_err_interrupt : ℕ → Mscan → Skb → Mscan × Skb
unfolding put_reg
rtcan_mscan_err_interrupt r_status s skb =
    let d = s.dev in
    let rstat = rstat_of r_status in
    let tstat = tstat_of r_status in
    let overrun = has r_status 0x02 in
    let changed = not overrun && has r_status 0x40 in
    let state = mscan_stat_map (if ltb rstat tstat then tstat else rstat) in
    let (flag, code) = state_report state (ltb rstat tstat) in
    let off = changed && is_bus_off state in
    let f = skb.rb_frame in
    (
      record (if off then put_reg canrier 0 s else s) {
        dev = record d {
          state = if changed then state else d.state;
          tx_sem = if off then sem_destroy d.tx_sem else d.tx_sem;
        };
      },
      record {
        rb_frame_size = empty_rb_frame_size + can_err_dlc;
        rb_frame = record {
          can_id =
              if overrun
              then bit_or can_err_flag 0x04
              else if changed
              then bit_or can_err_flag flag
              else can_err_flag;
          can_ifindex = d.ifindex;
          can_dlc = can_err_dlc;
          area =
              overwrite 0
                (0 ∷ (if overrun then 0x01 else if changed then code else 0) ∷ replicate 6 0)
                f.area;
        };
      },
    )

-- What the handler works on.
pub record Work : Type 0 where
  pub chip : Mscan
  pub socks : SockId → Socket
  pub skb : Skb

module _ (c : Config) where
  -- `rtcan_rcv(dev, &skb);`
  unfoldable pub hand_on : List ℕ → Work → Run Work
  hand_on time w = do
    (d, socks, skb) ← rtcan_rcv c time (w.chip.dev) (w.socks) (w.skb)
    done (record { chip = record (w.chip) { dev = d }; socks = socks; skb = skb })

  unfoldable pub tx_part : ℕ → List ℕ → Work → Run Work
  unfolding put_reg
  tx_part tflg time w =
      let d = w.chip.dev in
      let d' = record d { tx_sem = sem_up d.tx_sem } in
      let chip : Mscan = record (put_reg cantier 0 (w.chip)) { dev = d' } in
      let echo : Run Work = (do
        (d'', socks) ← rtcan_loopback c time d' (w.socks)
        done (record w { chip = record chip { dev = d'' }; socks = socks })) in
      if not (has (get_reg (w.chip) cantier) 1 && has tflg 1)
      then done w
      else if loopback_pending d'
      then echo
      else done (record w { chip = chip })

  unfoldable pub rx_part : ℕ → List ℕ → Work → Run Work
  rx_part rflg time w =
      if has rflg 0x01
      then hand_on time (record w { skb = rtcan_mscan_rx_interrupt (w.chip) (w.skb) })
      else done w

  unfoldable pub err_part : ℕ → List ℕ → Work → Run Work
  err_part rflg time w =
      let (chip, skb) = rtcan_mscan_err_interrupt rflg (w.chip) (w.skb) in
      if has rflg 0x42 then hand_on time (record w { chip = chip; skb = skb }) else done w

  -- `if (canrflg) regs->canrflg = canrflg;`
  abbrev pub acknowledge : ℕ → Work → Work
  acknowledge rflg w = if rflg == 0 then w else record w { chip = command canrflg rflg (w.chip) }

  -- `rtcan_mscan_interrupt`: the flags of CANRFLG and CANTFLG, and three readings of the clock.
  unfoldable pub rtcan_mscan_interrupt : ℕ → ℕ → List ℕ → List ℕ → List ℕ → Work → Run Work
  unfolding tx_part rx_part err_part command
  rtcan_mscan_interrupt rflg tflg echo_time frame_time error_time w = do
    w₁ ← tx_part tflg echo_time w
    w₂ ← rx_part rflg frame_time w₁
    w₃ ← err_part rflg error_time w₂
    done (acknowledge rflg w₃)
