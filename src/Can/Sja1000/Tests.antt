-- ===== src/Can/Sja1000/Tests.antt =====
-- An SJA1000 whose driver is loaded and started.
use rtdm_native.Prelude.{
  ℕ, ◌+◌, ◌*◌, ◌≤◌, ◌≡◌, refl, ◌==◌, if◌then◌else◌, [], ◌∷◌, true, false, none, arith,
}
use rtdm_native.Prelude.Int.{pos}
use rtdm_native.Rtdm.Sem.{sem_init}
use rtdm_native.Can.Types.{
  Config, CanFrame, CanMode, CanState, Device, FilterList, Socket, SockId, BittimeStd,
}
use rtdm_native.Can.Dev.{rtcan_dev_alloc}
use rtdm_native.Can.Ioctl.{
  distance, rtcan_calc_bit_time, finish_bit_time, try_all, try_tseg, try_brp, sample_point,
  split_tseg,
}
use rtdm_native.Can.Ioctl.BitTime.{bit_rate}
use rtdm_native.Can.Run.{◌>>=◌}
use rtdm_native.Can.Sja1000.Chip.{Sja, RegisterFile, read_reg}
use rtdm_native.Can.Sja1000.Frames.RoundTrip.{IsFrame, sent}
use rtdm_native.Can.Sja1000.Interrupt.{IrqRound, Handler, pass_on, rtcan_sja_interrupt}
use rtdm_native.Can.Sja1000.Interrupt.Delivery.{with_frame, handled, interrupt-start_xmit}
use rtdm_native.Can.Sja1000.Modes.{state_operating, rtcan_sja_set_mode}
use rtdm_native.Can.Sja1000.Modes.Stopping.{Stops, mode_stop-Stops}
use rtdm_native.Can.Sja1000.Semaphore.{HasSem, sets_mode, rests, Runs-HasSem}
use rtdm_native.Can.Sja1000.Setup.Rate.{chip_bit_time, after_bit_time, set_bit_time-rate}

abbrev small : Config
small = record { rxbuf_log = 6; max_devices = 2; max_receivers = 4 }

abbrev started : Device
started = record (rtcan_dev_alloc small) {
  state = CanState.active;
  tx_sem = sem_init 1;
  ifindex = 1;
}

abbrev sja : Sja
sja = record {
  dev = started;
  state_before_sleep = CanState.active;
  bus_err_on = pos 1;
  ocr = 0x1A;
  cdr = 0xC8;
  written = [];
}

abbrev blank : RegisterFile
blank _ = 0

-- Reset mode shows at the fourth read.
abbrev slow : ℕ → ℕ
slow i = if i == 3 then 1 else 0

abbrev quiet : ℕ → Sja → Sja
quiet _ s = s

-- An extended frame with two bytes.
abbrev data_frame : CanFrame
data_frame = record {
  can_id = 0x80000000 + 0x12345678;
  can_dlc = 2;
  payload = 0xAB ∷ 0xCD ∷ 0 ∷ 0 ∷ 0 ∷ 0 ∷ 0 ∷ 0 ∷ [];
}

-- The other controller: its receive interrupt, and the frame in its registers.
abbrev arrival : IrqRound
arrival = record {
  regs = λ r. if r == 3 then 1 else sent blank data_frame sja r;
  error_time = [];
  echo_time = [];
  frame_time = 1 ∷ 2 ∷ 3 ∷ 4 ∷ 5 ∷ 6 ∷ 7 ∷ 8 ∷ [];
}

abbrev socks : SockId → Socket
socks _ = record {
  closing = false;
  get_timestamp = false;
  tx_timeout = pos 0;
  rx_timeout = pos 0;
  recv_head = 0;
  recv_tail = 0;
  recv_buf = λ _. 0;
  recv_sem = sem_init 0;
  tx_wait_head = [];
  ifindex = 0;
  flistlen = none;
  err_mask = 0;
  rx_buf_full = 0;
  flist = FilterList.null;
  loopback = 1;
}

abbrev waiting : Handler
waiting = record {
  chip = sja;
  socks = socks;
  skb = record {
    rb_frame_size = 0;
    rb_frame = record {
      can_id = 0;
      can_ifindex = 0;
      can_dlc = 0;
      area = 0 ∷ 0 ∷ 0 ∷ 0 ∷ 0 ∷ 0 ∷ 0 ∷ 0 ∷ 0 ∷ 0 ∷ 0 ∷ 0 ∷ 0 ∷ 0 ∷ 0 ∷ 0 ∷ [];
    };
  };
}

data_frame-IsFrame : IsFrame true false 0x12345678 data_frame
data_frame-IsFrame = record {
  in_range = omega arith;
  id = refl;
  dlc = omega arith;
  full = refl;
  bytes = ground arith;
}

wire_example : rtcan_sja_interrupt small (arrival ∷ []) false waiting ≡ (
    pass_on small arrival.frame_time
      (with_frame small true false 0x12345678 data_frame sja blank arrival waiting)
    >>= handled)
unfolding read_reg
wire_example =
    interrupt-start_xmit small true false 0x12345678 data_frame sja blank arrival waiting
      data_frame-IsFrame refl (λ r h. ground (arith, h))

stop_example : Stops slow quiet sja
unfolding state_operating
stop_example = mode_stop-Stops slow quiet sja refl

sja-HasSem : HasSem sja
unfolding state_operating sem_init
sja-HasSem = record { destroyed = refl; wakes = refl }

semaphore_example : HasSem (rtcan_sja_set_mode slow quiet CanMode.stop sja).1
semaphore_example =
    Runs-HasSem {s = sja} (sets_mode slow quiet CanMode.stop (λ i t. rests)) sja-HasSem

abbrev half_megabit : BittimeStd
half_megabit = record { brp = 1; prop_seg = 0; phase_seg1 = 13; phase_seg2 = 2; sjw = 1; sam = 0 }

rate_example :
    let chip = chip_bit_time (after_bit_time blank half_megabit sja) in
    (chip ≡ half_megabit) × (10 * distance 500000 (bit_rate 8000000 chip) ≤ 500000)
unfolding rtcan_calc_bit_time finish_bit_time try_all try_tseg try_brp split_tseg sample_point
rate_example =
    set_bit_time-rate 8000000 500000 half_megabit blank sja (omega arith) (omega arith) refl
