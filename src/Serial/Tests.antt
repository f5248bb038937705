-- ===== src/Serial/Tests.antt =====
-- The serial driver on concrete devices.
use rtdm_native.Prelude.{
  inl, ℕ, suc, ◌+◌, ◌%◌, ◌≡◌, ◌≢◌, refl, arith, Bool, true, false, List, [], ◌∷◌, ◌++◌, drop,
  length, none, some,
}
use rtdm_native.Prelude.Int.{ℤ, pos, negsuc}
use rtdm_native.Rtdm.Errno.{Status, ok, err, eidrm, etimedout}
use rtdm_native.Rtdm.Event.{Event}
use rtdm_native.Memory.Window.{window}
use rtdm_native.Serial.Types.{Context, RtserConfig}
use rtdm_native.Serial.Queue.{InQueue, OutQueue}
use rtdm_native.Serial.Irq.{Poll, rt_16550_interrupt, rt_16550_rx_interrupt, rt_16550_tx_interrupt}
use rtdm_native.Serial.Irq.Progress.{Progress, idle-Progress}
use rtdm_native.Serial.Irq.Serving.{final, more, Arrives, idle, burst}
use rtdm_native.Serial.Irq.Wakeup.{rt_16550_interrupt-queues}
use rtdm_native.Serial.Irq.Transmit.{sent_byte, rt_16550_tx_interrupt-sends}
use rtdm_native.Serial.Irq.Overrun.{rt_16550_rx_interrupt-overruns}
use rtdm_native.Serial.Config.{set_rest, default_config}
use rtdm_native.Serial.Transfer.{Turn, rt_16550_write}
use rtdm_native.Serial.Transfer.Writing.{rt_16550_write-queues}
use rtdm_native.Serial.Ioctl.{buffers, Caller, Wait, request_wait, request_purge}
use rtdm_native.Serial.Ioctl.Requests.{
  Waits, request_wait-Waits, request_purge-queues, set_rest-buffers,
}
use mathlib.Core.List.{map}

abbrev quiet_event : Event
quiet_event = record { pending = false; destroyed = false }

abbrev fresh : Context
fresh = record {
  config = default_config;
  in_head = 0;
  in_tail = 0;
  in_npend = 0;
  in_nwait = pos 0;
  in_event = quiet_event;
  in_buf = λ i. 0;
  in_lock = false;
  in_history = none;
  out_head = 0;
  out_tail = 0;
  out_npend = 0;
  out_event = quiet_event;
  out_buf = λ i. 0;
  out_lock = false;
  last_timestamp = 0;
  ioc_events = 0;
  ioc_event = quiet_event;
  ioc_event_lock = false;
  ier_status = 1;
  mcr_status = 0;
  status = 0;
  saved_errors = 0;
  writes = [];
}

-- Three bytes wait for the reader, and three to be sent, over the end of the ring.
abbrev busy : Context
busy = record fresh {
  in_buf = λ i. i;
  in_head = 4094;
  in_tail = 1;
  in_npend = 3;
  out_buf = λ i. i;
  out_head = 4094;
  out_tail = 1;
  out_npend = 3;
  ier_status = 3;
}

busy_in : InQueue busy (4094 ∷ 4095 ∷ 0 ∷ [])
busy_in = record { head_small = omega arith; fits = omega arith; behind = refl; bytes = refl }

busy_out : OutQueue busy (4094 ∷ 4095 ∷ 0 ∷ [])
busy_out = record { head_small = omega arith; fits = omega arith; behind = refl; bytes = refl }

-- Two characters, then the end of the causes.
abbrev two_chars : List Poll
two_chars =
    record { iir = 0xC4; chars = (65, 0x61) ∷ (66, 0x60) ∷ []; lsr = 0; msr = 0 }
    ∷ record { iir = 0xC1; chars = []; lsr = 0; msr = 0 }
    ∷ []

arriving : Arrives two_chars (65 ∷ 66 ∷ [])
arriving = burst refl (more refl (final refl)) (idle refl)

interrupt_example :
    (handled : Bool) × (ctx' : Context) × (sent : ℕ) × (rt_16550_interrupt 16 7 two_chars busy
      ≡ some (handled, ctx'))
    × Progress busy ctx' (65 ∷ 66 ∷ []) sent
interrupt_example = rt_16550_interrupt-queues 16 7 busy arriving (omega arith)

abbrev starved : Context
starved = record fresh { in_nwait = pos 2 }

transmission_example :
    ((rt_16550_tx_interrupt 2 busy).writes ≡ [] ++ map sent_byte (4094 ∷ 4095 ∷ []))
    × OutQueue (rt_16550_tx_interrupt 2 busy) (0 ∷ [])
transmission_example = rt_16550_tx_interrupt-sends 2 busy (4094 ∷ 4095 ∷ 0 ∷ []) busy_out

-- No room for one more character.
abbrev full_in : Context
full_in = record fresh { in_npend = 4096; in_buf = λ i. i }

-- A window by its first byte, for any length.
window_head :
    (buf : ℕ → ℕ) (h n : ℕ) → window 4096 buf h (suc n) ≡ buf h ∷ window 4096 buf ((h + 1) % 4096) n
window_head buf h n = refl

full_queue : InQueue full_in (0 ∷ window 4096 (λ i. i) 1 4095)
full_queue = record {
  head_small = omega arith;
  fits = omega arith;
  behind = refl;
  bytes = window_head (λ i. i) 0 4095;
}

overrun_example :
    (ctx' : Context) × (rt_16550_rx_interrupt 7 ((65, 0x60) ∷ []) full_in ≡ some (1, ctx'))
    × (window 4096 ctx'.in_buf ctx'.in_head ctx'.in_npend ≡ 65 ∷ window 4096 (λ i. i) 1 4095)
    × (ctx'.in_tail ≢ (ctx'.in_head + ctx'.in_npend) % 4096)
overrun_example =
    rt_16550_rx_interrupt-overruns 7 65 0x60 full_in 0 (window 4096 (λ i. i) 1 4095) full_queue refl
      refl

-- A turn in which nothing happens.
abbrev still_turn : Turn
still_turn = record { before = λ c. c; after = λ c. c; fault = none; woken = err etimedout }

abbrev polling : Context
polling = record busy { config = record default_config { rx_timeout = negsuc 0 } }

abbrev take_mutex : ℤ → Context → Status × Context
take_mutex timeout ctx = (ok tt, record ctx { out_lock = true })

write_example :
    (ctx' : Context) × (rt_16550_write take_mutex (still_turn ∷ []) true true 2 (7 ∷ 8 ∷ []) busy
      ≡ some (ok 2, ctx'))
    × OutQueue ctx' (drop 0 (4094 ∷ 4095 ∷ 0 ∷ []) ++ (7 ∷ 8 ∷ []))
    × (ctx'.out_lock ≡ false)
write_example =
    rt_16550_write-queues take_mutex still_turn [] (7 ∷ 8 ∷ []) busy (4094 ∷ 4095 ∷ 0 ∷ []) [] 0
      refl (omega arith) (omega arith) busy_out refl
      (idle-Progress (record busy { out_lock = true })) (λ c. refl)

abbrev fast_config : RtserConfig
fast_config = record default_config { baud_rate = 38400; parity = 3 }

abbrev kernel_caller : Caller
kernel_caller = record {
  user = false;
  copies = true;
  created_in_nrt = false;
  in_rt = true;
  allocated = none;
  lsr = 0x60;
  msr = 0;
}

abbrev closed_wait : List Wait
closed_wait = record { woken = err eidrm; meanwhile = λ c. c } ∷ []

event_example : Waits (request_wait kernel_caller closed_wait fresh)
event_example = request_wait-Waits kernel_caller closed_wait fresh refl refl

purge_example :
    InQueue (request_purge 1 busy) [] × OutQueue (request_purge 1 busy) (4094 ∷ 4095 ∷ 0 ∷ [])
purge_example =
    request_purge-queues 1 busy (4094 ∷ 4095 ∷ 0 ∷ []) (4094 ∷ 4095 ∷ 0 ∷ []) busy_in busy_out

abbrev history_config : RtserConfig
history_config = record default_config { timestamp_history = 1 }

history_example :
    length (buffers (set_rest history_config (some (λ i. 0)) fresh).1)
      + length (buffers (set_rest history_config (some (λ i. 0)) fresh).2.in_history)
    ≡ 1 + 0
history_example = set_rest-buffers history_config (some (λ i. 0)) fresh (inl refl)
