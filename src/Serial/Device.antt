-- ===== src/Serial/Device.antt =====
-- `rt_16550_open` and `rt_16550_close` of ksrc/drivers/serial/16550A.c.
use rtdm_native.Prelude.{ℕ, false, Option, none, some}
use rtdm_native.Prelude.Int.{pos}
use rtdm_native.Rtdm.Errno.{Status, ok, err}
use rtdm_native.Rtdm.Event.{event_init, event_destroy}
use rtdm_native.Serial.Types.{Context, ier, mcr, ier_rx, outb}
use rtdm_native.Serial.Config.{default_config, rt_16550_set_config}

-- `rt_16550_cleanup_ctx`: whoever waits for the events or the mutex is told that they are gone.
unfoldable pub rt_16550_cleanup_ctx : Context → Context
rt_16550_cleanup_ctx ctx = record ctx {
  in_event = event_destroy ctx.in_event;
  out_event = event_destroy ctx.out_event;
  ioc_event = event_destroy ctx.ioc_event;
}

-- The context that `rt_16550_open` starts from; the other fields keep what the memory held.
unfoldable pub init_ctx : Context → Context
init_ctx ctx = record ctx {
  in_event = event_init false;
  out_event = event_init false;
  ioc_event = event_init false;
  out_lock = false;
  in_head = 0;
  in_tail = 0;
  in_npend = 0;
  in_nwait = pos 0;
  in_lock = false;
  in_history = none;
  out_head = 0;
  out_tail = 0;
  out_npend = 0;
  ioc_events = 0;
  ioc_event_lock = false;
  status = 0;
  saved_errors = 0;
}

-- Behind the first configuration; `irq` is the result of `rtdm_irq_request`.
unfoldable pub request_irq : Status → Context → Status × Context
request_irq (err e) ctx = (err e, rt_16550_cleanup_ctx (outb 0 mcr ctx))
request_irq (ok _) ctx = (ok tt, outb ier_rx ier (record ctx { ier_status = ier_rx }))

-- `rt_16550_open`. The configuration gets a pointer that is not set, `garbage`, and only stores through it.
unfoldable pub rt_16550_open : ℕ → Option (ℕ → ℕ) → Status → Context → Option (Status × Context)
rt_16550_open baud_base garbage irq ctx =
    elim (rt_16550_set_config baud_base default_config garbage (init_ctx ctx)) [
      | none ↦ none
      | some (status, buffer, ctx') ↦ some (request_irq irq ctx')
    ]

-- `rt_16550_close`: the result, the history buffer that it frees, and the context.
unfoldable pub rt_16550_close : Context → Status × Option (ℕ → ℕ) × Context
rt_16550_close ctx =
    let quiet = outb 0 ier (outb 0 mcr ctx) in
    (ok tt, ctx.in_history, rt_16550_cleanup_ctx (record quiet { in_history = none }))
