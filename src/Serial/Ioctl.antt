-- ===== src/Serial/Ioctl.antt =====
-- `rt_16550_ioctl` of ksrc/drivers/serial/16550A.c.
pub mod Requests
use rtdm_native.Prelude.{
  ℕ, ◌+◌, bit_and, bit_or, Bool, true, false, not, ◌&&◌, ltb, ◌==◌, if◌then◌else◌, List, [], ◌∷◌,
  Option, none, some,
}
use rtdm_native.Prelude.Bits.{bit_clear}
use rtdm_native.Rtdm.Errno.{
  Status, Errno, ok, err, einval, eperm, enomem, efault, ebusy, enosys, enotty, ebadf, eidrm,
}
use rtdm_native.Serial.Types.{
  Context, RtserConfig, ier, fcr, mcr, outb, testbits, fcr_fifo, fcr_reset_rx, fcr_reset_tx,
  ier_stat, event_errpend, event_modemhi, event_modemlo, set_baud_flag, set_timestamp_history_flag,
  rx_timestamp_history,
}
use rtdm_native.Serial.Config.{rt_16550_set_config}

abbrev rtdm_purge_rx_buffer : ℕ
rtdm_purge_rx_buffer = 0x0001

abbrev rtdm_purge_tx_buffer : ℕ
rtdm_purge_tx_buffer = 0x0002

-- The requests with what the pointer `arg` leads to.
pub data SerialRequest : Type 0 where
  get_config get_status get_control wait_event other_request : SerialRequest
  set_config : RtserConfig → SerialRequest
  set_control purge : ℕ → SerialRequest

-- Around the call: is `user_info` set, does its memory take the copies, was the context created outside
-- real-time context (RTDM_CREATED_IN_NRT), is the caller in it, what does the allocator give, and what LSR and
-- MSR answer.
pub record Caller : Type 0 where
  pub user : Bool
  pub copies : Bool
  pub created_in_nrt : Bool
  pub in_rt : Bool
  pub allocated : Option (ℕ → ℕ)
  pub lsr : ℕ
  pub msr : ℕ

-- `struct rtser_event`
pub record RtserEvent : Type 0 where
  pub events : ℕ
  pub rx_pending : ℕ
  pub last_timestamp : ℕ
  pub rxpend_timestamp : ℕ

-- What is stored at `arg`.
pub data SerialReply : Type 0 where
  nothing : SerialReply
  config_reply : RtserConfig → SerialReply
  status_reply : ℕ → ℕ → SerialReply
  control_reply : ℕ → SerialReply
  event_reply : RtserEvent → SerialReply

-- The result, the reply, the history buffers that the call frees, and the context; or the division by the
-- rate 0, or a task that still waits.
pub data Outcome : Type 0 where
  divide_error still_waiting : Outcome
  returns : Status → SerialReply → List (ℕ → ℕ) → Context → Outcome

-- `rtdm_safe_copy_to_user` for a caller in user space, `memcpy` for one in the kernel.
unfoldable pub store : Caller → SerialReply → Context → Outcome
store caller reply ctx =
    if caller.user && not caller.copies
    then returns (err efault) nothing [] ctx
    else returns (ok tt) reply [] ctx

abbrev pub buffers : Option (ℕ → ℕ) → List (ℕ → ℕ)
buffers none = []
buffers (some h) = h ∷ []

-- Behind the checks: the configuration with a buffer, of which the rest is freed.
unfoldable pub apply_config : ℕ → RtserConfig → Option (ℕ → ℕ) → Context → Outcome
apply_config baud_base config hist_buf ctx =
    elim (rt_16550_set_config baud_base config hist_buf ctx) [
      | none ↦ divide_error
      | some (status, rest, ctx') ↦ returns (ok tt) nothing (buffers rest) ctx'
    ]

-- RTSER_RTIOC_SET_CONFIG
unfoldable pub request_config : ℕ → Caller → RtserConfig → Context → Outcome
request_config baud_base caller config ctx =
    if caller.user && not caller.copies
    then returns (err efault) nothing [] ctx
    else if testbits config.config_mask set_baud_flag && ltb baud_base config.baud_rate
    then returns (err einval) nothing [] ctx
    else if not (testbits config.config_mask set_timestamp_history_flag)
    then apply_config baud_base config none ctx
    else if caller.created_in_nrt && caller.in_rt
    then returns (err eperm) nothing [] ctx
    else if not (testbits config.timestamp_history rx_timestamp_history)
    then apply_config baud_base config none ctx
    else elim caller.allocated [
      | none ↦ returns (err enomem) nothing [] ctx
      | some h ↦ apply_config baud_base config (some h) ctx
    ]

-- RTSER_RTIOC_GET_STATUS
unfoldable pub request_status : Caller → Context → Outcome
request_status caller ctx =
    let status = bit_or ctx.saved_errors ctx.status in
    let ctx' = record ctx {
      status = 0;
      saved_errors = 0;
      ioc_events = bit_clear ctx.ioc_events event_errpend;
    } in
    store caller (status_reply (bit_or caller.lsr status) caller.msr) ctx'

-- RTIOC_PURGE
unfoldable pub purge_rx : ℕ → Context → ℕ × Context
purge_rx arg ctx =
    if testbits arg rtdm_purge_rx_buffer
    then (
      fcr_fifo + fcr_reset_rx,
      record ctx { in_head = 0; in_tail = 0; in_npend = 0; status = 0 },
    )
    else (0, ctx)

unfoldable pub purge_tx : ℕ → ℕ × Context → ℕ × Context
purge_tx arg (fcr_bits, ctx) =
    if testbits arg rtdm_purge_tx_buffer
    then (
      bit_or fcr_bits (fcr_fifo + fcr_reset_tx),
      record ctx { out_head = 0; out_tail = 0; out_npend = 0 },
    )
    else (fcr_bits, ctx)

unfoldable pub request_purge : ℕ → Context → Context
request_purge arg ctx =
    let (fcr_bits, ctx') = purge_tx arg (purge_rx arg ctx) in
    if fcr_bits == 0
    then ctx'
    else outb (bit_or fcr_fifo ctx'.config.fifo_depth) fcr (outb fcr_bits fcr ctx')

-- A round of RTSER_RTIOC_WAIT_EVENT: how `rtdm_event_timedwait` ends, and what happens to the context
-- until the task looks at it again.
pub record Wait : Type 0 where
  pub woken : Status
  pub meanwhile : Context → Context

-- The error interrupt is switched on if the waiter wants it.
unfoldable pub want_errors : Context → Context
want_errors ctx =
    let enabled = bit_or ctx.ier_status ier_stat in
    if testbits ctx.config.event_mask event_errpend
    then outb enabled ier (record ctx { ier_status = enabled })
    else ctx

-- The lock of the waiters is released.
unfoldable pub release : Outcome → Outcome
release (returns status reply freed ctx) =
    returns status reply freed (record ctx { ioc_event_lock = false })
release divide_error = divide_error
release still_waiting = still_waiting

-- Behind the loop: the events are taken, those of the modem lines are cleared.
unfoldable pub take_events : Caller → Context → Outcome
take_events caller ctx =
    let ev : RtserEvent = record {
      events = ctx.ioc_events;
      rx_pending = ctx.in_npend;
      last_timestamp = ctx.last_timestamp;
      rxpend_timestamp = elim ctx.in_history [ none ↦ 0 | some h ↦ h ctx.in_head ];
    } in
    let ctx' = record ctx {
      ioc_events = bit_clear ctx.ioc_events (event_modemhi + event_modemlo);
    } in
    store caller (event_reply ev) ctx'

unfoldable pub wait_error : Errno → Errno
wait_error eidrm = ebadf
wait_error e = e

unfoldable pub wait_loop : Caller → List Wait → Context → Outcome
wait_loop caller [] ctx = if ctx.ioc_events == 0 then still_waiting else take_events caller ctx
wait_loop caller (w ∷ ws) ctx =
    let ctx' = w.meanwhile (want_errors ctx) in
    let rest = wait_loop caller ws ctx' in
    if not (ctx.ioc_events == 0)
    then take_events caller ctx
    else elim w.woken [ err e ↦ returns (err (wait_error e)) nothing [] ctx' | ok _ ↦ rest ]

-- RTSER_RTIOC_WAIT_EVENT
unfoldable pub request_wait : Caller → List Wait → Context → Outcome
request_wait caller ws ctx =
    if not caller.in_rt
    then returns (err enosys) nothing [] ctx
    else if ctx.ioc_event_lock
    then returns (err ebusy) nothing [] ctx
    else release (wait_loop caller ws (record ctx { ioc_event_lock = true }))

-- `rt_16550_ioctl`
unfoldable pub rt_16550_ioctl : ℕ → Caller → List Wait → SerialRequest → Context → Outcome
rt_16550_ioctl baud_base caller ws get_config ctx = store caller (config_reply ctx.config) ctx
rt_16550_ioctl baud_base caller ws (set_config config) ctx =
    request_config baud_base caller config ctx
rt_16550_ioctl baud_base caller ws get_status ctx = request_status caller ctx
rt_16550_ioctl baud_base caller ws get_control ctx = store caller (control_reply ctx.mcr_status) ctx
rt_16550_ioctl baud_base caller ws (set_control value) ctx =
    returns (ok tt) nothing [] (outb value mcr (record ctx { mcr_status = value }))
rt_16550_ioctl baud_base caller ws wait_event ctx = request_wait caller ws ctx
rt_16550_ioctl baud_base caller ws (purge arg) ctx =
    returns (ok tt) nothing [] (request_purge arg ctx)
rt_16550_ioctl baud_base caller ws other_request ctx = returns (err enotty) nothing [] ctx
