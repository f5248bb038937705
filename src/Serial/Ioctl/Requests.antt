-- ===== src/Serial/Ioctl/Requests.antt =====
-- What the requests on a serial device do to its queues, its history buffers and its lock of waiters.
use rtdm_native.Prelude.{
  ℕ, ◌+◌, ◌≡◌, ◌≢◌, refl, ap, ◌∙◌, sym, subst, inl, inr, ◌⊎◌, arith, Bool, true, false, not, ◌&&◌,
  Bool-cases, ◌==◌, if◌then◌else◌, List, [], ◌∷◌, length, Option, none, some,
}
use rtdm_native.Rtdm.Errno.{Status, ok, err, efault}
use rtdm_native.Serial.Types.{
  Context, RtserConfig, outb, testbits, set_timestamp_history_flag, rx_timestamp_history,
}
use rtdm_native.Serial.Queue.{InQueue, OutQueue, IsQueue}
use rtdm_native.Serial.Config.{
  set_line, set_fifo, set_timeouts, swap_history, set_history, set_event_mask, set_handshake,
  set_rest,
}
use rtdm_native.Serial.Ioctl.{
  rtdm_purge_rx_buffer, rtdm_purge_tx_buffer, Caller, SerialReply, RtserEvent, event_reply, nothing,
  Outcome, returns, still_waiting, store, buffers, purge_rx, purge_tx, request_purge, Wait, release,
  take_events, want_errors, wait_error, wait_loop, request_wait,
}

empty-IsQueue : (buf : ℕ → ℕ) → IsQueue buf 0 0 0 []
empty-IsQueue buf = record {
  head_small = omega arith;
  fits = omega arith;
  behind = refl;
  bytes = refl;
}

purge_rx-queues :
    (arg : ℕ) (ctx : Context) (xs zs : List ℕ)
    → InQueue ctx xs
    → OutQueue ctx zs
    → InQueue (purge_rx arg ctx).1 (if testbits arg rtdm_purge_rx_buffer then [] else xs)
      × OutQueue (purge_rx arg ctx).1 zs
unfolding purge_rx
purge_rx-queues arg ctx xs zs q q' = elim (Bool-cases (testbits arg rtdm_purge_rx_buffer)) [
  | inl e ↦ rw e (empty-IsQueue ctx.in_buf, q')
  | inr e ↦ rw e (q, q')
]

purge_tx-queues :
    (arg fcr_bits : ℕ) (ctx : Context) (xs zs : List ℕ)
    → InQueue ctx xs
    → OutQueue ctx zs
    → InQueue (purge_tx arg (fcr_bits, ctx)).1 xs
      × OutQueue
          (purge_tx arg (fcr_bits, ctx)).1
          (if testbits arg rtdm_purge_tx_buffer then [] else zs)
unfolding purge_tx
purge_tx-queues arg fcr_bits ctx xs zs q q' =
    elim (Bool-cases (testbits arg rtdm_purge_tx_buffer)) [
      | inl e ↦ rw e (q, empty-IsQueue ctx.out_buf)
      | inr e ↦ rw e (q, q')
    ]

-- A purge empties the queues that it names and keeps the others.
pub request_purge-queues :
    (arg : ℕ) (ctx : Context) (xs zs : List ℕ)
    → InQueue ctx xs
    → OutQueue ctx zs
    → InQueue (request_purge arg ctx) (if testbits arg rtdm_purge_rx_buffer then [] else xs)
      × OutQueue (request_purge arg ctx) (if testbits arg rtdm_purge_tx_buffer then [] else zs)
unfolding request_purge outb
request_purge-queues arg ctx xs zs q q' =
    let rx = purge_rx-queues arg ctx xs zs q q' in
    let tx = purge_tx-queues arg (purge_rx arg ctx).0 (purge_rx arg ctx).1 _ zs rx.0 rx.1 in
    ground (arith, tx)

swap_history-buffers :
    (wanted : Bool) (buffer history : Option (ℕ → ℕ))
    → (wanted ≡ true) ⊎ (buffer ≡ none)
    → let r = swap_history wanted buffer history in
      length (buffers r.1) + length (buffers r.2)
      ≡ length (buffers buffer) + length (buffers history)
unfolding swap_history
swap_history-buffers true none none fit = refl
swap_history-buffers true none (some h) fit = refl
swap_history-buffers true (some b) none fit = refl
swap_history-buffers true (some b) (some h) fit = refl
swap_history-buffers false none none fit = refl
swap_history-buffers false none (some h) fit = refl
swap_history-buffers false (some b) history (inl no_history) = absurd (ground (arith, no_history))
swap_history-buffers false (some b) history (inr no_buffer) = absurd (ground (arith, no_buffer))

set_history-buffers :
    (config : RtserConfig) (buffer : Option (ℕ → ℕ)) (ctx : Context)
    → (testbits config.timestamp_history rx_timestamp_history ≡ true) ⊎ (buffer ≡ none)
    → let r = set_history config buffer ctx in
      length (buffers r.1) + length (buffers r.2.in_history)
      ≡ length (buffers buffer) + length (buffers ctx.in_history)
unfolding set_history
set_history-buffers config buffer ctx fit =
    elim (Bool-cases (testbits config.config_mask set_timestamp_history_flag)) [
      | inl e ↦ rw e (swap_history-buffers _ buffer ctx.in_history fit)
      | inr e ↦ rw e refl
    ]

line_settings-in_history :
    (config : RtserConfig) (ctx : Context)
    → (set_timeouts config (set_fifo config (set_line config ctx))).in_history ≡ ctx.in_history
unfolding set_timeouts set_fifo set_line outb
line_settings-in_history config ctx = ground arith

event_settings-in_history :
    (config : RtserConfig) (ctx : Context)
    → (set_handshake config (set_event_mask config ctx)).in_history ≡ ctx.in_history
unfolding set_handshake set_event_mask outb
event_settings-in_history config ctx = ground arith

-- A configuration that wants a history or brings no buffer, as those of the request do, loses no
-- history buffer and makes none: those that the caller has to free and the one of
-- the device are, together, as many as before.
pub set_rest-buffers :
    (config : RtserConfig) (buffer : Option (ℕ → ℕ)) (ctx : Context)
    → (testbits config.timestamp_history rx_timestamp_history ≡ true) ⊎ (buffer ≡ none)
    → length (buffers (set_rest config buffer ctx).1)
        + length (buffers (set_rest config buffer ctx).2.in_history)
      ≡ length (buffers buffer) + length (buffers ctx.in_history)
unfolding set_rest
set_rest-buffers config buffer ctx fit =
    let start = set_timeouts config (set_fifo config (set_line config ctx)) in
    ap (λ h. length (buffers (set_history config buffer start).1) + length (buffers h))
      (event_settings-in_history config _)
    ∙ set_history-buffers config buffer start fit
    ∙ ap (λ h. length (buffers buffer) + length (buffers h)) (line_settings-in_history config ctx)

-- A reply that reports at least one event, or an error without a reply.
pub Reports : Status → SerialReply → Type 0
Reports (ok _) reply = (ev : RtserEvent) × (reply ≡ event_reply ev) × (ev.events ≢ 0)
Reports (err e) reply = reply ≡ nothing

-- The wait goes on, or it is over and the lock of the waiters is free.
pub Waits : Outcome → Type 0
Waits outcome =
    (outcome ≡ still_waiting)
    ⊎ ((status : Status) × (reply : SerialReply) × (freed : List (ℕ → ℕ)) × (ctx' : Context)
        × (outcome ≡ returns status reply freed ctx')
        × (ctx'.ioc_event_lock ≡ false)
        × Reports status reply)

store-Waits :
    (caller : Caller) (ev : RtserEvent) (ctx : Context)
    → ev.events ≢ 0
    → Waits (release (store caller (event_reply ev) ctx))
unfolding Waits store Reports release
store-Waits caller ev ctx some_event =
    let unlocked : Context = record ctx { ioc_event_lock = false } in
    elim (Bool-cases (caller.user && not caller.copies)) [
      | inl e ↦ inr (err efault, nothing, [], unlocked, rw e refl, refl, refl)
      | inr e ↦ inr (ok tt, event_reply ev, [], unlocked, rw e refl, refl, (ev, refl, some_event))
    ]

take_events-Waits :
    (caller : Caller) (ctx : Context)
    → ctx.ioc_events ≢ 0
    → Waits (release (take_events caller ctx))
unfolding take_events
take_events-Waits caller ctx some_event = store-Waits caller _ _ some_event

wait_result :
    (status : Status) (ctx : Context) (rest : Outcome)
    → Waits (release rest)
    → Waits (
        release (elim status [ err e ↦ returns (err (wait_error e)) nothing [] ctx | ok _ ↦ rest ]))
unfolding Waits release Reports
wait_result (err e) ctx rest h =
    inr (err (wait_error e), nothing, [], record ctx { ioc_event_lock = false }, refl, refl, refl)
wait_result (ok _) ctx rest h = h

still : Waits (release still_waiting)
unfolding Waits release
still = inl refl

wait_loop-Waits :
    (caller : Caller) (ws : List Wait) (ctx : Context) → Waits (release (wait_loop caller ws ctx))
unfolding wait_loop
wait_loop-Waits caller [] ctx = elim (Bool-cases (ctx.ioc_events == 0)) [
  | inl e ↦ rw e still
  | inr e ↦ rw e (take_events-Waits caller ctx (ground (arith, e)))
]
wait_loop-Waits caller (w ∷ ws) ctx = elim (Bool-cases (ctx.ioc_events == 0)) [
  | inr e ↦ rw e (take_events-Waits caller ctx (ground (arith, e)))
  | inl e ↦ rw e (
      wait_result w.woken (w.meanwhile (want_errors ctx)) _
        (wait_loop-Waits caller ws (w.meanwhile (want_errors ctx))))
]

wait_starts :
    (caller : Caller) (ws : List Wait) (ctx : Context)
    → caller.in_rt ≡ true
    → ctx.ioc_event_lock ≡ false
    → request_wait caller ws ctx
      ≡ release (wait_loop caller ws (record ctx { ioc_event_lock = true }))
unfolding request_wait
wait_starts caller ws ctx real_time free = ground (arith, real_time, free)

-- The only waiter of a real-time context either still waits or leaves the lock free: with an error, or with
-- 0 and the events, of which there is one at least.
pub request_wait-Waits :
    (caller : Caller) (ws : List Wait) (ctx : Context)
    → caller.in_rt ≡ true
    → ctx.ioc_event_lock ≡ false
    → Waits (request_wait caller ws ctx)
request_wait-Waits caller ws ctx real_time free =
    subst Waits (sym (wait_starts caller ws ctx real_time free))
      (wait_loop-Waits caller ws (record ctx { ioc_event_lock = true }))
