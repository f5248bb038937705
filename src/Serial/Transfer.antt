-- ===== src/Serial/Transfer.antt =====
-- `rt_16550_read` and `rt_16550_write` of ksrc/drivers/serial/16550A.c. A call is a list of turns, one for
-- each round of its loop, with what interrupts and other tasks do to the context in between.
pub mod Reading
pub mod Polling
pub mod Writing
use rtdm_native.Prelude.{
  ℕ, zero, suc, ◌+◌, ◌-◌, ◌%◌, ◌^◌, bit_and, bit_or, Bool, true, false, not, ◌&&◌, ◌||◌, ltb, leb,
  ◌==◌, if◌then◌else◌, List, [], ◌∷◌, ◌++◌, take, drop, length, Option, none, some, ◌≡◌,
}
use rtdm_native.Prelude.Bits.{bit_clear}
use rtdm_native.Prelude.Int.{ℤ, pos, negsuc, ltb_ℤ}
use rtdm_native.Memory.{memcpy_to, memcpy_from}
use rtdm_native.Rtdm.Errno.{
  Result, ok, err, Status, Errno, eio, eintr, eagain, ebadf, efault, ebusy, epipe, eidrm, etimedout,
  ewouldblock,
}
use rtdm_native.Serial.Types.{
  Context, in_buffer_size, out_buffer_size, ier, ier_tx, ier_stat, lsr_errors, lsr_break_ind,
  soft_overrun_err, event_rxpend, testbits, outb, wrap,
}

-- One round of a loop: what happens before the copy of the bytes or while the task waits, what happens
-- behind the copy, and how the wait ends. `fault` is the count of bytes that a copy to or from user
-- memory does before it meets a fault; `none` is a copy without one, as those of kernel callers are.
pub record Turn : Type 0 where
  pub before : Context → Context
  pub after : Context → Context
  pub fault : Option ℕ
  pub woken : Status

-- The errors that do not hide the bytes that were moved before them; -EWOULDBLOCK is -EAGAIN.
pub is_soft : Errno → Bool
is_soft eagain = true
is_soft etimedout = true
is_soft eintr = true
is_soft ewouldblock = true
is_soft e = false

-- The result of a call that moved `count` bytes.
unfoldable pub call_result : Result ℕ → ℕ → Result ℕ
unfolding is_soft
call_result (ok n) count = if ltb 0 count then ok count else ok n
call_result (err e) count = if ltb 0 count && is_soft e then ok count else err e

-- A round ends the loop, ends the whole call at once, or goes on.
pub data Round : Type 0 where
  break_loop : Result ℕ → List ℕ → Context → Round
  return_now : Result ℕ → List ℕ → Context → Round
  again : ℕ → List ℕ → Result ℕ → Bool → Context → Round

-- The bytes of the ring from `in_pos` on, in one or two copies.
unfoldable pub copy_to_caller : (ℕ → ℕ) → ℕ → ℕ → List ℕ
copy_to_caller buf in_pos block =
    let first = in_buffer_size - in_pos in
    if ltb in_buffer_size (in_pos + block)
    then memcpy_from buf in_pos first ++ memcpy_from buf 0 (block - first)
    else memcpy_from buf in_pos block

-- A `size_t` in an `int`.
unfoldable pub as_int : ℕ → ℤ
as_int n = let m = n % 2 ^ 32 in if ltb m (2 ^ 31) then pos m else negsuc (2 ^ 32 - 1 - m)

-- The reader switches the line status interrupt on.
unfoldable pub listen_errors : Context → Context
listen_errors ctx =
    let enabled = bit_or ctx.ier_status ier_stat in
    if testbits ctx.ier_status ier_stat
    then ctx
    else outb enabled ier (record ctx { ier_status = enabled })

-- The critical section behind the copy of `block` bytes.
unfoldable pub take_block : ℕ → Context → Context
take_block block ctx =
    let left = ctx.in_npend - block in
    record ctx {
      in_head = wrap (ctx.in_head + block);
      in_npend = left;
      ioc_events = if left == 0 then bit_clear ctx.ioc_events event_rxpend else ctx.ioc_events;
    }

-- The round of a reader that has to wait.
unfoldable pub read_wait : Turn → ℕ → List ℕ → Bool → Context → Round
read_wait t nbyte got nonblocking ctx =
    let ctx' = t.before (record ctx { in_nwait = as_int nbyte }) in
    elim t.woken [
      | ok _ ↦ again nbyte got (ok 0) nonblocking ctx'
      | err eidrm ↦ return_now (err ebadf) got ctx'
      | err e ↦
          if ltb 0 ctx'.in_npend
          then again nbyte got (err e) true ctx'
          else break_loop (err e) got (record ctx' { in_nwait = pos 0 })
    ]

-- The round of a reader that finds bytes.
unfoldable pub read_block : Turn → ℕ → List ℕ → Result ℕ → Bool → Context → Round
read_block t nbyte got ret nonblocking ctx =
    let block = if leb ctx.in_npend nbyte then ctx.in_npend else nbyte in
    let ctx' = t.before ctx in
    elim t.fault [
      | some n ↦ break_loop (err efault) got ctx'
      | none ↦
          again (nbyte - block) (got ++ copy_to_caller ctx'.in_buf ctx.in_head block) ret
            nonblocking (take_block block (t.after ctx'))
    ]

-- The errors that a later RTSER_RTIOC_GET_STATUS reports.
unfoldable pub save_errors : Context → Context
save_errors ctx = record ctx {
  saved_errors = bit_and ctx.status (lsr_errors - lsr_break_ind + soft_overrun_err);
  status = 0;
}

unfoldable pub read_round : Turn → ℕ → List ℕ → Result ℕ → Bool → Context → Round
read_round t nbyte got ret nonblocking ctx =
    let ctx' = listen_errors ctx in
    if not (ctx'.status == 0)
    then break_loop (err (if testbits ctx'.status lsr_break_ind then epipe else eio)) got
        (save_errors ctx')
    else if ltb 0 ctx'.in_npend
    then read_block t nbyte got ret nonblocking ctx'
    else if nonblocking
    then break_loop ret got ctx'
    else read_wait t nbyte got nonblocking ctx'

-- Behind the loop: the reader's lock is released.
unfoldable pub read_end : Result ℕ → List ℕ → Context → Result ℕ × List ℕ × Context
read_end ret got ctx = (call_result ret (length got), got, record ctx { in_lock = false })

-- The loop: the result, the bytes in the caller's buffer and the context; `none`: the task is still in
-- the loop when the turns end.
unfoldable pub read_loop :
    List Turn → ℕ → List ℕ → Result ℕ → Bool → Context → Option (Result ℕ × List ℕ × Context)
read_loop [] nbyte got ret nonblocking ctx =
    if nbyte == 0 then some (read_end ret got ctx) else none
read_loop (t ∷ ts) nbyte got ret nonblocking ctx =
    if nbyte == 0
    then some (read_end ret got ctx)
    else elim (read_round t nbyte got ret nonblocking ctx) [
      | break_loop r g c ↦ some (read_end r g c)
      | return_now r g c ↦ some (r, g, c)
      | again n g r nb c ↦ read_loop ts n g r nb c
    ]

-- `rt_16550_read`; `user_ok` is false if `user_info` is set and `rtdm_rw_user_ok` fails.
unfoldable pub rt_16550_read : List Turn → Bool → ℕ → Context → Option (Result ℕ × List ℕ × Context)
rt_16550_read turns user_ok nbyte ctx =
    if nbyte == 0
    then some (ok 0, [], ctx)
    else if not user_ok
    then some (err efault, [], ctx)
    else if ctx.in_lock
    then some (err ebusy, [], ctx)
    else read_loop turns nbyte [] (err eagain) (ltb_ℤ ctx.config.rx_timeout (pos 0))
        (record ctx { in_lock = true })

-- The bytes into the ring from `out_pos` on, in one or two copies.
unfoldable pub copy_from_caller : (ℕ → ℕ) → ℕ → List ℕ → ℕ → ℕ
copy_from_caller buf out_pos bytes =
    let first = out_buffer_size - out_pos in
    if ltb out_buffer_size (out_pos + length bytes)
    then memcpy_to (memcpy_to buf out_pos (take first bytes)) 0 (drop first bytes)
    else memcpy_to buf out_pos bytes

-- The same for a kernel caller, where the second copy has the length of both: `memory` is what
-- stands at the caller's buffer and behind it.
unfoldable pub copy_from_kernel : (ℕ → ℕ) → ℕ → ℕ → List ℕ → ℕ → ℕ
copy_from_kernel buf out_pos block memory =
    let first = out_buffer_size - out_pos in
    if ltb out_buffer_size (out_pos + block)
    then memcpy_to (memcpy_to buf out_pos (take first memory)) 0 (take block (drop first memory))
    else memcpy_to buf out_pos (take block memory)

-- The critical section behind the copy: the bytes are pending, and the transmitter is switched on.
unfoldable pub put_block : ℕ → Context → Context
put_block block ctx =
    let enabled = bit_or ctx.ier_status ier_tx in
    outb enabled ier (record ctx {
      out_tail = wrap (ctx.out_tail + block);
      out_npend = ctx.out_npend + block;
      ier_status = enabled;
    })

-- A round of the writer that finds room. `nbyte` bytes of `memory` are still to be written; `user` says
-- whether they are in user memory. `done` counts the bytes written.
pub data WriteRound : Type 0 where
  leave_write abort_write : Result ℕ → ℕ → Context → WriteRound
  again_write : ℕ → List ℕ → ℕ → Result ℕ → Context → WriteRound

unfoldable pub write_block : Turn → Bool → ℕ → List ℕ → ℕ → Result ℕ → Context → WriteRound
write_block t user nbyte memory done ret ctx =
    let room = out_buffer_size - ctx.out_npend in
    let block = if leb nbyte room then nbyte else room in
    let ctx' = t.before ctx in
    elim t.fault [
      | some n ↦
          leave_write (err efault) done
            (record ctx' { out_buf = copy_from_caller ctx'.out_buf ctx.out_tail (take n memory) })
      | none ↦
          let buf =
            if user
            then copy_from_caller ctx'.out_buf ctx.out_tail (take block memory)
            else copy_from_kernel ctx'.out_buf ctx.out_tail block memory in
          again_write (nbyte - block) (drop block memory) (done + block) ret
            (put_block block (t.after (record ctx' { out_buf = buf })))
    ]

-- A round of the writer that waits for the transmission.
unfoldable pub write_wait : Turn → ℕ → List ℕ → ℕ → Context → WriteRound
write_wait t nbyte memory done ctx =
    let ctx' = t.before ctx in
    elim t.woken [
      | ok _ ↦ again_write nbyte memory done (ok 0) ctx'
      | err eidrm ↦ abort_write (err ebadf) done ctx'
      | err ewouldblock ↦ leave_write (err eagain) done ctx'
      | err e ↦ leave_write (err e) done ctx'
    ]

unfoldable pub write_round : Turn → Bool → ℕ → List ℕ → ℕ → Result ℕ → Context → WriteRound
write_round t user nbyte memory done ret ctx =
    if ltb 0 (out_buffer_size - ctx.out_npend)
    then write_block t user nbyte memory done ret ctx
    else write_wait t nbyte memory done ctx

-- Behind the loop: the mutex is released.
unfoldable pub write_end : Result ℕ → ℕ → Context → Result ℕ × Context
write_end ret done ctx = (call_result ret done, record ctx { out_lock = false })

unfoldable pub write_loop :
    List Turn → Bool → ℕ → List ℕ → ℕ → Result ℕ → Context → Option (Result ℕ × Context)
write_loop [] user nbyte memory done ret ctx =
    if nbyte == 0 then some (write_end ret done ctx) else none
write_loop (t ∷ ts) user nbyte memory done ret ctx =
    if nbyte == 0
    then some (write_end ret done ctx)
    else elim (write_round t user nbyte memory done ret ctx) [
      | leave_write r d c ↦ some (write_end r d c)
      | abort_write r d c ↦ some (r, c)
      | again_write n m d r c ↦ write_loop ts user n m d r c
    ]

-- `rt_16550_write`. `lock` is `rtdm_mutex_timedlock(&ctx->out_lock, ctx->config.rx_timeout, ...)`, whose
-- timeout is that of the readers: its result, and the context when it returns.
unfoldable pub rt_16550_write :
    (ℤ → Context → Status × Context)
    → List Turn
    → Bool
    → Bool
    → ℕ
    → List ℕ
    → Context
    → Option (Result ℕ × Context)
rt_16550_write lock turns user user_ok nbyte memory ctx =
    if nbyte == 0
    then some (ok 0, ctx)
    else if user && not user_ok
    then some (err efault, ctx)
    else let (status, ctx') = lock ctx.config.rx_timeout ctx in
      elim status [
        | err e ↦ some (err e, ctx')
        | ok _ ↦ write_loop turns user nbyte memory 0 (ok 0) ctx'
      ]
