-- ===== src/Serial/Transfer/Writing.antt =====
-- What a writer of the serial driver does to the output queue.
use rtdm_native.Prelude.{
  ℕ, ◌+◌, ◌-◌, ◌≤◌, ◌<◌, ◌≡◌, refl, ap, ap₂, ◌∙◌, sym, subst, inl, inr, arith, true, false,
  Bool-cases, ltb, leb, positive-ne, if◌then◌else◌, List, [], ◌∷◌, ◌++◌, take, drop, length,
  length-drop, take-all, none, some,
}
use rtdm_native.Prelude.Int.{ℤ}
use rtdm_native.Memory.Window.{put_bytes, memcpy_to-put_bytes, memcpy_to_split}
use rtdm_native.Rtdm.Errno.{ok, Status}
use rtdm_native.Serial.Types.{Context, wrap, outb}
use rtdm_native.Serial.Queue.{OutQueue, IsQueue, npend-length, put-IsQueue}
use rtdm_native.Serial.Irq.Progress.{Progress}
use rtdm_native.Serial.Transfer.{
  Turn, again_write, call_result, copy_from_caller, put_block, write_block, write_round, write_end,
  write_loop, rt_16550_write,
}

copy_from_caller-put_bytes :
    (buf : ℕ → ℕ) (out_pos : ℕ) (bytes : List ℕ)
    → out_pos < 4096
    → length bytes ≤ 4096
    → copy_from_caller buf out_pos bytes ≡ put_bytes 4096 buf out_pos bytes
unfolding copy_from_caller
copy_from_caller-put_bytes buf out_pos bytes lt fits =
    elim (Bool-cases (ltb 4096 (out_pos + length bytes))) [
      | inl e ↦ rw e (
          memcpy_to_split 4096 (4096 - out_pos) buf out_pos bytes (omega arith) (ground arith) fits
            (omega arith))
      | inr e ↦ rw e (memcpy_to-put_bytes 4096 buf out_pos bytes lt (ground arith))
    ]

-- The bytes are copied behind the queue; that is where it ends, however much of it is sent meanwhile.
put_block-OutQueue :
    (ctx : Context) (zs bytes : List ℕ)
    → OutQueue ctx zs
    → length zs + length bytes ≤ 4096
    → OutQueue
        (put_block
          (length bytes)
          (record ctx { out_buf = copy_from_caller ctx.out_buf ctx.out_tail bytes }))
        (zs ++ bytes)
unfolding put_block outb
put_block-OutQueue ctx zs bytes q room =
    subst
      (λ buf.
        IsQueue buf ctx.out_head (wrap (ctx.out_tail + length bytes)) (ctx.out_npend + length bytes)
          (zs ++ bytes))
      (sym (
        copy_from_caller-put_bytes ctx.out_buf ctx.out_tail bytes (omega (arith, q.behind))
          (omega (arith, room))))
      (put-IsQueue bytes q (omega (arith, room, npend-length q)))

-- The context behind the round that queues all of `bytes`.
abbrev queued : Context → List ℕ → Context
queued ctx bytes =
    put_block (length bytes)
      (record ctx { out_buf = copy_from_caller ctx.out_buf ctx.out_tail bytes })

write_round-block :
    (t : Turn) (nbyte : ℕ) (bytes : List ℕ) (ctx : Context)
    → ltb 0 (4096 - ctx.out_npend) ≡ true
    → write_round t true nbyte bytes 0 (ok 0) ctx ≡ write_block t true nbyte bytes 0 (ok 0) ctx
unfolding write_round
write_round-block t nbyte bytes ctx e = ground (arith, e)

write_block-all :
    (t : Turn) (bytes : List ℕ) (ctx : Context)
    → t.fault ≡ none
    → ctx.out_npend + length bytes ≤ 4096
    → (t.before ctx).out_tail ≡ ctx.out_tail
    → ((c : Context) → t.after c ≡ c)
    → write_block t true (length bytes) bytes 0 (ok 0) ctx
      ≡ again_write 0
          (drop (length bytes) bytes)
          (length bytes)
          (ok 0)
          (queued (t.before ctx) bytes)
unfolding write_block
write_block-all t bytes ctx whole room same still =
    let n = length bytes in
    let sending = t.before ctx in
    let block : (if leb n (4096 - ctx.out_npend) then n else 4096 - ctx.out_npend) ≡ n =
      ground (arith, room) in
    rw (whole) (
      ap
        (λ b. again_write (n - b) (drop b bytes) (0 + b) (ok 0) (
          put_block b (
            t.after (record sending {
              out_buf = copy_from_caller sending.out_buf ctx.out_tail (take b bytes);
            }))))
        block
      ∙ ap (λ c. again_write (n - n) (drop n bytes) (0 + n) (ok 0) (put_block n c)) (still _)
      ∙ ap₂
          (λ tail l.
            again_write (n - n) (drop n bytes) (0 + n) (ok 0)
              (put_block n (record sending { out_buf = copy_from_caller sending.out_buf tail l })))
          (sym same) (take-all bytes)
      ∙ ap₂ (λ a b. again_write a (drop n bytes) b (ok 0) (queued sending bytes)) (omega arith)
          (omega arith))

one_write :
    (t : Turn) (ts : List Turn) (bytes : List ℕ) (ctx c : Context)
    → 0 < length bytes
    → write_round t true (length bytes) bytes 0 (ok 0) ctx
      ≡ again_write 0 (drop (length bytes) bytes) (length bytes) (ok 0) c
    → write_loop (t ∷ ts) true (length bytes) bytes 0 (ok 0) ctx
      ≡ some (ok (length bytes), record c { out_lock = false })
unfolding write_loop write_end call_result
one_write t ts bytes ctx c some_asked e =
    rw (positive-ne (length bytes) some_asked, e) (last_write ts)
  where
    last_write :
        (ts : List Turn)
        → write_loop ts true 0 (drop (length bytes) bytes) (length bytes) (ok 0) c
          ≡ some (ok (length bytes), record c { out_lock = false })
    last_write [] = ground (arith, some_asked)
    last_write (t ∷ ts) = ground (arith, some_asked)

write_starts :
    (lock : ℤ → Context → Status × Context) (ts : List Turn) (bytes : List ℕ) (ctx : Context)
    → 0 < length bytes
    → lock ctx.config.rx_timeout ctx ≡ (ok tt, record ctx { out_lock = true })
    → rt_16550_write lock ts true true (length bytes) bytes ctx
      ≡ write_loop ts true (length bytes) bytes 0 (ok 0) (record ctx { out_lock = true })
unfolding rt_16550_write
write_starts lock ts bytes ctx some_asked free =
    rw (positive-ne (length bytes) some_asked, free)
      (ap (λ r. write_loop ts true (length bytes) bytes 0 (ok 0) r.1) free)

-- A writer in user space whose bytes find room queues all of them, in their order, behind what is left of the
-- queue, and returns their count. The mutex is free, there is no fault, and interrupts only send.
pub rt_16550_write-queues :
    (lock : ℤ → Context → Status × Context) (t : Turn) (ts : List Turn) (bytes : List ℕ)
    (ctx : Context) (zs cs : List ℕ) (sent : ℕ)
    → lock ctx.config.rx_timeout ctx ≡ (ok tt, record ctx { out_lock = true })
    → 0 < length bytes
    → length zs + length bytes ≤ 4096
    → OutQueue ctx zs
    → t.fault ≡ none
    → Progress (record ctx { out_lock = true }) (t.before (record ctx { out_lock = true })) cs sent
    → ((c : Context) → t.after c ≡ c)
    → (ctx' : Context) × (rt_16550_write lock (t ∷ ts) true true (length bytes) bytes ctx
        ≡ some (ok (length bytes), ctx'))
      × OutQueue ctx' (drop sent zs ++ bytes)
      × (ctx'.out_lock ≡ false)
rt_16550_write-queues lock t ts bytes ctx zs cs sent free some_asked room q whole p still =
    let locked : Context = record ctx { out_lock = true } in
    let sending = t.before locked in
    let last = queued sending bytes in
    let left : length (drop sent zs) ≤ length zs = omega (arith, length-drop sent zs) in
    let fits : ltb 0 (4096 - ctx.out_npend) ≡ true =
      ground (arith, some_asked, room, npend-length q) in
    let round =
      write_round-block t (length bytes) bytes locked fits
      ∙ write_block-all t bytes locked whole (omega (arith, room, npend-length q)) p.same_tail
          still in
    (
      record last { out_lock = false },
      write_starts lock (t ∷ ts) bytes ctx some_asked free
          ∙ one_write t ts bytes locked last some_asked round,
      put_block-OutQueue sending (drop sent zs) bytes (p.out_queue zs q)
          (omega (arith, room, left)),
      refl,
    )
