-- ===== src/Serial/Transfer/Reading.antt =====
-- What a reader of the serial driver gets: the first bytes of the input queue, in their order.
use rtdm_native.Prelude.{
  ℕ, ◌+◌, ◌-◌, ◌≤◌, ◌<◌, ◌≡◌, refl, ap, ◌∙◌, sym, subst, inl, inr, arith, Bool, true, Bool-cases,
  ltb, leb, if◌then◌else◌, List, [], ◌∷◌, ◌++◌, take, drop, take-within, drop-within, none, some,
}
use rtdm_native.Memory.Window.{window, memcpy_from-window, memcpy_from_split}
use rtdm_native.Rtdm.Errno.{Result}
use rtdm_native.Serial.Types.{Context, outb}
use rtdm_native.Serial.Queue.{InQueue, npend-length, window-take, drop-IsQueue}
use rtdm_native.Serial.Irq.Progress.{Progress, both}
use rtdm_native.Serial.Transfer.{
  Turn, again, copy_to_caller, listen_errors, take_block, read_block, read_round, read_end,
  read_loop,
}

copy_to_caller-window :
    (buf : ℕ → ℕ) (in_pos block : ℕ)
    → in_pos < 4096
    → block ≤ 4096
    → copy_to_caller buf in_pos block ≡ window 4096 buf in_pos block
unfolding copy_to_caller
copy_to_caller-window buf in_pos block lt fits = elim (Bool-cases (ltb 4096 (in_pos + block))) [
  | inl e ↦ rw e (
      memcpy_from_split 4096 buf in_pos (4096 - in_pos) (block - (4096 - in_pos)) (omega arith)
        (omega arith) (omega arith)
      ∙ ap (window 4096 buf in_pos) (ground arith))
  | inr e ↦ rw e (memcpy_from-window 4096 buf in_pos block lt (ground arith))
]

pub take_block-InQueue :
    (block : ℕ) (ctx : Context) (xs : List ℕ)
    → block ≤ ctx.in_npend
    → InQueue ctx xs
    → InQueue (take_block block ctx) (drop block xs)
unfolding take_block
take_block-InQueue block ctx xs le q = drop-IsQueue block q le

pub listen_errors-InQueue :
    (ctx : Context) (xs : List ℕ) → InQueue ctx xs → InQueue (listen_errors ctx) xs
unfolding listen_errors outb
listen_errors-InQueue ctx xs q = ground (arith, q)

-- The bytes that a round copies are the first of the queue, whatever arrives meanwhile.
copied :
    (block : ℕ) (ctx ctx' : Context) (xs cs : List ℕ) (sent : ℕ)
    → InQueue ctx xs
    → block ≤ ctx.in_npend
    → Progress ctx ctx' cs sent
    → copy_to_caller ctx'.in_buf ctx.in_head block ≡ take block xs
copied block ctx ctx' xs cs sent q le p =
    let q' = p.in_queue xs q in
    copy_to_caller-window ctx'.in_buf ctx.in_head block q.head_small (omega (arith, le, q.fits))
    ∙ ap (λ h. window 4096 ctx'.in_buf h block) (sym p.same_head)
    ∙ window-take block q' (omega (arith, le, p.count))
    ∙ take-within block xs cs (omega (arith, npend-length q))

-- `if a <= b then a else b`, as the code writes it.
abbrev pub lesser : ℕ → ℕ → ℕ
lesser a b = if leb a b then a else b

pub read_block-again :
    (t : Turn) (nbyte : ℕ) (got : List ℕ) (ret : Result ℕ) (nonblocking : Bool) (ctx : Context)
    (xs cs ds : List ℕ) (m n : ℕ)
    → t.fault ≡ none
    → InQueue ctx xs
    → Progress ctx (t.before ctx) cs m
    → Progress (t.before ctx) (t.after (t.before ctx)) ds n
    → let block = lesser ctx.in_npend nbyte in
      let ctx' = take_block block (t.after (t.before ctx)) in
      (read_block t nbyte got ret nonblocking ctx
        ≡ again (nbyte - block) (got ++ take block xs) ret nonblocking ctx')
      × InQueue ctx' (drop block xs ++ (cs ++ ds))
unfolding read_block
read_block-again t nbyte got ret nonblocking ctx xs cs ds m n whole q p p' =
    let block = lesser ctx.in_npend nbyte in
    let le : block ≤ ctx.in_npend = ground arith in
    let all = both p p' in
    (
      rw (whole, copied block ctx (t.before ctx) xs cs m q le p) refl,
      subst (InQueue (take_block block (t.after (t.before ctx))))
          (drop-within block xs (cs ++ ds) (omega (arith, le, npend-length q)))
          (take_block-InQueue block _ (xs ++ (cs ++ ds)) (omega (arith, le, all.count))
            (all.in_queue xs q)),
    )

pub listen_errors-ring :
    (ctx : Context)
    → ((listen_errors ctx).status ≡ ctx.status) × ((listen_errors ctx).in_npend ≡ ctx.in_npend)
unfolding listen_errors outb
listen_errors-ring ctx = ground arith

pub read_round-block :
    (t : Turn) (nbyte : ℕ) (got : List ℕ) (ret : Result ℕ) (nonblocking : Bool) (ctx : Context)
    → ctx.status ≡ 0
    → 0 < ctx.in_npend
    → read_round t nbyte got ret nonblocking ctx
      ≡ read_block t nbyte got ret nonblocking (listen_errors ctx)
unfolding read_round
read_round-block t nbyte got ret nonblocking ctx clean pending =
    ground (arith, clean, pending, listen_errors-ring ctx)

-- The context behind the first steps of a reader.
abbrev pub reading : Context → Context
reading ctx = listen_errors (record ctx { in_lock = true })

pub last_round :
    (ts : List Turn) (got : List ℕ) (ret : Result ℕ) (nonblocking : Bool) (ctx : Context)
    → read_loop ts 0 got ret nonblocking ctx ≡ some (read_end ret got ctx)
unfolding read_loop
last_round [] got ret nonblocking ctx = refl
last_round (t ∷ ts) got ret nonblocking ctx = refl
