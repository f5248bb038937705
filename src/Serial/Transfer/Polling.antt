-- ===== src/Serial/Transfer/Polling.antt =====
-- A reader of the serial driver that does not block returns, with a part of the stream of bytes.
use rtdm_native.Prelude.{
  Bool, ◌&&◌, ℕ, ◌-◌, ◌≤◌, ◌<◌, ◌≡◌, ◌⊎◌, true, false, ltb, ◌==◌, if◌then◌else◌, List, [], ◌∷◌,
  ◌++◌, take, drop, length, Option, none, some,
}
use rtdm_native.Rtdm.Errno.{Result, ok, err, eagain, ebusy, eio, epipe}
use rtdm_native.Serial.Types.{Context}
use rtdm_native.Serial.Queue.{InQueue}
use rtdm_native.Serial.Irq.Progress.{Progress}
use rtdm_native.Serial.Transfer.{Turn, Round, break_loop, again, listen_errors, take_block}
use rtdm_native.Serial.Transfer.Reading.{lesser}

-- A turn without a fault, in which the interrupts find room for what arrives.
pub record IsCalm (t : Turn) : Type 0 where
  pub whole : t.fault ≡ none
  pub calm_before : (c : Context) → (cs : List ℕ) × (m : ℕ) × Progress c (t.before c) cs m
  pub calm_after : (c : Context) → (cs : List ℕ) × (m : ℕ) × Progress c (t.after c) cs m

abbrev pub AreCalm : List Turn → Type 0
AreCalm [] = Unit {0}
AreCalm (t ∷ ts) = IsCalm t × AreCalm ts

-- The result of a call fits the bytes that it got: it is their count; or there are none, and the call found
-- no byte or another reader; or a line error was reported, which hides the count.
abbrev pub Counts : Result ℕ → List ℕ → Type 0
Counts (ok n) new = n ≡ length new
Counts (err e) new = (((e ≡ eagain) ⊎ (e ≡ ebusy)) × (length new ≡ 0)) ⊎ ((e ≡ eio) ⊎ (e ≡ epipe))

-- A round that copies bytes starts from this context, and leaves the second one.
abbrev starts : Context → Context
starts ctx = listen_errors ctx

abbrev copies : Context → Bool
copies ctx = (ctx.status == 0) && ltb 0 ctx.in_npend

abbrev leaves : Turn → ℕ → Context → Context
leaves t nbyte ctx = take_block (lesser ctx.in_npend nbyte) (t.after (t.before ctx))

-- The bytes that the interrupts bring, before and behind the copies of the rounds of a call for `nbyte`
-- bytes that starts in `ctx`: a round that copies nothing is the last.
pub brought : (ts : List Turn) → AreCalm ts → ℕ → Context → List ℕ
brought [] calm nbyte ctx = []
brought (t ∷ ts) calm nbyte ctx =
    let start = starts ctx in
    let rest = brought ts calm.1 (nbyte - lesser start.in_npend nbyte) (leaves t nbyte start) in
    if nbyte == 0
    then []
    else if copies start
    then ((calm.0.calm_before start).0 ++ (calm.0.calm_after (t.before start)).0) ++ rest
    else []

-- How a round without waiting ends: the call is over, or it took `k` bytes of the queue `xs`.
abbrev Ends : (t : Turn) → IsCalm t → Context → Round → ℕ → List ℕ → List ℕ → Type 0
Ends t calm ctx round nbyte got xs =
    ((r : Result ℕ) × (c : Context) × (round ≡ break_loop r got c)
      × InQueue c xs
      × (copies (starts ctx) ≡ false)
      × ((r ≡ err eagain) ⊎ ((r ≡ err eio) ⊎ (r ≡ err epipe))))
    ⊎ (let k = lesser (starts ctx).in_npend nbyte in
        let c = leaves t nbyte (starts ctx) in
        let arrived =
          (calm.calm_before (starts ctx)).0 ++ (calm.calm_after (t.before (starts ctx))).0 in
        (round ≡ again (nbyte - k) (got ++ take k xs) (err eagain) true c)
        × (0 < k)
        × (k ≤ nbyte)
        × (k ≤ length xs)
        × InQueue c (drop k xs ++ arrived)
        × (copies (starts ctx) ≡ true))

-- The loop from `got` on gave a result: `new` bytes of the stream of `xs` and what arrives.
Streams : Option (Result ℕ × List ℕ × Context) → ℕ → List ℕ → List ℕ → List ℕ → Type 0
Streams outcome nbyte got xs arrived =
    (r : Result ℕ) × (new : List ℕ) × (ctx' : Context) × (zs : List ℕ) × (outcome
      ≡ some (r, got ++ new, ctx'))
    × (length new ≤ nbyte)
    × InQueue ctx' zs
    × (xs ++ arrived ≡ new ++ zs)
    × Counts r (got ++ new)
