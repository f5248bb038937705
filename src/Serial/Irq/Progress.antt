-- ===== src/Serial/Irq/Progress.antt =====
-- What an interrupt does to the rings of the serial driver, in which the tasks read and write.
use rtdm_native.Prelude.{
  ℕ, ◌+◌, ◌≡◌, refl, ◌∙◌, sym, subst, arith, List, [], ◌++◌, drop, length, length-append, drop-drop,
}
use rtdm_native.Serial.Types.{Context}
use rtdm_native.Serial.Queue.{InQueue, OutQueue}
use mathlib.Core.List.{append-nil, append_assoc}

-- `received` goes behind the input queue, the output queue loses up to `sent` bytes at its head, and
-- the ends of the queues that belong to the tasks stay.
pub record Progress (ctx ctx' : Context) (received : List ℕ) (sent : ℕ) : Type 0 where
  pub same_head : ctx'.in_head ≡ ctx.in_head
  pub same_tail : ctx'.out_tail ≡ ctx.out_tail
  pub count : ctx'.in_npend ≡ ctx.in_npend + length received
  pub in_queue : (xs : List ℕ) → InQueue ctx xs → InQueue ctx' (xs ++ received)
  pub out_queue : (zs : List ℕ) → OutQueue ctx zs → OutQueue ctx' (drop sent zs)

pub idle-Progress : (ctx : Context) → Progress ctx ctx [] 0
idle-Progress ctx = record {
  same_head = refl;
  same_tail = refl;
  count = omega arith;
  in_queue = λ xs q. subst (InQueue ctx) (sym (append-nil xs)) q;
  out_queue = λ zs q. q;
}

pub both :
    {a b c : Context} {xs ys : List ℕ} {m n : ℕ}
    → Progress a b xs m
    → Progress b c ys n
    → Progress a c (xs ++ ys) (m + n)
both {c} {xs} {ys} {m} {n} p q = record {
  same_head = q.same_head ∙ p.same_head;
  same_tail = q.same_tail ∙ p.same_tail;
  count = omega (arith, p.count, q.count, length-append xs ys);
  in_queue =
      λ zs h. subst (InQueue c) (append_assoc zs xs ys) (q.in_queue (zs ++ xs) (p.in_queue zs h));
  out_queue =
      λ zs h. subst (OutQueue c) (drop-drop m n zs) (q.out_queue (drop m zs) (p.out_queue zs h));
}
