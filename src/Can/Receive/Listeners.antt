-- ===== src/Can/Receive/Listeners.antt =====
-- The loops of `rtcan_rcv` and `rtcan_loopback` over a reception list: who gets a frame.
use rtdm_native.Prelude.{
  ℕ, ◌≡◌, refl, sym, ◌∙◌, ap, arith, Bool, true, false, inl, inr, Bool-cases, ◌&&◌, ◌||◌, ◌==◌,
  if◌then◌else◌, List, [], ◌∷◌, Option, none, some,
}
use rtdm_native.Can.Types.{Config, Recv, Skb, Socket, SockId, inc32}
use rtdm_native.Can.Ring.{rtcan_rcv_deliver, mark_timestamp, put_frame}
use rtdm_native.Can.Filter.Chain.{Entries, has}
use rtdm_native.Can.Receive.{Rx, deliver_to, offer}
use rtdm_native.Can.Run.{Run, done, fault}

-- Each entry of the list is used by a socket.
abbrev pub Owned : Entries → List ℕ → Type 0
Owned m [] = Unit {0}
Owned m (x ∷ xs) = ((sid : SockId) × ((m x).sock ≡ some sid)) × Owned m xs

-- The entry `a` is for the frame, as the entry and its socket are in `rx`.
abbrev pub chosen : (Rx → SockId → Recv → Bool) → Rx → ℕ → Bool
chosen wants rx a = elim ((rx.receivers a).sock) [
  | none ↦ false
  | some sid ↦ wants rx sid (rx.receivers a)
]

-- The entry with its count of matches, if it had one.
abbrev pub counted : Bool → Recv → Recv
counted false r = r
counted true r = record r { match_count = inc32 r.match_count }

abbrev pub is_for : Option SockId → SockId → Bool
is_for none sid = false
is_for (some t) sid = t == sid

-- Some entry of the list that is for the frame belongs to the socket.
abbrev pub served : (Rx → SockId → Recv → Bool) → Rx → List ℕ → SockId → Bool
served wants rx [] sid = false
served wants rx (x ∷ xs) sid =
    (is_for ((rx.receivers x).sock) sid && chosen wants rx x) || served wants rx xs sid

-- Some entry of the list that belongs to the socket passes the test.
abbrev pub takes : (Recv → Bool) → Entries → List ℕ → SockId → Bool
takes accepts m [] sid = false
takes accepts m (x ∷ xs) sid = (is_for ((m x).sock) sid && accepts (m x)) || takes accepts m xs sid

pub served-takes :
    (wants : Rx → SockId → Recv → Bool) (accepts : Recv → Bool) (rx : Rx) (rs : List ℕ)
    (sid : SockId)
    → ((u : SockId) (r : Recv) → wants rx u r ≡ true → accepts r ≡ true)
    → served wants rx rs sid ≡ true
    → takes accepts rx.receivers rs sid ≡ true
served-takes wants accepts rx [] sid f h = h
served-takes wants accepts rx (x ∷ xs) sid f h = elim (Bool-cases (served wants rx xs sid)) [
  | inl e ↦ ground (arith, served-takes wants accepts rx xs sid f e)
  | inr e ↦ ground (arith, entry ((rx.receivers x).sock) (rx.receivers x) (ground (arith, h, e)))
]
  where
    entry :
        (o : Option SockId) (r : Recv)
        → (is_for o sid && (elim o [ none ↦ false | some u ↦ wants rx u r ])) ≡ true
        → (is_for o sid && accepts r) ≡ true
    entry none r e = e
    entry (some u) r e = ground (arith, e, f u r (ground (arith, e)))

-- What no delivery changes: the CAN ID of the frame and the error masks of the sockets.
pub record Alike (rx rx' : Rx) : Type 0 where
  pub same_id : rx'.skb.rb_frame.can_id ≡ rx.skb.rb_frame.can_id
  pub same_masks : (sid : SockId) → (rx'.socks sid).err_mask ≡ (rx.socks sid).err_mask

-- What the loop does to `rx_count`: `tick` for each entry.
abbrev pub ticks : (ℕ → ℕ) → List ℕ → ℕ → ℕ
ticks tick [] n = n
ticks tick (x ∷ xs) n = ticks tick xs (tick n)

-- The effect of the loop.
pub record Serves (tick : ℕ → ℕ) (wants : Rx → SockId → Recv → Bool) (rs : List ℕ) (rx rx' : Rx)
    : Type 0 where
  pub counts : (a : ℕ) → rx'.receivers a ≡ counted (has a rs && chosen wants rx a) (rx.receivers a)
  pub others :
      (sid : SockId)
      → rx'.socks sid ≡ (if served wants rx rs sid then rx'.socks sid else rx.socks sid)
  pub alike : Alike rx rx'
  pub tally : rx'.rx_count ≡ ticks tick rs rx.rx_count

pub counted-links :
    (b : Bool) (r : Recv) → ((counted b r).next ≡ r.next) × ((counted b r).sock ≡ r.sock)
counted-links true r = (refl, refl)
counted-links false r = (refl, refl)

module _ (c : Config) where
  put_frame-err_mask :
      (s : Socket) (n : ℕ) (skb : Skb) → (put_frame c s n skb.rb_frame).err_mask ≡ s.err_mask
  unfolding put_frame
  put_frame-err_mask s n skb = ground arith

  deliver-keeps :
      (s : Socket) (skb : Skb)
      → ((rtcan_rcv_deliver c s skb).0.err_mask ≡ s.err_mask)
        × ((rtcan_rcv_deliver c s skb).1.rb_frame.can_id ≡ skb.rb_frame.can_id)
  unfolding rtcan_rcv_deliver mark_timestamp
  deliver-keeps s skb = (
    put_frame-err_mask s (mark_timestamp s.get_timestamp skb).0
        (mark_timestamp s.get_timestamp skb).1,
    ground arith,
  )

  deliver_to-Alike : (a : ℕ) (sid : SockId) (rx : Rx) → Alike rx (deliver_to c a sid rx)
  unfolding deliver_to
  deliver_to-Alike a sid rx = record {
    same_id = (deliver-keeps (rx.socks sid) rx.skb).1;
    same_masks = λ t. ground (arith, (deliver-keeps (rx.socks sid) rx.skb).0);
  }

  deliver_to-count :
      (a : ℕ) (sid : SockId) (rx : Rx) → (deliver_to c a sid rx).rx_count ≡ rx.rx_count
  unfolding deliver_to
  deliver_to-count a sid rx = refl

  deliver_to-receivers :
      (a : ℕ) (sid : SockId) (rx : Rx) (b : ℕ)
      → (deliver_to c a sid rx).receivers b ≡ counted (a == b) (rx.receivers b)
  unfolding deliver_to
  deliver_to-receivers a sid rx b = ground arith

  deliver_to-socks :
      (a : ℕ) (sid t : SockId) (rx : Rx)
      → (sid == t) ≡ false
      → (deliver_to c a sid rx).socks t ≡ rx.socks t
  unfolding deliver_to
  deliver_to-socks a sid t rx h = ground arith

  module _ (tick : ℕ → ℕ) (wants : Rx → SockId → Recv → Bool)
      (steady : (rx rx' : Rx)
        → Alike rx rx'
        → (sid : SockId) (r : Recv) → wants rx' sid r ≡ wants rx sid r) where
    -- One round on the entry `x`.
    abbrev pub ticked : Rx → Rx
    ticked rx = record rx { rx_count = tick rx.rx_count }

    ticked-Alike : (rx : Rx) → Alike rx (ticked rx)
    ticked-Alike rx = record { same_id = refl; same_masks = λ t. refl }

    pub Alike-trans : (rx₁ rx₂ rx₃ : Rx) → Alike rx₁ rx₂ → Alike rx₂ rx₃ → Alike rx₁ rx₃
    Alike-trans rx₁ rx₂ rx₃ a b = record {
      same_id = b.same_id ∙ a.same_id;
      same_masks = λ t. b.same_masks t ∙ a.same_masks t;
    }

    chosen-owned :
        (x : ℕ) (rx : Rx) (sid : SockId)
        → (rx.receivers x).sock ≡ some sid
        → chosen wants rx x ≡ wants (ticked rx) sid (rx.receivers x)
    chosen-owned x rx sid o =
        ap (λ t. elim t [ none ↦ false | some u ↦ wants rx u (rx.receivers x) ]) o
        ∙ sym (steady rx (ticked rx) (ticked-Alike rx) sid (rx.receivers x))

    offer-owned :
        (x : ℕ) (rx : Rx) (sid : SockId)
        → (rx.receivers x).sock ≡ some sid
        → offer c wants x (ticked rx)
          ≡ done (
              if wants (ticked rx) sid (rx.receivers x)
              then deliver_to c x sid (ticked rx)
              else ticked rx)
    unfolding offer
    offer-owned x rx sid o =
        ap
          (λ t. elim t as (λ _. Run Rx) [
            | none ↦ fault
            | some u ↦ done (
                if wants (ticked rx) u (rx.receivers x)
                then deliver_to c x u (ticked rx)
                else ticked rx)
          ])
          o

    pub offer-Serves :
        (x : ℕ) (rx : Rx) (sid : SockId)
        → (rx.receivers x).sock ≡ some sid
        → (rx₁ : Rx) × (offer c wants x (ticked rx) ≡ done rx₁) × Serves tick wants (x ∷ []) rx rx₁
    offer-Serves x rx sid o = go (wants (ticked rx) sid (rx.receivers x)) refl
      where
        go :
            (b : Bool)
            → wants (ticked rx) sid (rx.receivers x) ≡ b
            → (rx₁ : Rx) × (offer c wants x (ticked rx) ≡ done rx₁)
              × Serves tick wants (x ∷ []) rx rx₁
        go true e = (
          deliver_to c x sid (ticked rx),
          offer-owned x rx sid o ∙ ground (arith, e),
          record {
            counts = λ a.
                deliver_to-receivers x sid (ticked rx) a
                ∙ ap (λ b. counted b (rx.receivers a)) (ground (arith, e, chosen-owned x rx sid o));
            others = λ t.
                ground (arith, e, o, chosen-owned x rx sid o, deliver_to-socks x sid t (ticked rx));
            alike =
                Alike-trans rx (ticked rx) (deliver_to c x sid (ticked rx)) (ticked-Alike rx)
                  (deliver_to-Alike x sid (ticked rx));
            tally = deliver_to-count x sid (ticked rx);
          },
        )
        go false e = (
          ticked rx,
          offer-owned x rx sid o ∙ ground (arith, e),
          record {
            counts = λ a. ground (arith, e, chosen-owned x rx sid o);
            others = λ t. ground arith;
            alike = ticked-Alike rx;
            tally = refl;
          },
        )
