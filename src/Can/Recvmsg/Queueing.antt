-- ===== src/Can/Recvmsg/Queueing.antt =====
-- `rtcan_rcv_deliver` queues messages that `rtcan_raw_recvmsg` can read.
use rtdm_native.Prelude.{
  holds_below, holds_below_lem, ℕ, suc, ◌+◌, ◌≤◌, ◌<◌, ◌^◌, ◌≡◌, refl, ap, subst, arith, bit_and,
  bit_or, Bool, true, false, ◌%◌, ◌/◌, ==_iff, ◌==◌, List, [], ◌∷◌, ◌++◌, length, length-append,
  take,
}
use rtdm_native.Can.Types.{
  Config, Socket, Skb, RbFrame, rtcan_has_timestamp, rtcan_has_no_timestamp,
}
use rtdm_native.Can.Ring.{rtcan_rcv_deliver, mark_timestamp, rb_frame_bytes, bytes_u32, put_frame}
use rtdm_native.Can.Ring.Frame.{Queue, queued, put_frame-Queue}
use rtdm_native.Can.Recvmsg.Decode.{Message, message_bytes, IsMessage, data_size}
use mathlib.Core.List.{append_assoc}

-- The mark of a timestamp on a byte: set, cleared, and away from the DLC.
set_dlc : (d : ℕ) → d < 256 → bit_and (bit_or d 0x80) 0x7f ≡ bit_and d 0x7f
set_dlc d h = (==_iff _ _).0 (holds_below_lem _ 256 table h)
  where
    table : holds_below 256 (λ x. bit_and (bit_or x 0x80) 0x7f == bit_and x 0x7f) ≡ true
    table = unfold holds_below in refl

set_mark : (d : ℕ) → d < 256 → bit_and (bit_or d 0x80) 0x80 ≡ 0x80
set_mark d h = (==_iff _ _).0 (holds_below_lem _ 256 table h)
  where
    table : holds_below 256 (λ x. bit_and (bit_or x 0x80) 0x80 == 0x80) ≡ true
    table = unfold holds_below in refl

clear_dlc : (d : ℕ) → d < 256 → bit_and (bit_and d 0x7f) 0x7f ≡ bit_and d 0x7f
clear_dlc d h = (==_iff _ _).0 (holds_below_lem _ 256 table h)
  where
    table : holds_below 256 (λ x. bit_and (bit_and x 0x7f) 0x7f == bit_and x 0x7f) ≡ true
    table = unfold holds_below in refl

clear_mark : (d : ℕ) → d < 256 → bit_and (bit_and d 0x7f) 0x80 ≡ 0
clear_mark d h = (==_iff _ _).0 (holds_below_lem _ 256 table h)
  where
    table : holds_below 256 (λ x. bit_and (bit_and x 0x7f) 0x80 == 0) ≡ true
    table = unfold holds_below in refl

-- The message that a frame becomes: `payload` and `stamp` are its first bytes behind the header.
abbrev pub message_of : Bool → Skb → List ℕ → List ℕ → Message
message_of true skb payload stamp = record {
  can_id = skb.rb_frame.can_id;
  can_ifindex = skb.rb_frame.can_ifindex;
  can_dlc = bit_or skb.rb_frame.can_dlc rtcan_has_timestamp;
  payload = payload;
  timestamp = stamp;
}
message_of false skb payload stamp = record {
  can_id = skb.rb_frame.can_id;
  can_ifindex = skb.rb_frame.can_ifindex;
  can_dlc = bit_and skb.rb_frame.can_dlc rtcan_has_no_timestamp;
  payload = payload;
  timestamp = [];
}

-- A frame as the drivers build it: its DLC is 8 at most, its size counts the header and the payload
-- that the DLC announces, and the timestamp stands behind the payload.
pub record IsFrame (skb : Skb) (payload stamp junk : List ℕ) : Type 0 where
  pub id : skb.rb_frame.can_id < 2 ^ 32
  pub byte : skb.rb_frame.can_dlc < 256
  pub dlc : bit_and skb.rb_frame.can_dlc rtcan_has_no_timestamp ≤ 8
  pub payload_length :
      length payload
      ≡ data_size skb.rb_frame.can_id (bit_and skb.rb_frame.can_dlc rtcan_has_no_timestamp)
  pub stamp_length : length stamp ≡ 8
  pub size : skb.rb_frame_size ≡ 6 + length payload
  pub area : skb.rb_frame.area ≡ payload ++ (stamp ++ junk)

pub message_of-IsMessage :
    (marked : Bool) (skb : Skb) (payload stamp junk : List ℕ)
    → IsFrame skb payload stamp junk
    → IsMessage (message_of marked skb payload stamp)
message_of-IsMessage true skb payload stamp junk v = record {
  id = v.id;
  dlc = rw (set_dlc _ v.byte) v.dlc;
  payload = rw (set_dlc _ v.byte) v.payload_length;
  timestamp = rw (set_mark _ v.byte) v.stamp_length;
}
message_of-IsMessage false skb payload stamp junk v = record {
  id = v.id;
  dlc = rw (clear_dlc _ v.byte) v.dlc;
  payload = rw (clear_dlc _ v.byte) v.payload_length;
  timestamp = rw (clear_mark _ v.byte) refl;
}

take_all : (xs ys : List ℕ) → take (length xs) (xs ++ ys) ≡ xs
take_all [] ys = refl
take_all (x ∷ xs) ys = ap (◌∷◌ x) (take_all xs ys)

take_two : (xs ys zs : List ℕ) → take (length xs + length ys) (xs ++ (ys ++ zs)) ≡ xs ++ ys
take_two xs ys zs = rw (← append_assoc, ← length-append) (take_all (xs ++ ys) zs)

-- The first bytes of a frame: the header, the payload and what follows it.
frame_prefix :
    (f : RbFrame) (n : ℕ) (xs ys zs : List ℕ)
    → f.area ≡ xs ++ (ys ++ zs)
    → n ≡ 6 + length xs + length ys
    → take n (rb_frame_bytes f) ≡ bytes_u32 f.can_id ++ (f.can_ifindex ∷ f.can_dlc ∷ (xs ++ ys))
unfolding rb_frame_bytes bytes_u32
frame_prefix f n xs ys zs area e =
    rw (area, shape)
      (ap
        (λ l.
          f.can_id % 256
          ∷ f.can_id / 256 % 256
          ∷ f.can_id / 65536 % 256
          ∷ f.can_id / 16777216 % 256
          ∷ f.can_ifindex
          ∷ f.can_dlc
          ∷ l)
        (take_two xs ys zs))
  where
    shape : n ≡ suc (suc (suc (suc (suc (suc (length xs + length ys))))))
    shape = omega arith

length-rb_frame_bytes : (f : RbFrame) → length (rb_frame_bytes f) ≡ 6 + length f.area
unfolding rb_frame_bytes bytes_u32
length-rb_frame_bytes f = omega arith

module _ (c : Config) where
  put-queues :
      (s : Socket) (xs : List ℕ) (f : RbFrame) (n : ℕ) (payload stamp junk : List ℕ)
      → f.area ≡ payload ++ (stamp ++ junk)
      → n ≡ 6 + length payload + length stamp
      → Queue c s xs
      → Queue c
          (put_frame c s n f)
          (queued c xs (bytes_u32 f.can_id ++ (f.can_ifindex ∷ f.can_dlc ∷ (payload ++ stamp))))
  put-queues s xs f n payload stamp junk area e q =
      subst (λ l. Queue c (put_frame c s n f) (queued c xs l))
        (frame_prefix f n payload stamp junk area e) (put_frame-Queue c s xs n f long q)
    where
      long : n ≤ length (rb_frame_bytes f)
      long = omega (
        arith,
        length-rb_frame_bytes f,
        ap length area,
        length-append payload (stamp ++ junk),
        length-append stamp junk,
      )

  -- A frame is queued as its message, with the timestamp if the socket takes timestamps, when
  -- the ring has more free bytes than it needs. When it has not the ring keeps the bytes it had.
  pub deliver-queues :
      (s : Socket) (xs : List ℕ) (skb : Skb) (payload stamp junk : List ℕ)
      → IsFrame skb payload stamp junk
      → Queue c s xs
      → Queue c
          ((rtcan_rcv_deliver c s skb).0)
          (queued c xs (message_bytes (message_of s.get_timestamp skb payload stamp)))
  unfolding rtcan_rcv_deliver mark_timestamp message_bytes
  deliver-queues s xs skb payload stamp junk v q = go s.get_timestamp
    where
      go :
          (wanted : Bool)
          → Queue c
              (put_frame c s
                ((mark_timestamp wanted skb).0)
                ((mark_timestamp wanted skb).1.rb_frame))
              (queued c xs (message_bytes (message_of wanted skb payload stamp)))
      go true =
          put-queues s xs (record (skb.rb_frame) { can_dlc = bit_or skb.rb_frame.can_dlc 0x80 })
            (skb.rb_frame_size + 8) payload stamp junk v.area
            (omega (arith, v.size, v.stamp_length)) q
      go false =
          put-queues s xs (record (skb.rb_frame) { can_dlc = bit_and skb.rb_frame.can_dlc 0x7f })
            skb.rb_frame_size payload [] (stamp ++ junk) v.area (omega (arith, v.size)) q
