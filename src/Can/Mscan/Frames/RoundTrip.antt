-- ===== src/Can/Mscan/Frames/RoundTrip.antt =====
-- From the transmit buffer of one MSCAN to the receive buffer of another.
use rtdm_native.Prelude.{
  ℕ, ◌+◌, ◌%◌, ◌≤◌, ◌<◌, ◌≡◌, refl, ap, ap₂, ◌∙◌, bit_and, if◌then◌else◌, Bool, Bool-cases, inl,
  inr, true, false, List, [], ◌∷◌, take, length, length-take, arith,
}
use rtdm_native.Prelude.Bits.{bit_and_low, bit_or_flag}
use rtdm_native.Can.Types.{CanFrame, Skb, can_rtr_flag}
use rtdm_native.Can.Sja1000.Chip.{has}
use rtdm_native.Can.Sja1000.Frames.{data_size}
use rtdm_native.Can.Sja1000.Frames.Fields.{id_of, has-rtr}
use rtdm_native.Can.Sja1000.Frames.RoundTrip.{IsFrame, AreBytes, take-AreBytes, skb_of}
use rtdm_native.Can.Mscan.Chip.{
  Mscan, get_reg, put_reg, command, data_reg, canrxfg, cantxfg, dlr, cantbsel,
}
use rtdm_native.Can.Mscan.Frames.{
  read_dsr, write_dsr, id_from_buffer, rtcan_mscan_rx_interrupt, rtcan_mscan_start_xmit,
}
use rtdm_native.Can.Mscan.Frames.Buffer.{
  id_register, with_id, with_id-0, with_id-1, with_id-4, with_id-5, buffer-ext, buffer-std_rtr,
  buffer-ext_rtr, id_from_buffer-ext, id_from_buffer-std,
}

-- The data goes to registers of its own, upwards.
write_dsr-below :
    (i : ℕ) (bs : List ℕ) (s : Mscan) (reg : ℕ)
    → reg < data_reg cantxfg i
    → (write_dsr i bs s).regs reg ≡ s.regs reg
unfolding write_dsr put_reg
write_dsr-below i [] s reg h = refl
write_dsr-below i (b ∷ bs) s reg h =
    write_dsr-below (i + 1) bs (put_reg (data_reg cantxfg i) b s) reg (omega arith) ∙ ground arith

-- The receive buffer lies 32 registers below the transmit buffer.
abbrev wire : ℕ
wire = 0x20

read_dsr-write_dsr :
    (i : ℕ) (bs : List ℕ) (s t : Mscan)
    → AreBytes bs
    → i + length bs ≤ 8
    → ((reg : ℕ) → 0x48 ≤ reg → reg < 0x58 → t.regs reg ≡ (write_dsr i bs s).regs (reg + wire))
    → read_dsr t i (length bs) ≡ bs
unfolding read_dsr write_dsr put_reg get_reg
read_dsr-write_dsr i [] s t h l agree = refl
read_dsr-write_dsr i (b ∷ bs) s t h l agree =
    ap₂ ◌∷◌
      (ap (λ (v : ℕ). v % 256)
          (agree (data_reg canrxfg i) (omega arith) (omega arith)
            ∙ write_dsr-below (i + 1) bs (put_reg (data_reg cantxfg i) b s)
                (data_reg canrxfg i + wire) (omega arith)
            ∙ at_once)
        ∙ ground (arith, h.0))
      (read_dsr-write_dsr (i + 1) bs (put_reg (data_reg cantxfg i) b s) t h.1 (omega arith) agree)
  where
    at_once : (put_reg (data_reg cantxfg i) b s).regs (data_reg canrxfg i + wire) ≡ b % 256
    at_once = ground arith

-- What the registers are after a transmission was started.
abbrev pub loaded : ℕ → CanFrame → Mscan → Mscan
loaded tflg frame s = (rtcan_mscan_start_xmit tflg frame s).1

module _ (tflg : ℕ) (ext rtr : Bool) (ident : ℕ) (frame : CanFrame) (s : Mscan)
    (f : IsFrame ext rtr ident frame) (empty : has tflg 1 ≡ true) where
  size : ℕ
  size = data_size frame.can_dlc

  -- The buffer before the DLC is written.
  filled : Mscan
  unfolding size
  filled =
      let s' = with_id rtr frame.can_id (put_reg cantbsel 1 s) in
      if rtr then s' else write_dsr 0 (take size frame.payload) s'

  frame-rtr : has frame.can_id can_rtr_flag ≡ rtr
  frame-rtr = ap (λ (v : ℕ). has v can_rtr_flag) (f.id) ∙ has-rtr ext rtr ident (f.in_range)

  loaded-filled :
      (reg : ℕ) → 0x60 ≤ reg → reg < 0x78 → (loaded tflg frame s).regs reg ≡ filled.regs reg
  unfolding rtcan_mscan_start_xmit filled size with_id put_reg get_reg command
  loaded-filled reg l u =
      rw (loaded, empty, frame-rtr)
        (elim (Bool-cases rtr) [ inl e ↦ rw e (ground arith) | inr e ↦ rw e (ground arith) ])

  loaded-dlr : (loaded tflg frame s).regs 0x78 ≡ frame.can_dlc
  unfolding rtcan_mscan_start_xmit put_reg get_reg command
  loaded-dlr = rw (loaded, empty) (ground (arith, f.dlc))

  filled-id :
      (reg : ℕ)
      → 0x60 ≤ reg
      → reg < 0x68
      → filled.regs reg ≡ (with_id rtr (id_of ext rtr ident) (put_reg cantbsel 1 s)).regs reg
  unfolding filled
  filled-id reg l u =
      elim (Bool-cases rtr) [
        | inl e ↦ rw e refl
        | inr e ↦ rw e (
            write_dsr-below 0 (take size frame.payload)
              (with_id false frame.can_id (put_reg cantbsel 1 s)) reg (omega arith))
      ]
      ∙ ap (λ (v : ℕ). (with_id rtr v (put_reg cantbsel 1 s)).regs reg) (f.id)

  -- The ID registers on the other side.
  loaded-id :
      (reg : ℕ)
      → 0x60 ≤ reg
      → reg < 0x68
      → (loaded tflg frame s).regs reg
        ≡ (with_id rtr (id_of ext rtr ident) (put_reg cantbsel 1 s)).regs reg
  loaded-id reg l u = loaded-filled reg l (omega arith) ∙ filled-id reg l u

  loaded-data :
      (t : Mscan)
      → ((reg : ℕ) → 0x48 ≤ reg → reg < 0x58 → t.regs reg ≡ (loaded tflg frame s).regs (reg + wire))
      → rtr ≡ false
      → read_dsr t 0 (data_size frame.can_dlc) ≡ take (data_size frame.can_dlc) frame.payload
  unfolding filled size
  loaded-data t agree e =
      ap (read_dsr t 0) size-length
      ∙ read_dsr-write_dsr 0 bytes (with_id rtr frame.can_id (put_reg cantbsel 1 s)) t
          (take-AreBytes size frame.payload (f.bytes)) (ground (arith, size-length))
          (λ reg l u.
            agree reg l u ∙ loaded-filled (reg + wire) (omega arith) (omega arith) ∙ rw e refl)
    where
      bytes : List ℕ
      bytes = take size frame.payload

      size-length : size ≡ length bytes
      size-length = ground (arith, length-take size frame.payload, f.full)

-- What the receiving buffer must hold: the transmit buffer of the sender.
abbrev pub Carries : Mscan → Mscan → Type 0
Carries from to = (reg : ℕ) → 0x40 ≤ reg → reg < 0x60 → to.regs reg ≡ from.regs (reg + wire)

module _ (tflg : ℕ) (rtr : Bool) (ident : ℕ) (frame : CanFrame) (s t : Mscan)
    (empty : has tflg 1 ≡ true) (bus : Carries (loaded tflg frame s) t) where
  reg_id :
      (ext : Bool)
      → IsFrame ext rtr ident frame
      → (reg : ℕ) → 0x40 ≤ reg
      → reg < 0x48
      → t.regs reg ≡ (with_id rtr (id_of ext rtr ident) (put_reg cantbsel 1 s)).regs (reg + wire)
  reg_id ext f reg l u =
      bus reg l (omega arith)
      ∙ loaded-id tflg ext rtr ident frame s f empty (reg + wire) (omega arith) (omega arith)

  reg_0 : (ext : Bool) → IsFrame ext rtr ident frame → t.regs 0x40 ≡ id_register ext rtr ident 0
  reg_0 ext f =
      reg_id ext f 0x40 (omega arith) (omega arith)
      ∙ with_id-0 (put_reg cantbsel 1 s) rtr ident ext (f.in_range)

  reg_1 : (ext : Bool) → IsFrame ext rtr ident frame → t.regs 0x41 ≡ id_register ext rtr ident 1
  reg_1 ext f =
      reg_id ext f 0x41 (omega arith) (omega arith)
      ∙ with_id-1 (put_reg cantbsel 1 s) rtr ident ext (f.in_range)

  reg_4 : IsFrame true rtr ident frame → t.regs 0x44 ≡ id_register true rtr ident 4
  reg_4 f =
      reg_id true f 0x44 (omega arith) (omega arith)
      ∙ with_id-4 (put_reg cantbsel 1 s) rtr ident (f.in_range)

  reg_5 : IsFrame true rtr ident frame → t.regs 0x45 ≡ id_register true rtr ident 5
  reg_5 f =
      reg_id true f 0x45 (omega arith) (omega arith)
      ∙ with_id-5 (put_reg cantbsel 1 s) rtr ident (f.in_range)

  received-id :
      (ext : Bool) → IsFrame ext rtr ident frame → id_from_buffer t ≡ id_of ext false ident
  received-id true f =
      id_from_buffer-ext t rtr ident (f.in_range) (reg_0 true f) (reg_1 true f) (reg_4 f) (reg_5 f)
  received-id false f = id_from_buffer-std t rtr ident (f.in_range) (reg_0 false f) (reg_1 false f)

  received-rtr :
      (ext : Bool)
      → IsFrame ext rtr ident frame
      → (if has (get_reg t (canrxfg + 1)) 0x08
          then has (get_reg t (canrxfg + 5)) 0x01
          else has (get_reg t (canrxfg + 1)) 0x10)
        ≡ rtr
  received-rtr true f =
      rw (buffer-ext t true rtr ident (f.in_range) (reg_1 true f))
        (buffer-ext_rtr t rtr ident (f.in_range) (reg_5 f))
  received-rtr false f =
      rw (buffer-ext t false rtr ident (f.in_range) (reg_1 false f))
        (buffer-std_rtr t false rtr ident (f.in_range) (reg_1 false f) refl)

  received-dlr :
      (ext : Bool)
      → IsFrame ext rtr ident frame
      → bit_and (get_reg t (canrxfg + dlr)) 0x0F ≡ frame.can_dlc
  unfolding get_reg
  received-dlr ext f = ground (
    arith,
    bus 0x58 (omega arith) (omega arith),
    loaded-dlr tflg ext rtr ident frame s f empty,
    f.dlc,
    bit_and_low 4 (t.regs 0x58 % 256),
  )

  -- A frame that an MSCAN with an empty transmit buffer was told to send, and that the bus puts into the
  -- receive buffer of another MSCAN, is read there as it was: its ID with the flags, its DLC and,
  -- unless it is a remote request, its data.
  pub rx-start_mscan :
      (ext : Bool) (skb : Skb)
      → IsFrame ext rtr ident frame
      → rtcan_mscan_rx_interrupt t skb ≡ skb_of rtr frame t.dev.ifindex skb.rb_frame.area
  unfolding rtcan_mscan_rx_interrupt
  rx-start_mscan ext skb f =
      rw (received-rtr ext f, received-dlr ext f, received-id ext f)
        (elim (Bool-cases rtr) [
          | inl e ↦ ground (arith, e, f.id, bit_or_flag 30 (if ext then 1 else 0) ident, f.in_range)
          | inr e ↦ ground (
            arith,
            e,
            f.id,
            loaded-data tflg ext rtr ident frame s f empty t
                (λ reg l u. bus reg (omega arith) (omega arith)) e,
          )
        ])
