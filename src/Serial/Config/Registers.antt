-- ===== src/Serial/Config/Registers.antt =====
-- The registers that `rt_16550_set_config` leaves in the device.
use rtdm_native.Prelude.{
  ℕ, ◌%◌, ◌<◌, ◌≡◌, refl, Bool, true, false, if◌then◌else◌, Option, List, [], ◌∷◌, ◌++◌,
}
use rtdm_native.Rtdm.Errno.{Status}
use rtdm_native.Serial.Types.{
  Context, RtserConfig, Write, Port, thr, dll, ier, dlm, fcr, lcr, mcr, outb, testbits,
}
use rtdm_native.Serial.Config.Settings.{IsApplied, lcr_of, history_result}
use rtdm_native.Serial.Config.Bounds.{IsConfigured}

unfoldable pub is_lcr : Port → Bool
is_lcr lcr = true
is_lcr thr = false
is_lcr dll = false
is_lcr ier = false
is_lcr dlm = false
is_lcr fcr = false
is_lcr mcr = false

unfoldable pub lcr_after : ℕ → List Write → ℕ
lcr_after v [] = v
lcr_after v ((b, p) ∷ ws) = lcr_after (if is_lcr p then b else v) ws

-- What LCR holds behind the writes so far.
unfoldable pub lcr_value : Context → ℕ
lcr_value ctx = lcr_after 0 ctx.writes

lcr_after-append :
    (v b : ℕ) (p : Port) (ws : List Write)
    → lcr_after v (ws ++ (b, p) ∷ []) ≡ (if is_lcr p then b else lcr_after v ws)
unfolding lcr_after
lcr_after-append v b p [] = refl
lcr_after-append v b p ((a, q) ∷ ws) = lcr_after-append (if is_lcr q then a else v) b p ws

pub lcr_value-outb :
    (v : ℕ) (p : Port) (ctx : Context)
    → lcr_value (outb v p ctx) ≡ (if is_lcr p then v % 256 else lcr_value ctx)
unfolding lcr_value outb
lcr_value-outb v p ctx = lcr_after-append 0 (v % 256) p ctx.writes

-- What a configuration leaves: the fields that the mask asks for, in their ranges, and LCR.
pub record Configures (config : RtserConfig) (buffer : Option (ℕ → ℕ)) (ctx : Context)
    (status : Status) (ctx' : Context) : Type 0 where
  pub result : status ≡ history_result config buffer ctx.in_history
  pub is_set : IsApplied config ctx.config ctx'.config
  pub in_range : IsConfigured ctx'.config
  pub line :
      lcr_value ctx'
      ≡ (if testbits config.config_mask 15 then lcr_of ctx'.config else lcr_value ctx)
  pub access : lcr_value ctx' < 128
