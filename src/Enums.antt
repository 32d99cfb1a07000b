-- ===== src/Enums.antt =====
-- types/enums.ts: the enumerations that several parts share.
use peta_core.Prelude.{ℕ, Eq, refl, ◌≡◌, ◌↔◌, Bool, true, nat_beq}

pub data DangerLevel : Type 0 where
  silent notification approval : DangerLevel

abbrev pub danger_rank : DangerLevel → ℕ
danger_rank silent = 0
danger_rank notification = 1
danger_rank approval = 2

-- `===` on danger levels
abbrev pub danger_beq : DangerLevel → DangerLevel → Bool
danger_beq a b = nat_beq (danger_rank a) (danger_rank b)

pub danger_beq_iff : (a b : DangerLevel) → (danger_beq a b ≡ true) ↔ (a ≡ b)
danger_beq_iff silent silent = (λ h. refl, λ h. refl)
danger_beq_iff silent notification = (λ h. cc, λ h. cc)
danger_beq_iff silent approval = (λ h. cc, λ h. cc)
danger_beq_iff notification silent = (λ h. cc, λ h. cc)
danger_beq_iff notification notification = (λ h. refl, λ h. refl)
danger_beq_iff notification approval = (λ h. cc, λ h. cc)
danger_beq_iff approval silent = (λ h. cc, λ h. cc)
danger_beq_iff approval notification = (λ h. cc, λ h. cc)
danger_beq_iff approval approval = (λ h. refl, λ h. refl)

instance abbrev pub danger_eq : Eq DangerLevel
danger_eq = record { beq = danger_beq; beq_iff = danger_beq_iff }
