-- ===== src/Domain.antt =====
-- internal/domain/device.go: the effect classes that tools, policies, confirmations and operations
-- share. A Go string type is a data type of its named constants and of every other text.
use jetkvm_cli.Base.{String}

pub data EffectClass : Type 0 where
  observe input power media admin irreversible : EffectClass
  unknown : String → EffectClass

-- The text of a class, as it enters digests and the database.
unfoldable pub effect_text : EffectClass → String
effect_text observe = "observe"
effect_text input = "input"
effect_text power = "power"
effect_text media = "media"
effect_text admin = "admin"
effect_text irreversible = "irreversible"
effect_text (unknown s) = s
