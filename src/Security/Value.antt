-- ===== src/Security/Value.antt =====
-- The values of attributes: OpenTelemetry's pcommon.Value and pcommon.Map, with the types that
-- nrsecurity tells apart. `other` is an empty value, a Boolean or a number.
use nrdot_host.Common.{ℕ, Str}

mutual
  pub data Value : Type 0 where
    str : Str → Value
    bytes : Str → Value
    other : ℕ → Value
    kvlist : Attributes → Value
    slice : Values → Value

  pub data Values : Type 0 where
    nil : Values
    cons : Value → Values → Values

  pub data Attributes : Type 0 where
    end : Attributes
    entry : Str → Value → Attributes → Attributes
