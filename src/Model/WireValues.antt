-- ===== src/Model/WireValues.antt =====
-- Values of type `unknown`, as clients send them, and numbers of the configuration. The source
-- tells apart only these kinds; `other` stands for what passes none of its `typeof` tests (objects,
-- numbers). `missing` is `undefined`.
use dance_sync_back_end.Base.{ℕ, Bool, Text}

mutual
  pub data Wire : Type 0 where
    string : Text → Wire
    boolean : Bool → Wire
    null missing other : Wire
    array : WireItems → Wire

  pub data WireItems : Type 0 where
    end : WireItems
    item : Wire → WireItems → WireItems

-- A number of the configuration: a whole number of 0 or more, one between `n` and `n + 1`, one below
-- 0, or NaN or an infinity.
pub data Setting : Type 0 where
  whole fraction : ℕ → Setting
  negative not_finite : Setting
