-- ===== src/Prelude/Encoding.antt =====
-- encoding/json at a type A: Marshal and Unmarshal. `none` is a parse error.
use mathlib.Core.Option.{Option}
use exotel_monitoring_platfo.Prelude.Strings.{Text}

pub record Json (A : Type 0) : Type 0 where
  pub marshal : A → Text
  pub unmarshal : Text → Option A
