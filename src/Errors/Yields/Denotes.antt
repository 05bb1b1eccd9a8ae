-- ===== src/Errors/Yields/Denotes.antt =====
-- A wait's deadline as text: what it denotes, and how far it is from the duration.
use ironflow_go.Prelude.{ℕ, Text, codes}
use ironflow_go.Errors.Yields.{second, minute, hour}

pub data TimeUnit : Type 0 where
  hours minutes seconds : TimeUnit

abbrev pub unit_text : TimeUnit → Text
unit_text hours = codes "h"
unit_text minutes = codes "m"
unit_text seconds = codes "s"

abbrev pub unit_ns : TimeUnit → ℕ
unit_ns hours = hour
unit_ns minutes = minute
unit_ns seconds = second
