-- ===== src/Base/Try.antt =====
-- A Go result `(value, err)`: the value, or the text of the error.
use Prim.Native.String.{String}

pub data Try (A : Type 0) : Type 0 where
  ok : A → Try A
  err : String → Try A
