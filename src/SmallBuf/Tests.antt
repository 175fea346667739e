-- ===== src/SmallBuf/Tests.antt =====
-- smallbuf.go: three bytes, the first one read.
use go_tarantool.Common.{[], ◌∷◌, arith}
use go_tarantool.SmallBuf.{SmallBuf, read}
use go_tarantool.SmallBuf.Reading.{Took, read-Took}

abbrev three : SmallBuf
three = record { b = 7 ∷ 8 ∷ 9 ∷ []; p = 1 }

read-Took_example : Took 5 three (read 5 three)
read-Took_example = read-Took 5 three (omega arith)
