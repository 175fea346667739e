-- ===== src/Frame/Tests.antt =====
-- connection.go: a ping with the id 5 behind a byte that is still in the buffer.
use go_tarantool.Common.{ℕ, ◌≡◌, refl, List, [], ◌∷◌, ◌++◌, some, arith}
use go_tarantool.Frame.{header, pack, read}
use go_tarantool.Frame.RoundTrip.{pack-read}

packed_ping :
    pack (7 ∷ []) 0x40 5 0 (some (0x80 ∷ []))
    ≡ some (7 ∷ 0xce ∷ 0 ∷ 0 ∷ 0 ∷ 10 ∷ 0x82 ∷ 0 ∷ 0x40 ∷ 1 ∷ 0xce ∷ 0 ∷ 0 ∷ 0 ∷ 5 ∷ 0x80 ∷ [])
unfolding pack
packed_ping = refl

pack-read_example :
    (frame : List ℕ) × (pack (7 ∷ []) 0x40 5 0 (some (0x80 ∷ [])) ≡ some (7 ∷ frame))
    × (read (frame ++ 9 ∷ []) ≡ some (header 0x40 5 0 ++ 0x80 ∷ [], 9 ∷ []))
unfolding header
pack-read_example = pack-read (7 ∷ []) (0x80 ∷ []) (9 ∷ []) 0x40 5 0 (omega arith)
