-- ===== src/Buffer.antt =====
-- The views of asio/src/buffer.cc: a pointer with a length is the list of the bytes there, read-only
-- (`ConstBuffer`) or not (`MutableBuffer`).
use lcy.Prelude.{ℕ, List, ltb, if◌then◌else◌, length, drop}

abbrev pub ConstBuffer : Type 0
ConstBuffer = List ℕ

-- `operator+` of both: an offset behind the end is one to the end.
unfoldable pub advance : ConstBuffer → ℕ → ConstBuffer
advance b offset = drop (if ltb (length b) offset then length b else offset) b
