-- ===== src/StandardStream.antt =====
-- src/core/posix/standard_stream.cpp and include/core/posix/standard_stream.h: the set of the
-- standard streams that a child redirects, in a uint8_t.
pub mod Sets
use Prim.Native.Nat.{bit_and, bit_or}
use process_cpp.Prelude.{ℕ, ◌%◌, ◌^◌, Bool, not, ◌==◌}

-- enum class StandardStream : std::uint8_t
abbrev pub StandardStream : Type 0
StandardStream = ℕ

abbrev pub empty : StandardStream
empty = 0

abbrev pub stdin : StandardStream
stdin = 1

abbrev pub stdout : StandardStream
stdout = 2

abbrev pub stderr : StandardStream
stderr = 4

-- operator| and operator&
unfoldable pub operator_or : StandardStream → StandardStream → StandardStream
operator_or l r = bit_or l r % 2 ^ 8

unfoldable pub operator_and : StandardStream → StandardStream → StandardStream
operator_and l r = bit_and l r % 2 ^ 8

-- The test by which fork and vfork read their flags: `(flags & s) != StandardStream::empty`.
unfoldable pub has : StandardStream → StandardStream → Bool
unfolding operator_and
has flags s = not (operator_and flags s == empty)
