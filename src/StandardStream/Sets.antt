-- ===== src/StandardStream/Sets.antt =====
-- The flags as sets of streams.
use Prim.Native.Nat.{bit_or}
use process_cpp.Prelude.{ℕ, ◌/◌, ◌%◌, ◌≡◌, ◌⊎◌, inl, inr, ◌||◌, arith}
use process_cpp.Prelude.Bits.{bit_or_half, lowest_digit, second_digit, third_digit}
use process_cpp.StandardStream.{StandardStream, stdin, stdout, stderr, operator_or, has}

-- One of the three streams.
abbrev pub IsStream : StandardStream → Type 0
IsStream s = (s ≡ stdin) ⊎ ((s ≡ stdout) ⊎ (s ≡ stderr))

module _ (l r : StandardStream) where
  abbrev half : ℕ → ℕ
  half x = x / 2

  has-or_stdin : has (operator_or l r) stdin ≡ (has l stdin || has r stdin)
  unfolding has operator_or
  has-or_stdin =
      ground
        (arith, lowest_digit (bit_or l r % 256), lowest_digit l, lowest_digit r, bit_or_half l r)

  has-or_stdout : has (operator_or l r) stdout ≡ (has l stdout || has r stdout)
  unfolding has operator_or
  has-or_stdout = ground (
    arith,
    second_digit (bit_or l r % 256),
    second_digit l,
    second_digit r,
    bit_or_half l r,
    bit_or_half (half l) (half r),
  )

  has-or_stderr : has (operator_or l r) stderr ≡ (has l stderr || has r stderr)
  unfolding has operator_or
  has-or_stderr = ground (
    arith,
    third_digit (bit_or l r % 256),
    third_digit l,
    third_digit r,
    bit_or_half l r,
    bit_or_half (half l) (half r),
    bit_or_half (half (half l)) (half (half r)),
  )

-- The union of two sets holds one of the three streams exactly if one of the sets does.
has-or : (l r s : StandardStream) → IsStream s → has (operator_or l r) s ≡ (has l s || has r s)
has-or l r s (inl e) = rw e (has-or_stdin l r)
has-or l r s (inr (inl e)) = rw e (has-or_stdout l r)
has-or l r s (inr (inr e)) = rw e (has-or_stderr l r)
