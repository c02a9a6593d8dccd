-- ===== src/Proc/Oom/Files.antt =====
-- What the operators on the out-of-memory files do to the files:
-- src/core/posix/linux/proc/process/oom_adj.cpp and oom_score_adj.cpp.
use process_cpp.Prelude.{
  ℤ, pos, negsuc, leb_ℤ, ◌≡◌, refl, true, false, Bool-cases, ◌&&◌, some, ◌↔◌, ◌⊎◌, inl, ap, inr,
  arith, suc, zero,
}
use process_cpp.Effect.{ok, throw, logic_error}
use process_cpp.Process.{Process}
use process_cpp.Text.{Str}
use process_cpp.Proc.Oom.{
  OomConstants, FileCalls, OomAdj, OomScoreAdj, is_valid_adj, is_valid_score_adj, path_of,
  read_value, read_score_adj, write_score_adj, slash_oom_score_adj,
}

-- What the file system promises for the paths and states in `Keeps`, and the standard library
-- for integers: a text that is written is read back, and so is a number that is printed.
pub record FileLaws {W : Type 0} (io : FileCalls W) (Keeps : Str → W → Type 0) : Type 0 where
  pub text_of-write_text :
      (path text : Str) (w : W)
      → Keeps path w
      → io.text_of path (io.write_text path text w) ≡ some text
  pub extract-print : (v old : ℤ) → io.extract (io.print v) old ≡ v

-- The constants of the kernel: the value that disables the killer is the one below the least.
abbrev pub IsNext : ℤ → ℤ → Type 0
IsNext (negsuc (suc a)) b = b ≡ negsuc a
IsNext (negsuc zero) b = b ≡ pos 0
IsNext (pos a) b = b ≡ pos (suc a)

below_or_next : (d m v : ℤ) → IsNext d m → (leb_ℤ d v ≡ true) ↔ ((v ≡ d) ⊎ (leb_ℤ m v ≡ true))
below_or_next (negsuc (suc a)) m (negsuc b) h = ground arith
below_or_next (negsuc (suc a)) m (pos b) h = ground arith
below_or_next (negsuc zero) m (negsuc b) h = ground arith
below_or_next (negsuc zero) m (pos b) h = ground arith
below_or_next (pos a) m (negsuc b) h = ground arith
below_or_next (pos a) m (pos b) h = ground arith

bounds_lem :
    (d m v top : ℤ)
    → IsNext d m
    → leb_ℤ d top ≡ true
    → ((leb_ℤ d v && leb_ℤ v top) ≡ true) ↔ ((v ≡ d) ⊎ ((leb_ℤ m v ≡ true) × (leb_ℤ v top ≡ true)))
bounds_lem d m v top next le = ground (arith, below_or_next d m v next)

-- Given that the value that disables the killer is the one below the least and not above the
-- greatest, an OomAdj is valid exactly if it has that value or one from the least to the greatest.
is_valid_adj_lem :
    (c : OomConstants) (adj : OomAdj)
    → IsNext (c.oom_disable) (c.oom_adjust_min)
    → leb_ℤ (c.oom_disable) (c.oom_adjust_max) ≡ true
    → (is_valid_adj c adj ≡ true) ↔ (
        (adj.adj_value ≡ c.oom_disable)
        ⊎ ((leb_ℤ (c.oom_adjust_min) (adj.adj_value) ≡ true)
            × (leb_ℤ (adj.adj_value) (c.oom_adjust_max) ≡ true)))
unfolding is_valid_adj
is_valid_adj_lem c adj next le =
    bounds_lem (c.oom_disable) (c.oom_adjust_min) (adj.adj_value) (c.oom_adjust_max) next le

module _ {W : Type 0} {Keeps : Str → W → Type 0} (io : FileCalls W) (laws : FileLaws io Keeps)
    (c : OomConstants) (process : Process) where
  read_back :
      (path : Str) (v old : ℤ) (w : W)
      → Keeps path w
      → read_value io path old (io.write_text path (io.print v) w) ≡ v
  unfolding read_value
  read_back path v old w keeps =
      rw (read_value, laws.text_of-write_text path (io.print v) w keeps) (laws.extract-print v old)

  -- After an OomScoreAdj is written to a process whose file keeps what is written, reading it gives
  -- the value written if that is from the least score to the greatest; otherwise the write throws logic_error, and
  -- reading gives what it gave before the write.
  pub read_score_adj-write_score_adj :
      (adj before : OomScoreAdj) (w : W)
      → Keeps (path_of io process slash_oom_score_adj) w
      → (((leb_ℤ c.oom_score_adj_min adj.score_adj_value
              && leb_ℤ adj.score_adj_value c.oom_score_adj_max)
            ≡ true)
          × ((write_score_adj io c process adj w).0 ≡ ok tt)
          × (read_score_adj io process before ((write_score_adj io c process adj w).1) ≡ adj))
        ⊎ (((leb_ℤ c.oom_score_adj_min adj.score_adj_value
                && leb_ℤ adj.score_adj_value c.oom_score_adj_max)
              ≡ false)
            × ((write_score_adj io c process adj w).0 ≡ throw logic_error)
            × (read_score_adj io process before ((write_score_adj io c process adj w).1)
                ≡ read_score_adj io process before w))
  unfolding write_score_adj is_valid_score_adj read_score_adj read_value
  read_score_adj-write_score_adj adj before w keeps =
      elim (Bool-cases (
        leb_ℤ c.oom_score_adj_min adj.score_adj_value
        && leb_ℤ adj.score_adj_value c.oom_score_adj_max)) [
          | inl e ↦ inl (
            e,
            rw e refl,
            rw e (
                ap (λ (v : ℤ). record { score_adj_value = v })
                  (read_back (path_of io process slash_oom_score_adj) (adj.score_adj_value)
                    (before.score_adj_value) w keeps)),
          )
          | inr e ↦ inr (e, rw e refl, rw e refl)
        ]
