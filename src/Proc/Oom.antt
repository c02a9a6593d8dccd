-- ===== src/Proc/Oom.antt =====
-- src/core/posix/linux/proc/process/oom_adj.cpp, oom_score_adj.cpp and oom_score.cpp, with the
-- is_valid of their headers: the files under /proc that steer the out-of-memory killer.
pub mod Files
use process_cpp.Prelude.{ℤ, leb_ℤ, Bool, ◌&&◌, Option, none, some, if◌then◌else◌, [], ◌∷◌, ◌++◌}
use process_cpp.Effect.{Effect, ok, throw, logic_error}
use process_cpp.Process.{Process}
use process_cpp.Text.{Str}

-- The constants of linux/oom.h.
pub record OomConstants : Type 0 where
  pub oom_disable : ℤ
  pub oom_adjust_min : ℤ
  pub oom_adjust_max : ℤ
  pub oom_score_adj_min : ℤ
  pub oom_score_adj_max : ℤ

-- The file streams of the standard library, on a file system of type W, and the operators of
-- streams on int. `text_of` is the text of a file that an ifstream could open. `write_text` is an
-- ofstream that is opened on a path, given a text and closed, which reports no error. `extract`
-- is `in >> value`: from the text and the value before, the value after.
pub record FileCalls (W : Type 0) : Type 0 where
  pub text_of : Str → W → Option Str
  pub write_text : Str → Str → W → W
  pub print : ℤ → Str
  pub extract : Str → ℤ → ℤ

-- "/proc/"
abbrev pub proc_slash : Str
proc_slash = 47 ∷ 112 ∷ 114 ∷ 111 ∷ 99 ∷ 47 ∷ []

-- "/oom_adj"
abbrev pub slash_oom_adj : Str
slash_oom_adj = 47 ∷ 111 ∷ 111 ∷ 109 ∷ 95 ∷ 97 ∷ 100 ∷ 106 ∷ []

-- "/oom_score"
abbrev pub slash_oom_score : Str
slash_oom_score = 47 ∷ 111 ∷ 111 ∷ 109 ∷ 95 ∷ 115 ∷ 99 ∷ 111 ∷ 114 ∷ 101 ∷ []

-- "/oom_score_adj"
abbrev pub slash_oom_score_adj : Str
slash_oom_score_adj = slash_oom_score ++ 95 ∷ 97 ∷ 100 ∷ 106 ∷ []

pub record OomAdj : Type 0 where
  pub adj_value : ℤ

pub record OomScoreAdj : Type 0 where
  pub score_adj_value : ℤ

pub record OomScore : Type 0 where
  pub score_value : ℤ

module _ (constants : OomConstants) where
  unfoldable pub is_valid_adj : OomAdj → Bool
  is_valid_adj adj =
      leb_ℤ constants.oom_disable (adj.adj_value) && leb_ℤ (adj.adj_value) constants.oom_adjust_max

  unfoldable pub is_valid_score_adj : OomScoreAdj → Bool
  is_valid_score_adj adj =
      leb_ℤ constants.oom_score_adj_min (adj.score_adj_value)
      && leb_ℤ (adj.score_adj_value) constants.oom_score_adj_max

module _ {W : Type 0} (io : FileCalls W) where
  unfoldable pub path_of : Process → Str → Str
  path_of process name = proc_slash ++ io.print process.pid ++ name

  -- `std::ifstream in(path); in >> value`: a file that cannot be opened leaves the value as it is.
  unfoldable pub read_value : Str → ℤ → W → ℤ
  read_value path old w = elim (io.text_of path w) [ none ↦ old | some text ↦ io.extract text old ]

  unfoldable pub read_adj : Process → OomAdj → W → OomAdj
  unfolding path_of
  read_adj process adj w = record {
    adj_value = read_value (path_of process slash_oom_adj) (adj.adj_value) w;
  }

  unfoldable pub read_score_adj : Process → OomScoreAdj → W → OomScoreAdj
  unfolding path_of
  read_score_adj process adj w = record {
    score_adj_value = read_value (path_of process slash_oom_score_adj) (adj.score_adj_value) w;
  }

  unfoldable pub read_score : Process → OomScore → W → OomScore
  unfolding path_of
  read_score process score w = record {
    score_value = read_value (path_of process slash_oom_score) (score.score_value) w;
  }

  unfoldable pub write_adj : OomConstants → Process → OomAdj → Effect W (Unit {0})
  write_adj constants process adj w =
      if is_valid_adj constants adj
      then (ok tt, io.write_text (path_of process slash_oom_adj) (io.print (adj.adj_value)) w)
      else (throw logic_error, w)

  unfoldable pub write_score_adj : OomConstants → Process → OomScoreAdj → Effect W (Unit {0})
  write_score_adj constants process adj w =
      if is_valid_score_adj constants adj
      then (
        ok tt,
        io.write_text (path_of process slash_oom_score_adj) (io.print (adj.score_adj_value)) w,
      )
      else (throw logic_error, w)
