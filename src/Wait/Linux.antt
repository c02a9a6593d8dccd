-- ===== src/Wait/Linux.antt =====
-- The status words of Linux, as an instance of `MacroLaws`.
use process_cpp.Prelude.{
  ℕ, ◌+◌, ◌*◌, ◌/◌, ◌%◌, ◌<◌, ℤ, pos, negsuc, ◌≡◌, Bool, true, false, ◌==◌, ltb, ◌&&◌,
  if◌then◌else◌, arith,
}
use process_cpp.Wait.{WaitMacros}
use process_cpp.Wait.Decoding.{
  Change, exits, killed, stops, continues, InRange, MacroLaws, is_exit, is_kill, is_stop,
  is_continue,
}

abbrev word : ℤ → ℕ
word (pos n) = n
word (negsuc n) = 0

unfoldable pub macros : WaitMacros
macros = record {
  wifexited = λ s. word s % 128 == 0;
  wexitstatus = λ s. pos (word s / 256 % 256);
  wifsignaled = λ s. ltb 0 (word s % 128) && ltb (word s % 128) 127;
  wtermsig = λ s. pos (word s % 128);
  wcoredump = λ s. word s / 128 % 2 == 1;
  wifstopped = λ s. word s % 256 == 127;
  wstopsig = λ s. pos (word s / 256 % 256);
  wifcontinued = λ s. word s == 65535;
}

pub encode : Change → ℤ
encode (exits n) = pos (n * 256)
encode (killed n core) = pos (n + (if core then 128 else 0))
encode (stops n) = pos (n * 256 + 127)
encode continues = pos 65535

wifexited_iff : (c : Change) → InRange c → macros.wifexited (encode c) ≡ is_exit c
unfolding macros encode
wifexited_iff (exits n) h = ground arith
wifexited_iff (killed n true) h = ground arith
wifexited_iff (killed n false) h = ground arith
wifexited_iff (stops n) h = ground arith
wifexited_iff continues h = ground arith

wifsignaled_iff : (c : Change) → InRange c → macros.wifsignaled (encode c) ≡ is_kill c
unfolding macros encode
wifsignaled_iff (exits n) h = ground arith
wifsignaled_iff (killed n true) h = ground arith
wifsignaled_iff (killed n false) h = ground arith
wifsignaled_iff (stops n) h = ground arith
wifsignaled_iff continues h = ground arith

wifstopped_iff : (c : Change) → InRange c → macros.wifstopped (encode c) ≡ is_stop c
unfolding macros encode
wifstopped_iff (exits n) h = ground arith
wifstopped_iff (killed n true) h = ground arith
wifstopped_iff (killed n false) h = ground arith
wifstopped_iff (stops n) h = ground arith
wifstopped_iff continues h = ground arith

wifcontinued_iff : (c : Change) → InRange c → macros.wifcontinued (encode c) ≡ is_continue c
unfolding macros encode
wifcontinued_iff (exits n) h = ground arith
wifcontinued_iff (killed n true) h = ground arith
wifcontinued_iff (killed n false) h = ground arith
wifcontinued_iff (stops n) h = ground arith
wifcontinued_iff continues h = ground arith

wexitstatus-encode : (n : ℕ) → n < 256 → macros.wexitstatus (encode (exits n)) ≡ pos n
unfolding macros encode
wexitstatus-encode n h = ground arith

wtermsig-encode :
    (n : ℕ) (core : Bool) → (0 < n) × (n < 127) → macros.wtermsig (encode (killed n core)) ≡ pos n
unfolding macros encode
wtermsig-encode n true h = ground arith
wtermsig-encode n false h = ground arith

wcoredump-encode :
    (n : ℕ) (core : Bool) → (0 < n) × (n < 127) → macros.wcoredump (encode (killed n core)) ≡ core
unfolding macros encode
wcoredump-encode n true h = ground arith
wcoredump-encode n false h = ground arith

wstopsig-encode : (n : ℕ) → (0 < n) × (n < 127) → macros.wstopsig (encode (stops n)) ≡ pos n
unfolding macros encode
wstopsig-encode n h = ground arith

pub laws : MacroLaws macros
laws = record {
  encode = encode;
  wifexited_iff = wifexited_iff;
  wifsignaled_iff = wifsignaled_iff;
  wifstopped_iff = wifstopped_iff;
  wifcontinued_iff = wifcontinued_iff;
  wexitstatus-encode = wexitstatus-encode;
  wtermsig-encode = wtermsig-encode;
  wcoredump-encode = wcoredump-encode;
  wstopsig-encode = wstopsig-encode;
}
