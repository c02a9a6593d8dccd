-- ===== src/Fork/Invalid.antt =====
-- What a call of Pipe::invalid leaves.
use process_cpp.Prelude.{
  ℤ, eqb_iff, ◌≡◌, refl, sym, ap, subst, ◌∙◌, ◌⊎◌, inl, inr, Option, none, some, arith,
}
use process_cpp.Effect.{Effect, Result, Result-cases, Error, ok, throw, ◌>>=◌}
use process_cpp.Descriptors.{FdCalls, FdLaws}
use process_cpp.Pipe
use process_cpp.Pipe.{Pipe, closed_pipe, open_pipe, copy, close_read_fd, close_write_fd}
use process_cpp.Pipe.Ownership.{
  table-open_pipe, table-close_read_fd, table-close_write_fd, close_read_fd_lem, close_write_fd_lem,
}
use process_cpp.Session.{Session, get_invalid, in_scope}
use process_cpp.Fork.Streams.{open_pipe_fresh}

-- A sequence that returns: so do its parts.
pub bind_ok :
    {W A B : Type 0} (m : Effect W A) (k : A → Effect W B) (w : W) (b : B)
    → ((m >>= k) w).0 ≡ ok b
    → (a : A) × ((m w).0 ≡ ok a) × ((m >>= k) w ≡ k a (m w).1)
bind_ok m k w b h = elim (Result-cases (m w).0) [
  | inl (a, e) ↦ (a, e, rw e refl)
  | inr (x, e) ↦ ground arith
]

-- The static pipe of Pipe::invalid before or after its initialisation.
abbrev pub IsReady : {W : Type 0} → Session W → Type 0
IsReady s = (s.static_pipe ≡ none) ⊎ (s.static_pipe ≡ some closed_pipe)

module _ {W : Type 0} (fd : FdCalls W) (l : FdLaws fd) where
  open l use {table}

  pub scope_ok :
      {A : Type 0} (p : Pipe) (m : Effect (Session W) A) (s : Session W) (a : A)
      → (in_scope fd p m s).0 ≡ ok a
      → in_scope fd p m s ≡ m s
  scope_ok p m s a h = elim (Result-cases (m s).0) [
    | inl (b, e) ↦ rw e refl
    | inr (x, e) ↦ ground arith
  ]

  pub copy-closed_pipe : (w : W) → copy fd closed_pipe w ≡ (closed_pipe, w)
  unfolding copy Pipe.dup_valid
  copy-closed_pipe w = refl

  invalid_init_lem :
      (t : Pipe) (w : W)
      → Pipe.invalid_init fd (ok t) w ≡ (
        (some closed_pipe, ok closed_pipe),
        (close_write_fd fd (close_read_fd fd t w).0 (close_read_fd fd t w).1).1,
      )
  unfolding Pipe.invalid_init
  invalid_init_lem t w = ground (
    arith,
    close_read_fd_lem fd l t w,
    close_write_fd_lem fd l (close_read_fd fd t w).0 (close_read_fd fd t w).1,
    copy-closed_pipe (close_write_fd fd (close_read_fd fd t w).0 (close_read_fd fd t w).1).1,
  )

  -- The two worlds have the same descriptor table.
  abbrev pub Same : W → W → Type 0
  Same w w' = (x : ℤ) → table w' x ≡ table w x

  -- What Pipe::invalid returns, and leaves: a pipe without descriptors, a static pipe without
  -- descriptors, and the table as it was.
  pub record IsInvalid (s s' : Session W) (p : Pipe) : Type 0 where
    pub is_closed : p ≡ closed_pipe
    pub is_ready : s'.static_pipe ≡ some closed_pipe
    pub same : Same s.world s'.world

  get_invalid_made :
      (w : W)
      → get_invalid fd (record { static_pipe = some closed_pipe; world = w })
        ≡ (ok closed_pipe, record { static_pipe = some closed_pipe; world = w })
  unfolding get_invalid Pipe.invalid copy Pipe.dup_valid
  get_invalid_made w = refl

  get_invalid_first :
      (w : W) (t : Pipe)
      → (open_pipe fd w).0 ≡ ok t
      → let w1 = (open_pipe fd w).1 in
        let c = close_read_fd fd t w1 in
        get_invalid fd (record { static_pipe = none; world = w }) ≡ (
          ok closed_pipe,
          record { static_pipe = some closed_pipe; world = (close_write_fd fd c.0 c.1).1 },
        )
  unfolding get_invalid Pipe.invalid
  get_invalid_first w t h =
      rw (h, get_invalid)
        (ap
          (λ (r : (Option Pipe × Result Pipe) × W).
            let made : Session W = record { static_pipe = r.0.0; world = r.1 } in (r.0.1, made))
          (invalid_init_lem t (open_pipe fd w).1))

  get_invalid_failed :
      (w : W) (e : Error)
      → (open_pipe fd w).0 ≡ throw e
      → get_invalid fd (record { static_pipe = none; world = w })
        ≡ (throw e, record { static_pipe = none; world = (open_pipe fd w).1 })
  unfolding get_invalid Pipe.invalid Pipe.invalid_init
  get_invalid_failed w e h = rw (h, get_invalid) refl

  table-invalid :
      (w : W) (t : Pipe)
      → (open_pipe fd w).0 ≡ ok t
      → let w1 = (open_pipe fd w).1 in
        let c = close_read_fd fd t w1 in Same w (close_write_fd fd c.0 c.1).1
  table-invalid w t h x =
      let w1 = (open_pipe fd w).1 in
      let c = close_read_fd fd t w1 in
      ground (
        arith,
        open_pipe_fresh fd l w t h,
        table-open_pipe fd l w t x h,
        table-close_read_fd fd l t w1 x,
        close_read_fd_lem fd l t w1,
        table-close_write_fd fd l c.0 c.1 x,
        eqb_iff x t.fds_0,
        eqb_iff x t.fds_1,
      )

  after_call-IsInvalid :
      (s s' : Session W) (p : Pipe)
      → get_invalid fd s ≡ (ok closed_pipe, s')
      → s'.static_pipe ≡ some closed_pipe
      → Same s.world s'.world
      → (get_invalid fd s).0 ≡ ok p
      → IsInvalid s (get_invalid fd s).1 p
  after_call-IsInvalid s s' p run ready same h =
      let after : s' ≡ (get_invalid fd s).1 = cc in
      subst (λ t. IsInvalid s t p) after (record { is_closed = cc; is_ready = ready; same = same })

  in_state :
      (s : Session W) (o : Option Pipe)
      → s.static_pipe ≡ o
      → record { static_pipe = o; world = s.world } ≡ s
  in_state s o e =
      ap (λ (o : Option Pipe). let t : Session W = record { static_pipe = o; world = s.world } in t)
        (sym e)

  pub get_invalid-IsInvalid :
      (s : Session W) (p : Pipe)
      → IsReady s
      → (get_invalid fd s).0 ≡ ok p
      → IsInvalid s (get_invalid fd s).1 p
  get_invalid-IsInvalid s p (inr e) h =
      after_call-IsInvalid s (record { static_pipe = some closed_pipe; world = s.world }) p
        (ap (get_invalid fd) (sym (in_state s (some closed_pipe) e)) ∙ get_invalid_made s.world)
        refl (λ x. refl) h
  get_invalid-IsInvalid s p (inl e) h = elim (Result-cases (open_pipe fd s.world).0) [
    | inl (t, f) ↦
        after_call-IsInvalid s _ p
          (ap (get_invalid fd) (sym (in_state s none e)) ∙ get_invalid_first s.world t f) refl
          (table-invalid s.world t f) h
    | inr (x, f) ↦
        let failed : (get_invalid fd s).0 ≡ throw x =
          ap (λ (t : Session W). (get_invalid fd t).0) (sym (in_state s none e))
          ∙ ap (λ (r : Result Pipe × Session W). r.0) (get_invalid_failed s.world x f) in
        cc
  ]

  pub open_pipe-Same :
      (w : W) (x : Error) → (open_pipe fd w).0 ≡ throw x → Same w (open_pipe fd w).1
  unfolding open_pipe
  open_pipe-Same w x h y = ground (arith, l.table-pipe w y)

  -- A call of Pipe::invalid that throws.
  pub get_invalid-Same :
      (s : Session W) (x : Error)
      → IsReady s
      → (get_invalid fd s).0 ≡ throw x
      → Same s.world (get_invalid fd s).1.world
  get_invalid-Same s x (inr e) h =
      let made : (get_invalid fd s).0 ≡ ok closed_pipe =
        ap (λ (t : Session W). (get_invalid fd t).0) (sym (in_state s (some closed_pipe) e))
        ∙ ap (λ (r : Result Pipe × Session W). r.0) (get_invalid_made s.world) in
      cc
  get_invalid-Same s x (inl e) h = elim (Result-cases (open_pipe fd s.world).0) [
    | inl (t, f) ↦
        let made : (get_invalid fd s).0 ≡ ok closed_pipe =
          ap (λ (t : Session W). (get_invalid fd t).0) (sym (in_state s none e))
          ∙ ap (λ (r : Result Pipe × Session W). r.0) (get_invalid_first s.world t f) in
        cc
    | inr (z, f) ↦
        let run : (get_invalid fd s).1.world ≡ (open_pipe fd s.world).1 =
          ap (λ (t : Session W). (get_invalid fd t).1.world) (sym (in_state s none e))
          ∙ ap (λ (r : Result Pipe × Session W). r.1.world) (get_invalid_failed s.world z f) in
        λ y. ap (λ (v : W). table v y) run ∙ open_pipe-Same s.world z f y
  ]
