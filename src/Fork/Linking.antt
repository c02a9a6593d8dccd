-- ===== src/Fork/Linking.antt =====
-- What the parent's streams lead to after the parent's part of fork.
use process_cpp.Fork.Keeping.{
  parents, ParentEnds, copies-IsAdded, close_child_ends-parents, close_child_ends-ParentEnds,
}
use process_cpp.Prelude.{
  ℕ, ℤ, minus_one, eqb, eqb_iff, ◌≡◌, sym, ap, subst, ◌∙◌, ◌⊎◌, inl, inr, ◌≢◌, refl, true, false,
  none, some, if◌then◌else◌, arith,
}
use process_cpp.Effect.{Result, Result-cases, ok}
use process_cpp.Descriptors.{FdCalls, FdLaws, PlentyLaws, File, reader, writer}
use process_cpp.Pipe.{Pipe, copy, destroy}
use process_cpp.Pipe.Assignment.{copy_room}
use process_cpp.Pipe.Ownership.{table-destroy}
use process_cpp.ProcessCalls.{ProcessCalls}
use process_cpp.Process.{make_process}
use process_cpp.StandardStream
use process_cpp.StandardStream.{StandardStream, has}
use process_cpp.Fork.Ends.{copy_closed_0, copy_closed_1}
use process_cpp.ChildProcess.{Pipes, Private, ChildProcess, make_private, make_child}
use process_cpp.Fork.{close_child_ends, destroy_pipes, parent_part}
use process_cpp.Fork.Carrying.{Leads, Carries, Keeps, IsAdded, Carries-Keeps, Unset}
use process_cpp.Fork.Making.{IsMade}

module _ {W : Type 0} (fd : FdCalls W) (l : FdLaws fd) where
  open l use {table}

  pub table-destroy_pipes :
      (p : Pipes) (w : W) (x : ℤ)
      → table (destroy_pipes fd p w) x ≡ (
          if eqb x p.stdin.fds_1
          then none
          else if eqb x p.stdin.fds_0
          then none
          else if eqb x p.stdout.fds_1
          then none
          else if eqb x p.stdout.fds_0
          then none
          else if eqb x p.stderr.fds_1
          then none
          else if eqb x p.stderr.fds_0
          then none
          else table w x)
  table-destroy_pipes p w x =
      let w1 = destroy fd p.stderr w in
      let w2 = destroy fd p.stdout w1 in
      ground (
        arith,
        table-destroy fd l p.stderr w x,
        table-destroy fd l p.stdout w1 x,
        table-destroy fd l p.stdin w2 x,
      )

  -- A descriptor that is open on `f` and is none of the parent's ends stays so.
  destroy_pipes-Leads :
      (p : Pipes) (w : W) (x : ℤ) (f : File)
      → Leads fd l w x f
      → (eqb x p.stdin.fds_1 ≡ false) ⊎ (p.stdin.fds_1 ≡ minus_one)
      → (eqb x p.stdout.fds_0 ≡ false) ⊎ (p.stdout.fds_0 ≡ minus_one)
      → (eqb x p.stderr.fds_0 ≡ false) ⊎ (p.stderr.fds_0 ≡ minus_one)
      → Leads fd l (destroy_pipes fd (parents fd l p) w) x f
  destroy_pipes-Leads p w x f h a b c =
      ground (arith, table-destroy_pipes (parents fd l p) w x, eqb_iff x minus_one)

  apart_end :
      (w w' : W) (y x : ℤ) (f : File)
      → Leads fd l w y f
      → (table w y ≡ some f → table w' y ≡ some f)
      → (table w' y ≡ some f → eqb y x ≡ false)
      → (eqb x y ≡ false) ⊎ (y ≡ minus_one)
  apart_end w w' y x f h before apart = ground (arith, eqb_iff x y, eqb_iff y x)

  -- The copy of a pipe outlives the ends that it was copied from.
  module _ (w4 : W) (p : Pipes) (i o e : ℕ) (ends : ParentEnds fd l w4 p i o e) where
    copy_survives :
        (k : ℕ) (wa wb w7 : W) (q : Pipe)
        → Keeps fd l w4 wa
        → IsAdded fd l k wa wb q
        → Keeps fd l wb w7
        → Carries fd l k (destroy_pipes fd (parents fd l p) w7) q
    copy_survives k wa wb w7 q before added after =
        let carries = Carries-Keeps fd l k wb w7 q after added.carries in
        let in_stdin = added.apart p.stdin.fds_1 (writer i) in
        let in_stdout = added.apart p.stdout.fds_0 (reader o) in
        let in_stderr = added.apart p.stderr.fds_0 (reader e) in
        record {
          read =
              destroy_pipes-Leads p w7 q.fds_0 (reader k) carries.read
                (apart_end w4 wa p.stdin.fds_1 q.fds_0 (writer i) ends.stdin
                  (before p.stdin.fds_1 (writer i)) (λ h. (in_stdin h).0))
                (apart_end w4 wa p.stdout.fds_0 q.fds_0 (reader o) ends.stdout
                  (before p.stdout.fds_0 (reader o)) (λ h. (in_stdout h).0))
                (apart_end w4 wa p.stderr.fds_0 q.fds_0 (reader e) ends.stderr
                  (before p.stderr.fds_0 (reader e)) (λ h. (in_stderr h).0));
          write =
              destroy_pipes-Leads p w7 q.fds_1 (writer k) carries.write
                (apart_end w4 wa p.stdin.fds_1 q.fds_1 (writer i) ends.stdin
                  (before p.stdin.fds_1 (writer i)) (λ h. (in_stdin h).1))
                (apart_end w4 wa p.stdout.fds_0 q.fds_1 (reader o) ends.stdout
                  (before p.stdout.fds_0 (reader o)) (λ h. (in_stdout h).1))
                (apart_end w4 wa p.stderr.fds_0 q.fds_1 (reader e) ends.stderr
                  (before p.stderr.fds_0 (reader e)) (λ h. (in_stderr h).1));
        }

  -- The streams of the ChildProcess lead to the parent's ends of the three pipes, and one whose flag is
  -- not set is over no descriptor.
  pub record ParentLinks (flags : StandardStream) (w : W) (d : Private) (i o e : ℕ) : Type 0 where
    pub sin : Leads fd l w d.sin (writer i)
    pub sout : Leads fd l w d.sout (reader o)
    pub serr : Leads fd l w d.serr (reader e)
    pub has_sin :
        PlentyLaws fd l → has flags StandardStream.stdin ≡ true → eqb d.sin minus_one ≡ false
    pub has_sout :
        PlentyLaws fd l → has flags StandardStream.stdout ≡ true → eqb d.sout minus_one ≡ false
    pub has_serr :
        PlentyLaws fd l → has flags StandardStream.stderr ≡ true → eqb d.serr minus_one ≡ false
    pub no_sin : has flags StandardStream.stdin ≡ false → d.sin ≡ minus_one
    pub no_sout : has flags StandardStream.stdout ≡ false → d.sout ≡ minus_one
    pub no_serr : has flags StandardStream.stderr ≡ false → d.serr ≡ minus_one

  leads_live : (w : W) (x : ℤ) (f : File) → Leads fd l w x f → (x ≡ minus_one) ⊎ (table w x ≢ none)
  leads_live w x f (inl h) = inl h
  leads_live w x f (inr h) = inr (λ closed. cc)

  leads_keeps :
      (w w' : W) (x : ℤ) (f : File) → Keeps fd l w w' → Leads fd l w x f → Leads fd l w' x f
  leads_keeps w w' x f keeps (inl h) = inl h
  leads_keeps w w' x f keeps (inr h) = inr (keeps x f h)

  -- While there is room, the stream of a flag that is set is open on the parent's end of its pipe, and
  -- any other is over no descriptor.
  pub record StreamLinks (flags : StandardStream) (w : W) (d : Private) (i o e : ℕ) : Type 0 where
    pub sin : has flags StandardStream.stdin ≡ true → table w d.sin ≡ some (writer i)
    pub sout : has flags StandardStream.stdout ≡ true → table w d.sout ≡ some (reader o)
    pub serr : has flags StandardStream.stderr ≡ true → table w d.serr ≡ some (reader e)
    pub no_sin : has flags StandardStream.stdin ≡ false → d.sin ≡ minus_one
    pub no_sout : has flags StandardStream.stdout ≡ false → d.sout ≡ minus_one
    pub no_serr : has flags StandardStream.stderr ≡ false → d.serr ≡ minus_one

  leads_table :
      (w : W) (x : ℤ) (f : File) → Leads fd l w x f → eqb x minus_one ≡ false → table w x ≡ some f
  leads_table w x f h opened = ground (arith, h, opened, eqb_iff x minus_one)

  pub ParentLinks-StreamLinks :
      (y : PlentyLaws fd l) {flags : StandardStream} (w : W) (d : Private) (i o e : ℕ)
      → ParentLinks flags w d i o e
      → StreamLinks flags w d i o e
  ParentLinks-StreamLinks y w d i o e k = record {
    sin = λ set. leads_table w d.sin (writer i) k.sin (k.has_sin y set);
    sout = λ set. leads_table w d.sout (reader o) k.sout (k.has_sout y set);
    serr = λ set. leads_table w d.serr (reader e) k.serr (k.has_serr y set);
    no_sin = k.no_sin;
    no_sout = k.no_sout;
    no_serr = k.no_serr;
  }

  module _ (os : ProcessCalls W) where
    private-ParentLinks :
        (flags : StandardStream) (pid : ℤ) (p : Pipes) (w4 : W) (i o e : ℕ)
        → ParentEnds fd l w4 p i o e
        → Unset fd l (has flags StandardStream.stdin) p.stdin
        → Unset fd l (has flags StandardStream.stdout) p.stdout
        → Unset fd l (has flags StandardStream.stderr) p.stderr
        → let q = parents fd l p in
          let (d, w7) = make_private fd os pid q.stdin q.stdout q.stderr w4 in
          ParentLinks flags (destroy_pipes fd q w7) d i o e
    unfolding make_private
    private-ParentLinks flags pid p w4 i o e ends unset_in unset_out unset_err =
        let q = parents fd l p in
        let (a, b, c) = copies-IsAdded fd l p w4 i o e ends in
        let w5 = (copy fd q.stdin w4).1 in
        let w6 = (copy fd q.stdout w5).1 in
        let w7 = (copy fd q.stderr w6).1 in
        let live_in =
          copy_survives w4 p i o e ends i w4 w5 w7 _ (λ x f h. h) a
            (λ x f h. c.keeps x f (b.keeps x f h)) in
        let live_out = copy_survives w4 p i o e ends o w5 w6 w7 _ a.keeps b c.keeps in
        let live_err =
          copy_survives w4 p i o e ends e w6 w7 w7 _ (λ x f h. b.keeps x f (a.keeps x f h)) c
            (λ x f h. h) in
        record {
          sin = live_in.write;
          sout = live_out.read;
          serr = live_err.read;
          has_sin = λ y h.
              (copy_room fd l y.room_laws q.stdin w4
                (record { live_0 = inl refl; live_1 = leads_live w4 _ _ ends.stdin })
                (y.always w4)).1
              ∙ (unset_in.1 y h).1;
          has_sout = λ y h.
              (copy_room fd l y.room_laws q.stdout w5
                (record {
                  live_0 = leads_live w5 _ _ (leads_keeps w4 w5 _ _ a.keeps ends.stdout);
                  live_1 = inl refl;
                })
                (y.always w5)).0
              ∙ (unset_out.1 y h).0;
          has_serr = λ y h.
              (copy_room fd l y.room_laws q.stderr w6
                (record {
                  live_0 =
                      leads_live w6 _ _
                        (leads_keeps w5 w6 _ _ b.keeps (leads_keeps w4 w5 _ _ a.keeps ends.stderr));
                  live_1 = inl refl;
                })
                (y.always w6)).0
              ∙ (unset_err.1 y h).0;
          no_sin = λ h. copy_closed_1 fd q.stdin w4 (ap (λ (r : Pipe). r.fds_1) (unset_in.0 h));
          no_sout = λ h. copy_closed_0 fd q.stdout w5 (ap (λ (r : Pipe). r.fds_0) (unset_out.0 h));
          no_serr = λ h. copy_closed_0 fd q.stderr w6 (ap (λ (r : Pipe). r.fds_0) (unset_err.0 h));
        }

    pub parent_part-parents :
        (pid : ℤ) (p : Pipes) (w : W)
        → let q = parents fd l p in
          let (r, w7) =
            make_child fd os pid q.stdin q.stdout q.stderr (close_child_ends fd p w).1 in
          parent_part fd os pid p w ≡ (r, destroy_pipes fd q w7)
    unfolding parent_part
    parent_part-parents pid p w =
        ap
          (λ (q : Pipes).
            let (r, w7) =
              make_child fd os pid q.stdin q.stdout q.stderr (close_child_ends fd p w).1 in
            (r, destroy_pipes fd q w7))
          (close_child_ends-parents fd l p w)

    pub make_child_run :
        (pid : ℤ) (q : Pipes) (w : W) (c : ChildProcess)
        → (make_child fd os pid q.stdin q.stdout q.stderr w).0 ≡ ok c
        → let (d, w') = make_private fd os pid q.stdin q.stdout q.stderr w in
          (d ≡ c.private) × ((make_child fd os pid q.stdin q.stdout q.stderr w).1 ≡ w')
    unfolding make_child
    make_child_run pid q w c h = elim (Result-cases (make_process pid)) [
      | inl (pr, e) ↦ ground arith
      | inr (x, e) ↦ ground arith
    ]

    pub parent_part-ParentLinks :
        (pid : ℤ) (p : Pipes) (w w' : W) (c : ChildProcess) {flags : StandardStream}
        (m : IsMade fd l flags w w' p)
        → (parent_part fd os pid p w').0 ≡ ok c
        → ParentLinks flags (parent_part fd os pid p w').1 c.private m.k_in m.k_out m.k_err
    parent_part-ParentLinks pid p w w' c {flags} m h =
        let q = parents fd l p in
        let w4 = (close_child_ends fd p w').1 in
        let run = parent_part-parents pid p w' in
        let made : (make_child fd os pid q.stdin q.stdout q.stderr w4).0 ≡ ok c = cc in
        let (same, after) = make_child_run pid q w4 c made in
        let links =
          private-ParentLinks flags pid p w4 m.k_in m.k_out m.k_err
            (close_child_ends-ParentEnds fd l w w' p m) m.stdin_Unset m.stdout_Unset
            m.stderr_Unset in
        let world : (parent_part fd os pid p w').1
            ≡ destroy_pipes fd q (make_private fd os pid q.stdin q.stdout q.stderr w4).1 =
          ap (λ (r : Result ChildProcess × W). r.1) run ∙ ap (destroy_pipes fd q) after in
        let w8 = destroy_pipes fd q (make_private fd os pid q.stdin q.stdout q.stderr w4).1 in
        subst (λ (v : W). ParentLinks flags v c.private m.k_in m.k_out m.k_err) (sym world)
          (subst (λ (d : Private). ParentLinks flags w8 d m.k_in m.k_out m.k_err) same links)
