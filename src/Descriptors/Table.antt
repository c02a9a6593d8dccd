-- ===== src/Descriptors/Table.antt =====
-- A descriptor table that meets `FdLaws`: the list of the descriptions, by descriptor, from 0 on.
-- A new descriptor is the first one past the end, so that no call fails for want of one.
use process_cpp.Prelude.{
  ◌+◌, ◌<◌, ◌⊎◌, inl, inr, ℕ, zero, suc, ℤ, pos, negsuc, minus_one, eqb, eqb_iff, ◌≡◌, ◌≢◌, refl,
  true, false, Option, none, some, List, [], ◌∷◌, length, ◌==◌, if◌then◌else◌, arith,
}
use process_cpp.Descriptors.{
  PipeReturn, FdCalls, File, other, reader, writer, FdLaws, RoomLaws, PlentyLaws,
}

abbrev pub Fds : Type 0
Fds = List (Option File)

unfoldable pub get : Fds → ℕ → Option File
get [] i = none
get (f ∷ fs) zero = f
get (f ∷ fs) (suc i) = get fs i

unfoldable pub put : Fds → ℕ → Option File → Fds
put [] zero v = v ∷ []
put [] (suc i) v = none ∷ put [] i v
put (f ∷ fs) zero v = v ∷ fs
put (f ∷ fs) (suc i) v = f ∷ put fs i v

get-put :
    (fs : Fds) (i j : ℕ) (v : Option File) → get (put fs i v) j ≡ (if j == i then v else get fs j)
unfolding get put
get-put [] zero zero v = refl
get-put [] zero (suc j) v = ground arith
get-put [] (suc i) zero v = ground arith
get-put [] (suc i) (suc j) v = ground (arith, get-put [] i j v)
get-put (f ∷ fs) zero zero v = refl
get-put (f ∷ fs) zero (suc j) v = ground arith
get-put (f ∷ fs) (suc i) zero v = ground arith
get-put (f ∷ fs) (suc i) (suc j) v = ground (arith, get-put fs i j v)

pub get-length : (fs : Fds) → get fs (length fs) ≡ none
unfolding get
get-length [] = refl
get-length (f ∷ fs) = get-length fs

pub get-length-suc : (fs : Fds) → get fs (suc (length fs)) ≡ none
unfolding get
get-length-suc [] = refl
get-length-suc (f ∷ fs) = get-length-suc fs

unfoldable pub lookup : Fds → ℤ → Option File
lookup fs (pos n) = get fs n
lookup fs (negsuc n) = none

unfoldable pub close : ℤ → Fds → Fds
close (pos n) fs = put fs n none
close (negsuc n) fs = fs

unfoldable pub dup_file : Option File → Fds → ℤ × Fds
dup_file none fs = (minus_one, fs)
dup_file (some f) fs = (pos (length fs), put fs (length fs) (some f))

unfoldable pub dup : ℤ → Fds → ℤ × Fds
unfolding dup_file
dup fd fs = dup_file (lookup fs fd) fs

pub dup2_file : Option File → ℤ → Fds → ℤ × Fds
dup2_file (some f) (pos n) fs = (pos n, put fs n (some f))
dup2_file _ _ fs = (minus_one, fs)

unfoldable pub dup2 : ℤ → ℤ → Fds → ℤ × Fds
unfolding dup2_file
dup2 fd to fs = dup2_file (lookup fs fd) to fs

-- A number that no pipe in the table has.
unfoldable pub fresh : Fds → ℕ
fresh [] = 0
fresh (some (reader k) ∷ fs) = suc k + fresh fs
fresh (some (writer k) ∷ fs) = suc k + fresh fs
fresh (_ ∷ fs) = fresh fs

pub get-fresh :
    (fs : Fds) (i : ℕ)
    → (k : ℕ) → (get fs i ≡ some (reader k)) ⊎ (get fs i ≡ some (writer k))
    → k < fresh fs
unfolding get fresh
get-fresh [] i k (inl h) = cc
get-fresh [] i k (inr h) = cc
get-fresh (some (reader n) ∷ fs) zero k h = ground arith
get-fresh (some (writer n) ∷ fs) zero k h = ground arith
get-fresh (some (other n) ∷ fs) zero k h = ground arith
get-fresh (none ∷ fs) zero k h = ground arith
get-fresh (some (reader n) ∷ fs) (suc i) k h = ground (arith, get-fresh fs i k h)
get-fresh (some (writer n) ∷ fs) (suc i) k h = ground (arith, get-fresh fs i k h)
get-fresh (some (other n) ∷ fs) (suc i) k h = get-fresh fs i k h
get-fresh (none ∷ fs) (suc i) k h = get-fresh fs i k h

pub lookup-fresh :
    (fs : Fds) (x : ℤ)
    → (lookup fs x ≢ some (reader (fresh fs))) × (lookup fs x ≢ some (writer (fresh fs)))
unfolding lookup
lookup-fresh fs (pos i) = (
  λ e. omega (arith, get-fresh fs i (fresh fs) (inl e)),
  λ e. omega (arith, get-fresh fs i (fresh fs) (inr e)),
)
lookup-fresh fs (negsuc i) = (λ e. cc, λ e. cc)

unfoldable pub pipe : Fds → PipeReturn × Fds
pipe fs = (
  record { rc = pos 0; read_end = pos (length fs); write_end = pos (suc (length fs)) },
  put (put fs (length fs) (some (reader (fresh fs)))) (suc (length fs)) (some (writer (fresh fs))),
)

abbrev pub calls : FdCalls Fds
calls = record { pipe = pipe; dup = dup; dup2 = dup2; close = close; errno = λ _. 24 }

pub lookup-close :
    (fs : Fds) (fd x : ℤ) → lookup (close fd fs) x ≡ (if eqb x fd then none else lookup fs x)
unfolding lookup close
lookup-close fs (pos n) (pos x) = ground (arith, get-put fs n x none)
lookup-close fs (pos n) (negsuc x) = ground arith
lookup-close fs (negsuc n) (pos x) = ground arith
lookup-close fs (negsuc n) (negsuc x) = ground arith

pub lookup-dup_fresh : (fs : Fds) (fd : ℤ) → lookup fs (dup fd fs).0 ≡ none
unfolding lookup dup
lookup-dup_fresh fs fd = ground (arith, get-length fs)

pub dup-closed : (fs : Fds) (fd : ℤ) → lookup fs fd ≡ none → (dup fd fs).0 ≡ minus_one
unfolding dup
dup-closed fs fd h = ground arith

lookup-put_pos :
    (fs : Fds) (i : ℕ) (x : ℤ) (v : Option File)
    → lookup (put fs i v) x ≡ (if eqb x (pos i) then v else lookup fs x)
unfolding lookup
lookup-put_pos fs i (pos x) v = get-put fs i x v
lookup-put_pos fs i (negsuc x) v = refl

pub lookup-dup :
    (fs : Fds) (fd x : ℤ)
    → lookup (dup fd fs).1 x ≡ (
        if eqb (dup fd fs).0 minus_one
        then lookup fs x
        else if eqb x (dup fd fs).0
        then lookup fs fd
        else lookup fs x)
unfolding dup
lookup-dup fs fd x = ground (arith, lookup-put_pos fs (length fs) x (lookup fs fd))

pub lookup-dup2_file :
    (o : Option File) (fs : Fds) (to x : ℤ)
    → lookup (dup2_file o to fs).1 x ≡ (
        if eqb (dup2_file o to fs).0 minus_one
        then lookup fs x
        else if eqb x to
        then o
        else lookup fs x)
unfolding dup2_file
lookup-dup2_file none fs to x = refl
lookup-dup2_file (some f) fs (pos n) x = ground (arith, lookup-put_pos fs n x (some f))
lookup-dup2_file (some f) fs (negsuc n) x = refl

pub dup2_file-closed :
    (o : Option File) (fs : Fds) (to : ℤ) → o ≡ none → eqb (dup2_file o to fs).0 minus_one ≡ true
unfolding dup2_file
dup2_file-closed none fs to e = refl
dup2_file-closed (some f) fs to e = cc

pub lookup-pipe :
    (fs : Fds) (x : ℤ)
    → lookup (pipe fs).1 x ≡ (
        if eqb x (pos (length fs))
        then some (reader (fresh fs))
        else if eqb x (pos (suc (length fs)))
        then some (writer (fresh fs))
        else lookup fs x)
unfolding pipe
lookup-pipe fs x =
    let n = length fs in
    ground (
      arith,
      lookup-put_pos fs n x (some (reader (fresh fs))),
      lookup-put_pos (put fs n (some (reader (fresh fs)))) (suc n) x (some (writer (fresh fs))),
      eqb_iff x (pos n),
      eqb_iff x (pos (suc n)),
    )

pub distinct : (n : ℕ) → eqb (pos (suc n)) (pos n) ≡ false
distinct n = ground arith

unfoldable pub laws : FdLaws calls
unfolding pipe dup2 lookup
laws = record {
  table = lookup;
  table-minus_one = λ w. refl;
  table-close = lookup-close;
  dup_fresh = lookup-dup_fresh;
  dup_closed = dup-closed;
  table-dup = lookup-dup;
  new_pipe = fresh;
  pipe_fresh_read = λ w _. get-length w;
  pipe_fresh_write = λ w _. get-length-suc w;
  pipe_distinct = λ w _. distinct (length w);
  table-pipe = lookup-pipe;
  table-dup2 = λ w fd to x. lookup-dup2_file (lookup w fd) w to x;
  dup2_closed = λ w fd to e. dup2_file-closed (lookup w fd) w to e;
}

pub dup_file_room :
    (o : Option File) (fs : Fds) → o ≢ none → eqb (dup_file o fs).0 minus_one ≡ false
unfolding dup_file
dup_file_room none fs e = absurd (e refl)
dup_file_room (some f) fs e = refl

-- There is always room.
unfoldable pub room_laws : RoomLaws calls laws
unfolding laws dup
room_laws = record {
  room = λ w. 2;
  dup_room = λ fd w e _. dup_file_room (lookup w fd) w e;
  room-dup = λ fd w. omega arith;
  room-close = λ fd w. omega arith;
}

pub dup2_file_room :
    (o p : Option File) (fs : Fds) (to : ℤ)
    → p ≡ lookup fs to
    → o ≢ none
    → p ≢ none
    → eqb (dup2_file o to fs).0 minus_one ≡ false
unfolding dup2_file lookup
dup2_file_room none p fs to e h h' = absurd (h refl)
dup2_file_room (some f) p fs (pos n) e h h' = refl
dup2_file_room (some f) p fs (negsuc n) e h h' = absurd (h' e)

unfoldable pub plenty : PlentyLaws calls laws
unfolding laws room_laws dup2
plenty = record {
  room_laws = room_laws;
  always = λ w. omega arith;
  dup2_room = λ fd to w h h'. dup2_file_room (lookup w fd) (lookup w to) w to refl h h';
  new_pipe_fresh = lookup-fresh;
}
