-- ===== src/Environment/Sequences.antt =====
-- Any sequence of calls that change the environment, against a map from names to values.
use process_cpp.Prelude.{
  ℕ, ◌≡◌, refl, ap, ◌∙◌, Bool, true, false, Option, none, some, List, [], ◌∷◌, inl, inr,
  Option-cases, if◌then◌else◌, arith,
}
use std.Path.{fun_ext}
use process_cpp.Effect.{Result, ok, throw, runtime_error}
use process_cpp.Text.{Str, str_eq, c_str}
use process_cpp.Environment.{EnvCalls, get_or_throw, get, unset_or_throw, unset, set_or_throw, set}
use process_cpp.Environment.Variables.{EnvLaws, or_else}

-- A call of one of the four functions. Those that report errors take an error code along.
pub data Call : Type 0 where
  setting : Str → Str → Call
  setting_reported : Str → Str → Option ℕ → Call
  unsetting : Str → Call
  unsetting_reported : Str → Option ℕ → Call

-- A map from names to values, where names are equal that are so up to their first null byte.
abbrev pub Map : Type 0
Map = Str → Option Str

abbrev same_name : Str → Str → Bool
same_name i j = str_eq (c_str i) (c_str j)

-- A name that has a value keeps it.
abbrev pub give : Str → Str → Map → Map
give key value m j = if same_name j key then some (or_else (m key) (c_str value)) else m j

abbrev pub take_away : Str → Map → Map
take_away key m j = if same_name j key then none else m j

-- What a call means for the map. Whether it succeeds is up to the system.
abbrev pub mean : Call → Bool → Map → Map
mean call false m = m
mean (setting key value) true m = give key value m
mean (setting_reported key value se) true m = give key value m
mean (unsetting key) true m = take_away key m
mean (unsetting_reported key se) true m = take_away key m

abbrev pub mean_all : List Call → List Bool → Map → Map
mean_all [] outcomes m = m
mean_all (call ∷ rest) [] m = m
mean_all (call ∷ rest) (b ∷ outcomes) m = mean_all rest outcomes (mean call b m)

abbrev returned : {A : Type 0} → Result A → Bool
returned (ok a) = true
returned (throw e) = false

-- What get_or_throw gives for what a map gives.
abbrev pub or_error : Option Str → Result Str
or_error none = throw runtime_error
or_error (some value) = ok value

module _ {W : Type 0} (os : EnvCalls W) where
  -- A call, with whether it returned, or returned true.
  abbrev pub perform : Call → W → Bool × W
  perform (setting key value) w = let (r, w') = set_or_throw os key value w in (returned r, w')
  perform (setting_reported key value se) w = let ((b, _), w') = set os key value se w in (b, w')
  perform (unsetting key) w = let (r, w') = unset_or_throw os key w in (returned r, w')
  perform (unsetting_reported key se) w = let ((b, _), w') = unset os key se w in (b, w')

  abbrev pub perform_all : List Call → W → List Bool × W
  perform_all [] w = ([], w)
  perform_all (call ∷ rest) w =
      let (b, w') = perform call w in let (bs, w'') = perform_all rest w' in (b ∷ bs, w'')

  -- The map that getenv shows.
  abbrev pub view : W → Map
  view w j = os.getenv (c_str j) w

  get-view :
      (w : W) (j default_value : Str) → get os j default_value w ≡ or_else (view w j) default_value
  unfolding get
  get-view w j default_value = elim (Option-cases (os.getenv (c_str j) w)) [
    | inl e ↦ rw (e, get) refl
    | inr (v, e) ↦ rw (e, get) refl
  ]

  get_or_throw-view : (w : W) (j : Str) → (get_or_throw os j w).0 ≡ or_error (view w j)
  unfolding get_or_throw
  get_or_throw-view w j = elim (Option-cases (os.getenv (c_str j) w)) [
    | inl e ↦ rw (e, get_or_throw) refl
    | inr (v, e) ↦ rw (e, get_or_throw) refl
  ]

  module _ (l : EnvLaws os) where
    view-perform :
        (call : Call) (w : W) (j : Str)
        → view (perform call w).1 j ≡ mean call (perform call w).0 (view w) j
    unfolding set_or_throw set unset_or_throw unset
    view-perform (setting key value) w j =
        ground (arith, l.getenv-setenv w (c_str key) (c_str value) false (c_str j))
    view-perform (setting_reported key value se) w j =
        ground (arith, l.getenv-setenv w (c_str key) (c_str value) false (c_str j))
    view-perform (unsetting key) w j = ground (arith, l.getenv-unsetenv w (c_str key) (c_str j))
    view-perform (unsetting_reported key se) w j =
        ground (arith, l.getenv-unsetenv w (c_str key) (c_str j))

    view-perform_all :
        (calls : List Call) (w : W)
        → view (perform_all calls w).1 ≡ mean_all calls (perform_all calls w).0 (view w)
    view-perform_all [] w = refl
    view-perform_all (call ∷ rest) w =
        let (b, w') = perform call w in
        view-perform_all rest w'
        ∙ ap (mean_all rest (perform_all rest w').0) (fun_ext (view-perform call w))

    -- Given the laws of setenv and unsetenv, after any sequence of calls of the two overloads of set and
    -- of unset, of which any may fail, get and get_or_throw give what a map from names to values
    -- gives that started as the environment did: a set that succeeds gives a value to a name that
    -- has none and leaves any other, an unset that succeeds takes the value away, and a call that
    -- fails does nothing. Where the map has no value, get gives its default and get_or_throw throws.
    pub get-perform_all :
        (calls : List Call) (w : W) (j default_value : Str)
        → let (outcomes, w') = perform_all calls w in
          let m = mean_all calls outcomes (view w) in
          (get os j default_value w' ≡ or_else (m j) default_value)
          × ((get_or_throw os j w').0 ≡ or_error (m j))
    get-perform_all calls w j default_value =
        let (outcomes, w') = perform_all calls w in
        let same : view w' j ≡ mean_all calls outcomes (view w) j =
          ap (λ (m : Map). m j) (view-perform_all calls w) in
        (
          get-view w' j default_value ∙ ap (λ (o : Option Str). or_else o default_value) same,
          get_or_throw-view w' j ∙ ap or_error same,
        )
