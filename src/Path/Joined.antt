-- ===== src/Path/Joined.antt =====
-- The components of a relative path that is put together from names.
use zentor.Prelude.{
  ◌≡◌, refl, ℕ, Bool, true, false, List, [], ◌∷◌, ◌++◌, any, arith, All, if◌then◌else◌, Bool-cases,
  inl, inr, if_both, if_or,
}
use zentor.Text.{Text, text, text_eq, is_empty, split_on, push_front, starts_with}
use zentor.Path.{
  Component, cur_dir, normal, is_slash, component_of, body, relative, is_absolute, components,
}

-- a name between two slashes that is none of the special ones
pub record IsPart (part : Text) : Type 0 where
  pub no_slash : any is_slash part ≡ false
  pub not_empty : is_empty part ≡ false
  pub not_dot : text_eq part (text ".") ≡ false
  pub not_dots : text_eq part (text "..") ≡ false

abbrev is_cons : List Text → Bool
is_cons [] = false
is_cons (piece ∷ rest) = true

split_on-cons : (p : ℕ → Bool) (s : Text) → is_cons (split_on p s) ≡ true
unfolding split_on
split_on-cons p [] = refl
split_on-cons p (b ∷ s) = ground arith

push_front-append :
    (b : ℕ) (pieces more : List Text)
    → is_cons pieces ≡ true
    → push_front b (pieces ++ more) ≡ push_front b pieces ++ more
push_front-append b [] more h = cc
push_front-append b (piece ∷ pieces) more h = refl

split_on-append :
    (p : ℕ → Bool) (s : Text) (b : ℕ) (t : Text)
    → p b ≡ true
    → split_on p (s ++ b ∷ t) ≡ split_on p s ++ split_on p t
unfolding split_on
split_on-append p [] b t h = rw h refl
split_on-append p (a ∷ s) b t h = elim (Bool-cases (p a)) [
  | inl e ↦ rw (e, split_on-append p s b t h) refl
  | inr e ↦
      rw (e, split_on-append p s b t h)
        (push_front-append a (split_on p s) (split_on p t) (split_on-cons p s))
]

split_on_whole : (p : ℕ → Bool) (s : Text) → any p s ≡ false → split_on p s ≡ s ∷ []
unfolding split_on
split_on_whole p [] h = refl
split_on_whole p (a ∷ s) h = ground (arith, split_on_whole p s)

component_of-append :
    (x : Text) (xs ys : List Component) → component_of x (xs ++ ys) ≡ component_of x xs ++ ys
component_of-append x xs ys = ground arith

dotted-append :
    (x : Text) (dot : Bool) (xs ys : List Component)
    → (if dot then cur_dir ∷ (xs ++ ys) else component_of x (xs ++ ys))
      ≡ (if dot then cur_dir ∷ xs else component_of x xs) ++ ys
dotted-append x true xs ys = refl
dotted-append x false xs ys = component_of-append x xs ys

body-append : (xs ys : List Text) → body (xs ++ ys) ≡ body xs ++ body ys
unfolding body
body-append [] ys = refl
body-append (x ∷ xs) ys = rw (body-append xs ys) (component_of-append x (body xs) (body ys))

body_part : (part : Text) → IsPart part → body (part ∷ []) ≡ normal part ∷ []
unfolding body
body_part part h = rw (h.not_empty, h.not_dot, h.not_dots) refl

relative-append :
    (xs : List Text) (part : Text)
    → IsPart part
    → is_cons xs ≡ true
    → relative (xs ++ part ∷ []) ≡ relative xs ++ normal part ∷ []
unfolding relative
relative-append [] part h e = cc
relative-append (x ∷ xs) part h e =
    rw (body-append xs (part ∷ []), body_part part h)
      (dotted-append x (text_eq x (text ".")) (body xs) (normal part ∷ []))

-- the components of all its pieces are the path's
components-relative :
    (path : Text) → is_absolute path ≡ false → components path ≡ relative (split_on is_slash path)
unfolding components
components-relative path h = rw h refl

pub is_absolute-append : (s t : Text) → is_empty s ≡ false → is_absolute (s ++ t) ≡ is_absolute s
unfolding is_absolute is_empty starts_with text
is_absolute-append [] t h = cc
is_absolute-append (b ∷ s) t h = refl

pub is_absolute_part : (part : Text) → any is_slash part ≡ false → is_absolute part ≡ false
unfolding is_absolute starts_with text
is_absolute_part [] h = refl
is_absolute_part (b ∷ part) h = ground arith

pub components_empty : components [] ≡ []
unfolding components is_absolute starts_with text split_on relative body text_eq is_empty
components_empty = refl

-- A name alone is its own component.
pub components_part : (part : Text) → IsPart part → components part ≡ normal part ∷ []
unfolding relative
components_part part h =
    rw
      (
        components-relative part (is_absolute_part part h.no_slash),
        split_on_whole is_slash part h.no_slash,
        h.not_dot,
        h.not_empty,
        h.not_dots,
      )
      refl

-- A name after a slash is one component more.
pub components-append :
    (path part : Text)
    → is_empty path ≡ false
    → is_absolute path ≡ false
    → IsPart part
    → components (path ++ (text "/" ++ part)) ≡ components path ++ normal part ∷ []
unfolding text
components-append path part some_path h p =
    rw
      (
        components-relative (path ++ (text "/" ++ part))
            (rw (is_absolute-append path (text "/" ++ part) some_path) h),
        components-relative path h,
        split_on-append is_slash path b'/' part refl,
        split_on_whole is_slash part p.no_slash,
      )
      (relative-append (split_on is_slash path) part p (split_on-cons is_slash path))

-- what a component of any path is
abbrev pub IsPartOf : Component → Type 0
IsPartOf (normal part) = IsPart part
IsPartOf _ = Unit

abbrev NoSlash : Text → Type 0
NoSlash piece = any is_slash piece ≡ false

push_front-NoSlash :
    (b : ℕ) (pieces : List Text)
    → is_slash b ≡ false
    → All NoSlash pieces
    → All NoSlash (push_front b pieces)
push_front-NoSlash b [] h all = (rw h refl, tt)
push_front-NoSlash b (piece ∷ rest) h all = (rw h all.0, all.1)

split_on-NoSlash : (s : Text) → All NoSlash (split_on is_slash s)
unfolding split_on
split_on-NoSlash [] = (refl, tt)
split_on-NoSlash (b ∷ s) =
    if_or (All NoSlash) (is_slash b) (λ h. (refl, split_on-NoSlash s))
      (λ h. push_front-NoSlash b (split_on is_slash s) h (split_on-NoSlash s))

component_of-IsPartOf :
    (x : Text) (rest : List Component)
    → any is_slash x ≡ false
    → All IsPartOf rest
    → All IsPartOf (component_of x rest)
component_of-IsPartOf x rest h all =
    if_or (All IsPartOf) (is_empty x) (λ e. all)
      (λ some_text.
        if_or (All IsPartOf) (text_eq x (text ".")) (λ e. all)
          (λ no_dot.
            if_or (All IsPartOf) (text_eq x (text "..")) (λ e. (tt, all))
              (λ no_dots. (
                record {
                  no_slash = h;
                  not_empty = some_text;
                  not_dot = no_dot;
                  not_dots = no_dots;
                },
                all,
              ))))

body-IsPartOf : (pieces : List Text) → All NoSlash pieces → All IsPartOf (body pieces)
unfolding body
body-IsPartOf [] all = tt
body-IsPartOf (x ∷ rest) all = component_of-IsPartOf x (body rest) all.0 (body-IsPartOf rest all.1)

relative-IsPartOf : (pieces : List Text) → All NoSlash pieces → All IsPartOf (relative pieces)
unfolding relative body
relative-IsPartOf [] all = tt
relative-IsPartOf (x ∷ rest) all =
    if_both (All IsPartOf) (text_eq x (text ".")) (tt, body-IsPartOf rest all.1)
      (body-IsPartOf (x ∷ rest) all)

-- Every name among the components of a path is a name between slashes.
pub components-IsPartOf : (path : Text) → All IsPartOf (components path)
unfolding components
components-IsPartOf path =
    if_both (All IsPartOf) (is_absolute path)
      (tt, body-IsPartOf (split_on is_slash path) (split_on-NoSlash path))
      (relative-IsPartOf (split_on is_slash path) (split_on-NoSlash path))
