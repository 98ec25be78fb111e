-- ===== src/Update/Package/SafePath.antt =====
-- The paths of a payload stay inside the folder (`safe_relative_path` of update_package.rs).
use zentor.Prelude.{◌≡◌, refl, sym, ap, ◌∙◌, true, false, not, List, [], ◌∷◌, ◌++◌, map, All, arith}
use zentor.Text.{Text, text, is_empty, starts_with}
use zentor.Path.{Component, cur_dir, normal, is_absolute, components}
use zentor.Path.Joined.{
  IsPart, IsPartOf, is_absolute_part, is_absolute-append, components_empty, components_part,
  components-append, components-IsPartOf,
}
use zentor.Outcome.{ok, ensure, bind-ok, ok-inj, ensure-ok}
use zentor.Update.Package.{push_part, push_components, safe_relative_path}

-- the names among the components
abbrev names : List Component → List Text
names [] = []
names (normal part ∷ rest) = part ∷ names rest
names (_ ∷ rest) = names rest

abbrev build : Text → List Text → Text
build out [] = out
build out (part ∷ parts) = build (push_part out part) parts

push_components-build :
    (value out : Text) (cs : List Component) (p : Text)
    → push_components value out cs ≡ ok p
    → p ≡ build out (names cs)
unfolding push_components
push_components-build value out [] p h = sym (ok-inj h)
push_components-build value out (normal part ∷ cs) p h =
    push_components-build value (push_part out part) cs p h
push_components-build value out (cur_dir ∷ cs) p h = push_components-build value out cs p h
push_components-build value out (_ ∷ cs) p h = cc

build-push_components :
    (value out : Text) (parts : List Text)
    → push_components value out (map normal parts) ≡ ok (build out parts)
unfolding push_components
build-push_components value out [] = refl
build-push_components value out (part ∷ parts) =
    build-push_components value (push_part out part) parts

names-IsPart : (cs : List Component) → All IsPartOf cs → All IsPart (names cs)
names-IsPart [] all = tt
names-IsPart (normal part ∷ cs) all = (all.0, names-IsPart cs all.1)
names-IsPart (_ ∷ cs) all = names-IsPart cs all.1

push_part_relative :
    (out part : Text)
    → is_absolute out ≡ false
    → IsPart part
    → is_absolute (push_part out part) ≡ false
unfolding push_part is_empty
push_part_relative [] part h p = is_absolute_part part p.no_slash
push_part_relative (b ∷ out) part h p = rw (is_absolute-append (b ∷ out) (text "/" ++ part) refl) h

components-push_part :
    (out part : Text)
    → is_absolute out ≡ false
    → IsPart part
    → components (push_part out part) ≡ components out ++ normal part ∷ []
unfolding push_part is_empty
components-push_part [] part h p = rw components_empty (components_part part p)
components-push_part (b ∷ out) part h p = components-append (b ∷ out) part refl h p

-- one name more than before
append_more :
    (cs : List Component) (c : Component) (rest : List Component)
    → (cs ++ c ∷ []) ++ rest ≡ cs ++ c ∷ rest
append_more [] c rest = refl
append_more (x ∷ cs) c rest = ap (λ t. x ∷ t) (append_more cs c rest)

append_none : (cs : List Component) → cs ++ [] ≡ cs
append_none [] = refl
append_none (x ∷ cs) = ap (λ t. x ∷ t) (append_none cs)

components-build :
    (out : Text) (parts : List Text)
    → is_absolute out ≡ false
    → All IsPart parts
    → (is_absolute (build out parts) ≡ false)
      × (components (build out parts) ≡ components out ++ map normal parts)
components-build out [] h all = (h, sym (append_none (components out)))
components-build out (part ∷ parts) h all =
    let (r, e) =
      components-build (push_part out part) parts (push_part_relative out part h all.0) all.1 in
    (
      r,
      e
          ∙ rw (components-push_part out part h all.0)
              (append_more (components out) (normal part) (map normal parts)),
    )

is_empty_of : (t : Text) → not (is_empty t) ≡ true → is_empty t ≡ false
is_empty_of t h = ground arith

empty_relative : is_absolute [] ≡ false
unfolding is_absolute starts_with text
empty_relative = refl

-- a path that leads to no place outside a folder, and that the check leaves as it is
abbrev pub Stays : Text → Type 0
Stays path =
    (is_absolute path ≡ false)
    × (is_empty path ≡ false)
    × ((parts : List Text) × (components path ≡ map normal parts) × All IsPart parts)
    × (safe_relative_path path ≡ ok path)

build-Stays :
    (parts : List Text)
    → All IsPart parts
    → is_empty (build [] parts) ≡ false
    → Stays (build [] parts)
unfolding safe_relative_path
build-Stays parts all some_path =
    let (rel, e) = components-build [] parts empty_relative all in
    let named = e ∙ rw components_empty refl in
    (
      rel,
      some_path,
      (parts, named, all),
      rw (rel, named, build-push_components (build [] parts) [] parts, some_path) refl,
    )

-- `safe_relative_path`: where it gives a path, this is not empty and not absolute and consists of
-- names alone, so that it leads to no place outside a folder that it is joined to; the names lie
-- between slashes, are not empty and none is a dot or two. Given that path it gives the same again.
pub safe_relative_path-Stays : (value path : Text) → safe_relative_path value ≡ ok path → Stays path
unfolding safe_relative_path
safe_relative_path-Stays value path h =
    let (u, relative, h1) = bind-ok (ensure (not (is_absolute value)) _) _ path h in
    let (out, built, h2) = bind-ok (push_components value [] (components value)) _ path h1 in
    let (v, some_path, e) = bind-ok (ensure (not (is_empty out)) _) _ path h2 in
    let same = sym (ok-inj e) ∙ push_components-build value [] (components value) out built in
    rw same (
      build-Stays (names (components value))
        (names-IsPart (components value) (components-IsPartOf value))
        (rw (← same, ← ok-inj e) (is_empty_of out (ensure-ok (not (is_empty out)) _ some_path))))
