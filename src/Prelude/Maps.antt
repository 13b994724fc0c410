-- ===== src/Prelude/Maps.antt =====
-- A Go map with string keys, as an association list with no two entries for one key. Go leaves the
-- order of a map's entries open; here an entry keeps its place, and a new one goes to the end.
use Prim.Native.String.{String}
use mathlib.Core.Path.{◌≡◌, refl}
use mathlib.Core.Logic.{◌≢◌}
use mathlib.Core.List.{List, [], ◌∷◌}
use mathlib.Core.Option.{Option, none, some}
use native.Mathlib.Omega.{arith}
use text.Mathlib.Text.{◌==◌}
use text.Mathlib.TextEquality.{eq_iff}
use dotidx.Prelude.Tests.{if◌then◌else◌}

abbrev pub Dict {ℓ} : Type ℓ → Type ℓ
Dict V = List (String × V)

module _ {ℓ} {V : Type ℓ} where
  -- entries[name], with the second result of `value, ok := entries[name]`
  unfoldable pub lookup : String → Dict V → Option V
  lookup name [] = none
  lookup name ((first, value) ∷ entries) =
      let rest = lookup name entries in if first == name then some value else rest

  -- entries[name] = value
  unfoldable pub insert : String → V → Dict V → Dict V
  insert name value [] = (name, value) ∷ []
  insert name value ((first, old) ∷ entries) =
      let rest = insert name value entries in
      if first == name then (name, value) ∷ entries else (first, old) ∷ rest

  -- delete(entries, name)
  unfoldable pub delete : String → Dict V → Dict V
  delete name [] = []
  delete name ((first, value) ∷ entries) =
      let rest = delete name entries in if first == name then rest else (first, value) ∷ rest

  pub lookup-insert :
      (name asked : String) (value : V) (entries : Dict V)
      → lookup asked (insert name value entries)
        ≡ (if name == asked then some value else lookup asked entries)
  unfolding insert lookup
  lookup-insert name asked value [] = refl
  lookup-insert name asked value ((first, old) ∷ entries) =
      let ih = lookup-insert name asked value entries in
      ground (arith, ih, eq_iff first name, eq_iff name asked, eq_iff first asked)

  pub lookup-delete :
      (name asked : String) (entries : Dict V)
      → lookup asked (delete name entries) ≡ (if name == asked then none else lookup asked entries)
  unfolding delete lookup
  lookup-delete name asked [] = ground arith
  lookup-delete name asked ((first, old) ∷ entries) =
      let ih = lookup-delete name asked entries in
      ground (arith, ih, eq_iff first name, eq_iff name asked, eq_iff first asked)

  pub lookup-insert_self :
      (name : String) (value : V) (entries : Dict V)
      → lookup name (insert name value entries) ≡ some value
  lookup-insert_self name value entries =
      ground (arith, lookup-insert name name value entries, eq_iff name name)

  pub lookup-insert_ne :
      (name asked : String) (value : V) (entries : Dict V)
      → name ≢ asked
      → lookup asked (insert name value entries) ≡ lookup asked entries
  lookup-insert_ne name asked value entries apart =
      ground (arith, lookup-insert name asked value entries, eq_iff name asked)

  pub lookup-delete_self :
      (name : String) (entries : Dict V) → lookup name (delete name entries) ≡ none
  lookup-delete_self name entries =
      ground (arith, lookup-delete name name entries, eq_iff name name)

  pub lookup-delete_ne :
      (name asked : String) (entries : Dict V)
      → name ≢ asked
      → lookup asked (delete name entries) ≡ lookup asked entries
  lookup-delete_ne name asked entries apart =
      ground (arith, lookup-delete name asked entries, eq_iff name asked)
