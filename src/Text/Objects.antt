-- ===== src/Text/Objects.antt =====
-- Objects used as dictionaries, `Record<string, V>`: association lists in insertion order.
use rag_chat_cli.Prelude.{
  List, [], ◌∷◌, Option, none, some, ◌≡◌, refl, ◌∙◌, arith, if◌then◌else◌, Bool-cases, inl, inr,
}
use rag_chat_cli.Text.{Text, same}
use rag_chat_cli.Text.Laws.{same_iff}

module _ {ℓ} {V : Type ℓ} where
  -- `o[k]`
  pub lookup : Text → List (Text × V) → Option V
  lookup k [] = none
  lookup k ((j, v) ∷ o) = if same j k then some v else lookup k o

  -- `{...o, [k]: v}`
  pub insert : Text → V → List (Text × V) → List (Text × V)
  insert k v [] = (k, v) ∷ []
  insert k v ((j, w) ∷ o) = if same j k then (j, v) ∷ o else (j, w) ∷ insert k v o

  -- `delete o[k]`
  pub delete : Text → List (Text × V) → List (Text × V)
  delete k [] = []
  delete k ((j, w) ∷ o) = if same j k then delete k o else (j, w) ∷ delete k o

  -- `Object.fromEntries(Object.entries(o).map(([k, v]) => [k, f(v)]))`
  pub map_values : (V → V) → List (Text × V) → List (Text × V)
  map_values f [] = []
  map_values f ((j, w) ∷ o) = (j, f w) ∷ map_values f o

  pub lookup-insert :
      (k j : Text) (v : V) (o : List (Text × V))
      → lookup j (insert k v o) ≡ (if same k j then some v else lookup j o)
  unfolding lookup insert
  lookup-insert k j v [] = refl
  lookup-insert k j v ((i, w) ∷ o) =
      ground (arith, same_iff k j, same_iff i k, same_iff i j, lookup-insert k j v o)

  pub lookup-delete :
      (k j : Text) (o : List (Text × V))
      → lookup j (delete k o) ≡ (if same k j then none else lookup j o)
  unfolding lookup delete
  lookup-delete k j [] = ground arith
  lookup-delete k j ((i, w) ∷ o) =
      ground (arith, same_iff k j, same_iff i k, same_iff i j, lookup-delete k j o)

  pub lookup-map_values :
      (k : Text) (f : V → V) (o : List (Text × V))
      → lookup k (map_values f o) ≡ elim (lookup k o) [ none ↦ none | some v ↦ some (f v) ]
  unfolding lookup map_values
  lookup-map_values k f [] = refl
  lookup-map_values k f ((j, w) ∷ o) = ground (arith, lookup-map_values k f o)

  -- Every key stands once.
  abbrev pub HasDistinctKeys : List (Text × V) → Type ℓ
  HasDistinctKeys [] = Unit
  HasDistinctKeys ((k, v) ∷ o) = (lookup k o ≡ none) × HasDistinctKeys o

  pub insert-HasDistinctKeys :
      (k : Text) (v : V) (o : List (Text × V)) → HasDistinctKeys o → HasDistinctKeys (insert k v o)
  unfolding insert
  insert-HasDistinctKeys k v [] h = (unfold lookup in refl, tt)
  insert-HasDistinctKeys k v ((j, w) ∷ o) (p, h) = elim (Bool-cases (same j k)) [
    | inl here ↦ rw here (p, h)
    | inr later ↦ rw later (
      lookup-insert k j v o ∙ ground (arith, same_iff k j, same_iff j k),
      insert-HasDistinctKeys k v o h,
    )
  ]

  pub delete-HasDistinctKeys :
      (k : Text) (o : List (Text × V)) → HasDistinctKeys o → HasDistinctKeys (delete k o)
  unfolding delete
  delete-HasDistinctKeys k [] h = tt
  delete-HasDistinctKeys k ((j, w) ∷ o) (p, h) = elim (Bool-cases (same j k)) [
    | inl here ↦ rw here (delete-HasDistinctKeys k o h)
    | inr later ↦ rw later (lookup-delete k j o ∙ ground (arith), delete-HasDistinctKeys k o h)
  ]

  pub map_values-HasDistinctKeys :
      (f : V → V) (o : List (Text × V)) → HasDistinctKeys o → HasDistinctKeys (map_values f o)
  unfolding map_values
  map_values-HasDistinctKeys f [] h = tt
  map_values-HasDistinctKeys f ((j, w) ∷ o) (p, h) =
      (lookup-map_values j f o ∙ rw p, map_values-HasDistinctKeys f o h)
