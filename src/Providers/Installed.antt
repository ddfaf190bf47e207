-- ===== src/Providers/Installed.antt =====
-- providers/ollama.py: the names of the models that a server lists, and whether one is among them.
use nitpicker_daemon.Prelude.{
  String, Bool, true, false, ◌||◌, List, [], ◌∷◌, ◌==◌, if◌then◌else◌, concat, starts_with,
}
use nitpicker_daemon.Python.Errors.{Result, ok, fail, type_error, attribute_error, ◌>>=◌}
use nitpicker_daemon.Python.Json.{Json, str, arr, obj, Items, nil, cons, end, field, fields, get_or}

-- a member of a set
hashable : Json → Result Json
hashable (arr _) = fail type_error "unhashable type: 'list'"
hashable (obj _) = fail type_error "unhashable type: 'dict'"
hashable v = ok v

-- `m.get("name", "")`
name_of : Json → Result Json
unfolding hashable
name_of (obj fs) = hashable (get_or "name" (str "") (fields fs))
name_of _ = fail attribute_error "object has no attribute 'get'"

names_in : Items → Result (List Json)
unfolding name_of
names_in nil = ok []
names_in (cons m rest) = do name ← name_of m; names ← names_in rest; ok (name ∷ names)

-- the names in `data.get("models", [])`
unfoldable pub model_names : Json → Result (List Json)
unfolding names_in
model_names (arr items) = names_in items
model_names (str s) =
    if s == "" then ok [] else fail attribute_error "'str' object has no attribute 'get'"
model_names (obj end) = ok []
model_names (obj (field _ _ _)) = fail attribute_error "'str' object has no attribute 'get'"
model_names _ = fail type_error "object is not iterable"

-- an exact match, or one with the tag left out on either side
matches_name : String → Json → Result Bool
matches_name model (str name) =
    ok (model == name || (starts_with (concat (model ∷ ":" ∷ [])) name || starts_with name model))
matches_name model _ = fail attribute_error "object has no attribute 'startswith'"

unfoldable pub any_match : String → List Json → Result Bool
unfolding matches_name
any_match model [] = ok false
any_match model (name ∷ names) = do
  found ← matches_name model name
  if found then ok true else any_match model names

-- the names of the answer, and whether the model is among them
abbrev pub installed : String → Json → Result Bool
installed model (obj fs) = model_names (get_or "models" (arr nil) (fields fs)) >>= any_match model
installed model _ = fail attribute_error "object has no attribute 'get'"
