-- ===== src/Python/Json.antt =====
-- Values of Python's dynamic type, as `json.loads` returns them, and dictionaries with text keys.
-- A number is a count of ten-thousandths, as `Models.Score` is.
use nitpicker_daemon.Prelude.{
  ℕ, zero, suc, String, Bool, true, false, not, Option, none, some, List, [], ◌∷◌, ◌++◌, ◌==◌, ◌≡◌,
  refl, if◌then◌else◌, eqb, eq_iff, arith, is_some,
}

mutual
  pub data Json : Type 0 where
    null : Json
    bool : Bool → Json
    num : ℕ → Json
    str : String → Json
    arr : Items → Json
    obj : Fields → Json

  pub data Items : Type 0 where
    nil : Items
    cons : Json → Items → Items

  pub data Fields : Type 0 where
    end : Fields
    field : String → Json → Fields → Fields

-- `items[:n]`
abbrev pub take_items : ℕ → Items → Items
take_items zero items = nil
take_items (suc n) nil = nil
take_items (suc n) (cons v items) = cons v (take_items n items)

abbrev pub Dict : Type 0
Dict = List (String × Json)

abbrev pub fields : Fields → Dict
fields end = []
fields (field k v rest) = (k, v) ∷ fields rest

-- the object with the entries of a dictionary
abbrev pub to_fields : Dict → Fields
to_fields [] = end
to_fields ((k, v) ∷ rest) = field k v (to_fields rest)

-- `d.get(k)`, for a dictionary with values of any type
abbrev pub lookup {ℓ} : {V : Type ℓ} → String → List (String × V) → Option V
lookup k [] = none
lookup k ((j, v) ∷ d) = if j == k then some v else lookup k d

-- `k in d`
abbrev pub has_key {ℓ} : {V : Type ℓ} → String → List (String × V) → Bool
has_key k d = is_some (lookup k d)

-- `d.get(k, default)`
abbrev pub get_or {ℓ} : {V : Type ℓ} → String → V → List (String × V) → V
get_or k default d = elim (lookup k d) [ none ↦ default | some v ↦ v ]

-- `d.get(k)`, where a missing key reads as `None`
abbrev pub get : String → Dict → Json
get k d = get_or k null d

-- `bool(v)`
abbrev pub truthy : Json → Bool
truthy null = false
truthy (bool b) = b
truthy (num n) = not (eqb n 0)
truthy (str s) = not (s == "")
truthy (arr nil) = false
truthy (arr (cons _ _)) = true
truthy (obj end) = false
truthy (obj (field _ _ _)) = true

-- `v or d`
abbrev pub or_json : Json → Json → Json
or_json v d = if truthy v then v else d

-- `v == s`, for a text `s`
abbrev pub is_str : String → Json → Bool
is_str s (str t) = t == s
is_str s _ = false

pub is_str-eq : (s : String) (v : Json) → is_str s v ≡ true → v ≡ str s
is_str-eq s (str t) h = ground (arith, eq_iff t s)
is_str-eq s null h = ground arith
is_str-eq s (bool b) h = ground arith
is_str-eq s (num n) h = ground arith
is_str-eq s (arr i) h = ground arith
is_str-eq s (obj f) h = ground arith

-- `d[k] = v`
unfoldable pub insert {ℓ} : {V : Type ℓ} → String → V → List (String × V) → List (String × V)
insert k v [] = (k, v) ∷ []
insert k v ((j, w) ∷ d) = if j == k then (j, v) ∷ d else (j, w) ∷ insert k v d

pub lookup-insert {ℓ} :
    {V : Type ℓ} (k j : String) (v : V) (d : List (String × V))
    → lookup j (insert k v d) ≡ (if k == j then some v else lookup j d)
unfolding insert
lookup-insert k j v [] = refl
lookup-insert k j v ((i, w) ∷ d) =
    ground (arith, lookup-insert k j v d, eq_iff i k, eq_iff i j, eq_iff k j)

-- `str(v)`, where `repr` gives the text of a value that is no text
abbrev pub text_of : (Json → String) → Json → String
text_of repr (str s) = s
text_of repr v = repr v

-- `d.setdefault(k, v)`
abbrev pub set_default : String → Json → Dict → Dict
set_default k v d = if has_key k d then d else d ++ (k, v) ∷ []

pub get-insert :
    (k j : String) (v : Json) (d : Dict) → get j (insert k v d) ≡ (if k == j then v else get j d)
get-insert k j v d = ground (arith, lookup-insert k j v d)
