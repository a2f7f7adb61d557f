-- ===== src/State/Json/Labels.antt =====
-- The labels of a record, written as a JSON object and read again.
use mathlib.Core.List.{append-nil, append_assoc}
use docker_plugin_gce_pd.Prelude.{
  ◌≡◌, refl, Bool-cases, inl, inr, ◌∙◌, ap, false, none, some, [], ◌∷◌, ◌++◌, arith, sym,
}
use docker_plugin_gce_pd.Prelude.Bytes.{Bytes, str_eq, str_eq_iff}
use docker_plugin_gce_pd.Prelude.Map.{Map, insert, lookup, lookup-nil, NodupKeys, EachOf}
use docker_plugin_gce_pd.State.Json.{Members, json_text, text_member, marshal_labels, add_labels}

-- A string that is UTF-8.
abbrev pub IsText : Bytes → Type 0
IsText s = json_text s ≡ s

abbrev pub BothText : Bytes → Bytes → Type 0
BothText k v = IsText k × IsText v

str_eq-false : (j k : Bytes) → str_eq j k ≡ false → str_eq k j ≡ false
str_eq-false j k h = ground (arith, str_eq_iff j k, str_eq_iff k j)

insert_last : (k v : Bytes) (m : Map Bytes) → lookup k m ≡ none → insert k v m ≡ m ++ ((k, v) ∷ [])
unfolding insert lookup
insert_last k v [] h = refl
insert_last k v ((j, w) ∷ m) h = ground (arith, insert_last k v m)

add_labels-member :
    (k v : Bytes) (ms : Members) (m : Map Bytes)
    → BothText k v
    → lookup k m ≡ none
    → add_labels (text_member (json_text k) v ms) m ≡ add_labels ms (m ++ ((k, v) ∷ []))
unfolding add_labels
add_labels-member k v ms m (a, b) h = rw (a, b, insert_last k v m h) refl

lookup-snoc :
    (j k v : Bytes) (m : Map Bytes)
    → lookup j m ≡ none
    → str_eq k j ≡ false
    → lookup j (m ++ ((k, v) ∷ [])) ≡ none
unfolding lookup
lookup-snoc j k v [] h n = rw n refl
lookup-snoc j k v ((i, w) ∷ m) h n = ground (arith, lookup-snoc j k v m)

abbrev pub Apart : Map Bytes → Bytes → Bytes → Type 0
Apart m k v = lookup k m ≡ none

Apart-snoc :
    (k v : Bytes) (m l : Map Bytes)
    → lookup k l ≡ none
    → EachOf (Apart m) l
    → EachOf (Apart (m ++ ((k, v) ∷ []))) l
unfolding lookup
Apart-snoc k v m [] n h = tt
Apart-snoc k v m ((j, w) ∷ l) n (a, h) = elim (Bool-cases (str_eq j k)) [
  | inl same ↦ let no : ⊥ = ground (arith, n, same) in elim no [ ]
  | inr differ ↦
      (lookup-snoc j k v m a (str_eq-false j k differ), Apart-snoc k v m l (ground arith) h)
]

pub add_labels-lem :
    (l m : Map Bytes)
    → EachOf BothText l
    → NodupKeys l
    → EachOf (Apart m) l
    → add_labels (marshal_labels l) m ≡ some (m ++ l)
unfolding add_labels marshal_labels
add_labels-lem [] m t u f = ap some (sym (append-nil m))
add_labels-lem ((k, v) ∷ l) m (t, ts) (fresh, u) (a, f) =
    add_labels-member k v (marshal_labels l) m t a
    ∙ add_labels-lem l (m ++ ((k, v) ∷ [])) ts u (Apart-snoc k v m l fresh f)
    ∙ ap some (append_assoc m ((k, v) ∷ []) l)

pub Apart-nil : (l : Map Bytes) → EachOf (Apart []) l
Apart-nil [] = tt
Apart-nil ((k, v) ∷ l) = (lookup-nil k, Apart-nil l)
